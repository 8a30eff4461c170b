-- ===== src/Link/Gaps.antt =====
-- The nacks of a route are the gaps in what has been delivered.
use mathlib.Core.List.{append_assoc, append-nil}
use raknet_rs.Prelude.{
  ℕ, zero, suc, ◌+◌, ◌-◌, ◌^◌, ◌≤◌, ◌<◌, ◌≡◌, refl, sym, ap, ◌∙◌, Bool, true, false, not, ◌&&◌,
  ◌||◌, List, [], ◌∷◌, ◌++◌, ltb, leb, ◌==◌, arith, Bool-cases, inl, inr, leb→le, leb_false→lt, All,
}
use raknet_rs.Prelude.Outcome.{Outcome, ok, ◌>>=◌}
use raknet_rs.Seq
use raknet_rs.Dedup.Correct.{contains, InReach}
use raknet_rs.Dedup.Window.{with_index}
use raknet_rs.Packet.Frame.{Frame, FrameSet}
use raknet_rs.Packet.Connected.{frame_set}
use raknet_rs.Link.{Route, push, insert, remove, insert_range, note_gap, deliver}

contains-insert :
    (k : ℕ) (xs : List ℕ) (n : ℕ) → contains (insert k xs) n ≡ ((n == k) || contains xs n)
unfolding insert
contains-insert k [] n = refl
contains-insert k (x ∷ xs) n = grind (arith, contains-insert k xs n)

contains-remove :
    (k : ℕ) (xs : List ℕ) (n : ℕ) → contains (remove k xs) n ≡ (not (n == k) && contains xs n)
unfolding remove
contains-remove k [] n = ground arith
contains-remove k (x ∷ xs) n = ground (arith, contains-remove k xs n)

contains-insert_range :
    (start count : ℕ) (xs : List ℕ) (n : ℕ)
    → contains (insert_range start count xs) n
      ≡ ((leb start n && ltb n (start + count)) || contains xs n)
unfolding insert_range
contains-insert_range start zero xs n = ground arith
contains-insert_range start (suc count) xs n =
    contains-insert_range (start + 1) count (insert start xs) n
    ∙ ground (arith, contains-insert start xs n)

-- The nacks are the numbers below the next expected that have not been delivered, and nothing beyond
-- has been.
pub record TracksGaps (read : ℕ) (nack : List ℕ) (seen : ℕ → Bool) : Type 0 where
  pub gaps : (n : ℕ) → contains nack n ≡ (ltb n read && not (seen n))
  pub below : (n : ℕ) → seen n ≡ true → n < read

abbrev pub Tracks : Route → (ℕ → Bool) → Type 0
Tracks r seen = TracksGaps r.seq_read r.link.outgoing_nack seen

-- The claim on one number `n`, where the sequence number `k` is the next expected or beyond it, and
-- where it is below.
gap_beyond :
    (k read n : ℕ) (s c : Bool)
    → read ≤ k
    → c ≡ (ltb n read && not s)
    → (s ≡ true → n < read)
    → ((leb read n && ltb n (read + (k - read))) || (not (n == k) && c))
      ≡ (ltb n (k + 1) && not ((n == k) || s))
gap_beyond k read n true c h e below = let lt : n < read = below refl in ground arith
gap_beyond k read n false c h e below = ground arith

gap_below :
    (k read n : ℕ) (s c : Bool)
    → k < read
    → c ≡ (ltb n read && not s)
    → (not (n == k) && c) ≡ (ltb n read && not ((n == k) || s))
gap_below k read n s c h e = ground arith

seen_below :
    (k read n : ℕ) (s : Bool) → k < read → (s ≡ true → n < read) → ((n == k) || s) ≡ true → n < read
seen_below k read n true h below e = below refl
seen_below k read n false h below e = ground arith

note_gap-Tracks :
    (k read : ℕ) (xs : List ℕ) (seen : ℕ → Bool)
    → TracksGaps read xs seen
    → k + 1 < 2 ^ 24
    → (next : ℕ) × (ys : List ℕ) × (note_gap k read xs ≡ ok (next, ys))
      × TracksGaps next ys (with_index k seen)
unfolding note_gap
note_gap-Tracks k read xs seen t lt = elim (Bool-cases (leb read k)) [
  | inl z ↦
      rw (z, Seq.add-ok k 1 lt)
        (
          k + 1,
          insert_range read (k - read) (remove k xs),
          refl,
          record {
            gaps = λ n.
                contains-insert_range read (k - read) (remove k xs) n
                ∙ ap (λ b. (leb read n && ltb n (read + (k - read))) || b) (contains-remove k xs n)
                ∙ gap_beyond k read n (seen n) (contains xs n) (leb→le _ _ z) (t.gaps n)
                    (t.below n);
            below = λ n.
                seen_below k (k + 1) n (seen n) (omega arith)
                  (λ e. omega (arith, t.below n e, leb→le _ _ z));
          },
        )
  | inr z ↦ rw z (
    read,
    remove k xs,
    refl,
    record {
      gaps = λ n.
          contains-remove k xs n
          ∙ gap_below k read n (seen n) (contains xs n) (leb_false→lt _ _ z) (t.gaps n);
      below = λ n. seen_below k read n (seen n) (leb_false→lt _ _ z) (t.below n);
    },
  )
]

-- Delivery of a run of frame sets, each at its time.
abbrev pub deliveries : List (FrameSet (List Frame) × ℕ) → Route → Outcome Route
deliveries [] r = ok r
deliveries ((s, now) ∷ ss) r = deliver now (frame_set s) r >>= λ p. deliveries ss p.1

-- The frame sets, and the sequence numbers that have been delivered.
abbrev pub frame_sets : List (FrameSet (List Frame) × ℕ) → List (FrameSet (List Frame))
frame_sets [] = []
frame_sets ((s, now) ∷ ss) = s ∷ frame_sets ss

abbrev pub delivered : List ℕ → List (FrameSet (List Frame) × ℕ) → List ℕ
delivered past [] = past
delivered past ((s, now) ∷ ss) = delivered (s.seq_num ∷ past) ss

-- What an open route becomes by a frame set.
abbrev after : FrameSet (List Frame) → ℕ → List ℕ → Route → Route
after s next nacks r = record r {
  router = r.router ++ (s ∷ []);
  link = record r.link { outgoing_ack = push s.seq_num r.link.outgoing_ack; outgoing_nack = nacks };
  seq_read = next;
}

deliver-note_gap :
    (now : ℕ) (s : FrameSet (List Frame)) (r : Route) (next : ℕ) (nacks : List ℕ)
    → r.closed ≡ false
    → note_gap s.seq_num r.seq_read r.link.outgoing_nack ≡ ok (next, nacks)
    → deliver now (frame_set s) r ≡ ok (true, after s next nacks r)
unfolding deliver
deliver-note_gap now s r next nacks c e = rw (c, e) refl

-- Frame sets that an open route is given, in any order and with repeats, all go to the router in the
-- order of their arrival, without a panic; the nacks are then exactly the sequence numbers below the
-- next expected one that have not arrived. The sequence numbers are below 2 ^ 24 - 1.
pub deliveries-Tracks :
    (ss : List (FrameSet (List Frame) × ℕ)) (past : List ℕ) (r : Route)
    → r.closed ≡ false
    → Tracks r (contains past)
    → All (λ (x : FrameSet (List Frame) × ℕ). InReach x.0.seq_num) ss
    → (r' : Route) × (deliveries ss r ≡ ok r')
      × (r'.router ≡ r.router ++ frame_sets ss)
      × Tracks r' (contains (delivered past ss))
deliveries-Tracks [] past r c t h = (r, refl, sym (append-nil r.router), t)
deliveries-Tracks ((s, now) ∷ ss) past r c t (h, hs) =
    let (next, nacks, e, t₁) =
      note_gap-Tracks s.seq_num r.seq_read r.link.outgoing_nack (contains past) t h in
    let (r₃, e₃, q₃, t₃) = deliveries-Tracks ss (s.seq_num ∷ past) (after s next nacks r) c t₁ hs in
    (
      r₃,
      ap (λ m. m >>= λ p. deliveries ss p.1) (deliver-note_gap now s r next nacks c e) ∙ e₃,
      q₃ ∙ append_assoc r.router (s ∷ []) (frame_sets ss),
      t₃,
    )
