-- ===== src/Dedup/Window.antt =====
-- A duplicate window answers by the indices that it has been asked about: `duplicate` is a test of
-- membership in that history.
use mathlib.Core.List.{append_assoc, append-nil}
use raknet_rs.Prelude.{
  ℕ, zero, suc, ◌+◌, ◌-◌, ◌^◌, ◌≤◌, ◌<◌, ◌≡◌, ◌≢◌, refl, sym, ap, ◌∙◌, Bool, true, false, List, [],
  ◌∷◌, ◌++◌, ◌||◌, ◌==◌, Option, none, some, length, replicate, arith, length-append, length-set,
  length-replicate, Bool-cases, inl, inr, ==→eq,
}
use raknet_rs.Prelude.Outcome.{Outcome, ok}
use raknet_rs.Seq
use raknet_rs.BitQueue
use raknet_rs.BitQueue.{BitVecQueue}
use raknet_rs.BitQueue.Refine.{contents, IsValid, len-contents, set-contents}
use raknet_rs.BitQueue.Back.{push_back-contents}
use raknet_rs.BitQueue.Front.{front-contents, pop_front-contents, head?, tail}
use raknet_rs.Dedup.{DuplicateWindow, is_true, push_unreceived, advance, settle}
use raknet_rs.Dedup.Marks.{marked, extended, marked-set, marked-extended, marked-pop}

-- The window counts exactly the indices of `seen` as received, and reaches at most up to 2 ^ 24.
pub record Tracks (w : DuplicateWindow) (seen : ℕ → Bool) : Type 0 where
  pub valid : IsValid w.received_status
  pub bounded : w.first_unreceived + length (contents w.received_status) < 2 ^ 24
  pub marks : (n : ℕ) → marked (contents w.received_status) w.first_unreceived n ≡ seen n

-- A first bit that reads `true` is the first of the list.
true_front :
    (bits : List Bool) (o : Option Bool)
    → (bits ≢ [] → o ≡ head? bits) × (bits ≡ [] → o ≢ some true)
    → is_true o ≡ true
    → (rest : List Bool) × (bits ≡ true ∷ rest)
true_front [] none h e = cc
true_front [] (some true) h e = absurd (h.1 refl refl)
true_front [] (some false) h e = cc
true_front (true ∷ bits) o h e = (bits, refl)
true_front (false ∷ bits) o h e = cc (h.0 (λ t. cc))

popped-Tracks :
    (w : DuplicateWindow) (seen : ℕ → Bool) (rest : List Bool)
    → Tracks w seen
    → contents w.received_status ≡ true ∷ rest
    → let w' : DuplicateWindow = record {
      first_unreceived = w.first_unreceived + 1;
      received_status = BitQueue.pop_front w.received_status;
    } in
      Tracks w' seen × (length (contents w'.received_status) ≡ length rest)
popped-Tracks w seen rest t e = (
  record {
    valid = popped.0;
    bounded = omega (arith, shorter, ap length e, t.bounded);
    marks = λ n.
        ap (λ bits. marked bits (w.first_unreceived + 1) n) left
        ∙ sym (marked-pop rest w.first_unreceived n)
        ∙ ap (λ bits. marked bits w.first_unreceived n) (sym e)
        ∙ t.marks n;
  },
  shorter,
)
  where
    popped :
        IsValid (BitQueue.pop_front w.received_status)
        × (contents (BitQueue.pop_front w.received_status) ≡ tail (contents w.received_status))
    popped = pop_front-contents w.received_status t.valid

    left : contents (BitQueue.pop_front w.received_status) ≡ rest
    left = popped.1 ∙ ap tail e

    shorter : length (contents (BitQueue.pop_front w.received_status)) ≡ length rest
    shorter = ap length left

-- The closing loop ends with the fuel that it is given, does not panic, and changes no answer; it
-- leaves the first index of the queue unreceived.
abbrev Settled : (ℕ → Bool) → Outcome DuplicateWindow → Type 0
Settled seen r =
    (w' : DuplicateWindow) × (r ≡ ok w')
    × Tracks w' seen
    × (is_true (BitQueue.front w'.received_status) ≡ false)

advance-Settled :
    (fuel : ℕ) (w : DuplicateWindow) (seen : ℕ → Bool)
    → length (contents w.received_status) < fuel
    → Tracks w seen
    → Settled seen (advance fuel w)
unfolding advance
advance-Settled zero w seen h t = absurd (omega arith)
advance-Settled (suc fuel) w seen h t =
    elim (Bool-cases (is_true (BitQueue.front w.received_status))) [
      | inr e ↦ rw e (w, refl, t, e)
      | inl e ↦
          let front : (rest : List Bool) × (contents w.received_status ≡ true ∷ rest) =
            true_front (contents w.received_status) _ (front-contents w.received_status t.valid)
              e in
          let (rest, p) = front in
          let (t', shorter) = popped-Tracks w seen rest t p in
          rw (e, Seq.add-ok w.first_unreceived 1 (omega (arith, t.bounded, ap length p)))
            (advance-Settled fuel _ seen (omega (arith, shorter, ap length p)) t')
    ]

-- A window with a new queue, settled.
abbrev pub Answered : (ℕ → Bool) → Bool → Outcome (DuplicateWindow × Bool) → Type 0
Answered seen answer r = (w' : DuplicateWindow) × (r ≡ ok (w', answer)) × Tracks w' seen

pub settle-Answered :
    (w : DuplicateWindow) (q : BitVecQueue) (seen : ℕ → Bool)
    → Tracks (record w { received_status = q }) seen
    → Answered seen false (settle w q)
unfolding settle
settle-Answered w q seen t =
    let (w', e, t', f) =
      advance-Settled (suc (BitQueue.len q)) (record w { received_status = q }) seen
        (omega (arith, len-contents q)) t in
    (w', rw e, t')

-- What is received already adds nothing.
absorb : (seen : ℕ → Bool) (s n : ℕ) → seen s ≡ true → seen n ≡ ((n == s) || seen n)
absorb seen s n h = elim (Bool-cases (n == s)) [
  | inl e ↦ rw e (ap seen (==→eq n s e) ∙ h)
  | inr e ↦ rw e
]

-- The history with one more index.
abbrev pub with_index : ℕ → (ℕ → Bool) → ℕ → Bool
with_index s seen n = (n == s) || seen n

pub known-Tracks :
    (w : DuplicateWindow) (seen : ℕ → Bool) (s : ℕ)
    → Tracks w seen
    → seen s ≡ true
    → Tracks w (with_index s seen)
known-Tracks w seen s t h = record {
  valid = t.valid;
  bounded = t.bounded;
  marks = λ n. t.marks n ∙ absorb seen s n h;
}

push_unreceived-contents :
    (n : ℕ) (q : BitVecQueue)
    → IsValid q
    → IsValid (push_unreceived n q)
      × (contents (push_unreceived n q) ≡ contents q ++ replicate n false)
unfolding push_unreceived
push_unreceived-contents zero q v = (v, sym (append-nil (contents q)))
push_unreceived-contents (suc n) q v =
    let (v', e) = push_back-contents q false v in
    let (v'', e') = push_unreceived-contents n (BitQueue.push_back q false) v' in
    (
      v'',
      e'
          ∙ ap (λ bits. bits ++ replicate n false) e
          ∙ append_assoc (contents q) (false ∷ []) (replicate n false),
    )

module _ (w : DuplicateWindow) (seen : ℕ → Bool) (s : ℕ) (t : Tracks w seen) where
  -- Marking a place inside the queue.
  pub set-Tracks :
      w.first_unreceived ≤ s
      → s - w.first_unreceived < length (contents w.received_status)
      → Tracks
          (record w {
            received_status = BitQueue.set w.received_status (s - w.first_unreceived) true;
          })
          (with_index s seen)
  set-Tracks h k =
      let (v', e) = set-contents w.received_status t.valid (s - w.first_unreceived) true in
      record {
        valid = v';
        bounded = omega (
          arith,
          ap length e,
          length-set (contents w.received_status) (s - w.first_unreceived) true,
          t.bounded,
        );
        marks = λ n.
            ap (λ bits. marked bits w.first_unreceived n) e
            ∙ marked-set (contents w.received_status) w.first_unreceived s n h k
            ∙ ap (λ b. (n == s) || b) (t.marks n);
      }

  -- Marking a place behind it.
  pub extend-Tracks :
      w.first_unreceived ≤ s
      → length (contents w.received_status) ≤ s - w.first_unreceived
      → s + 1 < 2 ^ 24
      → Tracks
          (record w {
            received_status =
                BitQueue.push_back
                  (push_unreceived
                    (s - w.first_unreceived - BitQueue.len w.received_status)
                    w.received_status)
                  true;
          })
          (with_index s seen)
  extend-Tracks h k lt =
      let gap = s - w.first_unreceived in
      let missing = gap - BitQueue.len w.received_status in
      let (v₁, e₁) = push_unreceived-contents missing w.received_status t.valid in
      let (v₂, e₂) = push_back-contents (push_unreceived missing w.received_status) true v₁ in
      let e : contents (BitQueue.push_back (push_unreceived missing w.received_status) true)
          ≡ extended (contents w.received_status) gap =
        e₂
        ∙ ap (λ bits. bits ++ (true ∷ [])) e₁
        ∙ ap (λ k. (contents w.received_status ++ replicate (gap - k) false) ++ (true ∷ []))
            (len-contents w.received_status) in
      record {
        valid = v₂;
        bounded = omega (
          arith,
          ap length e,
          length-append
              (contents w.received_status
                ++ replicate (gap - length (contents w.received_status)) false)
              (true ∷ []),
          length-append (contents w.received_status)
              (replicate (gap - length (contents w.received_status)) false),
          length-replicate (gap - length (contents w.received_status)) false,
          t.bounded,
        );
        marks = λ n.
            ap (λ bits. marked bits w.first_unreceived n) e
            ∙ marked-extended (contents w.received_status) w.first_unreceived s n h k
            ∙ ap (λ b. (n == s) || b) (t.marks n);
      }
