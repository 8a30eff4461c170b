-- ===== src/Reliable/Resend/Stored.antt =====
-- What the resend map keeps fits a datagram and has been sent, and what it hands back to the buffer does
-- so too; the rest of the buffer stays.
use raknet_rs.Prelude.{
  ℕ, ◌≤◌, ◌<◌, ◌≡◌, refl, ap, ◌∙◌, true, ◌&&◌, List, [], ◌∷◌, map, Option, none, some, ◌==◌, All,
  arith, Bool-cases, inl, inr, le→leb,
}
use raknet_rs.Packet.Frame.{Frame, frame_size}
use raknet_rs.Reliable
use raknet_rs.Reliable.{PenaltyFrame, Heap, SendBuffer, push_all, backoff}
use raknet_rs.Reliable.Pop.{fits, FramesFit, AllFit}
use raknet_rs.Reliable.Resend.{ResendEntry, Entries, remove, resend_frames}

abbrev pub FitOption : ℕ → Option (List Frame) → Type 0
FitOption room none = Unit
FitOption room (some frames) = FramesFit room frames

abbrev pub StoredEntry : ℕ → Option ResendEntry → Type 0
StoredEntry room none = Unit
StoredEntry room (some entry) = FitOption room entry.frames

-- Every number is below `next`, and every frame has room.
abbrev pub Stored : ℕ → ℕ → Entries → Type 0
Stored next room m = All (λ (x : ℕ × ResendEntry). (x.0 < next) × FitOption room x.1.frames) m

pub remove-Stored :
    (next room k : ℕ) (m : Entries)
    → Stored next room m
    → StoredEntry room (remove k m).0 × Stored next room (remove k m).1
unfolding remove
remove-Stored next room k [] s = (tt, tt)
remove-Stored next room k ((j, entry) ∷ m) (s, ss) = elim (Bool-cases (j == k)) [
  | inl e ↦ rw e (s.1, ss)
  | inr e ↦ (let (g, gs) = remove-Stored next room k m ss in rw e (g, (s, gs)))
]

pub remove_unsent :
    (next room k : ℕ) (m : Entries) → Stored next room m → next ≤ k → (remove k m).0 ≡ none
unfolding remove
remove_unsent next room k [] s h = refl
remove_unsent next room k ((j, entry) ∷ m) (s, ss) h = elim (Bool-cases (j == k)) [
  | inl e ↦ absurd (ground arith)
  | inr e ↦ rw e (remove_unsent next room k m ss h)
]

pub Stored-mono :
    (next next' room : ℕ) (m : Entries) → next ≤ next' → Stored next room m → Stored next' room m
Stored-mono next next' room [] h s = tt
Stored-mono next next' room (x ∷ m) h ((k, f), ss) =
    ((omega arith, f), Stored-mono next next' room m h ss)

module _ {H : Type 0} (heap : Heap H) where
  -- Only the frames to send again change, and those that come have room.
  pub record Resends (room : ℕ) (b b' : SendBuffer H) : Type 0 where
    pub high : b'.send_high ≡ b.send_high
    pub medium : b'.send_medium ≡ b.send_medium
    pub low : b'.send_low ≡ b.send_low
    pub resend : heap.all (fits room) b.resend ≡ true → heap.all (fits room) b'.resend ≡ true

  pub Resends-refl : (room : ℕ) (b : SendBuffer H) → Resends room b b
  Resends-refl room b = record { high = refl; medium = refl; low = refl; resend = λ a. a }

  pub Resends-trans :
      (room : ℕ) (a b c : SendBuffer H) → Resends room a b → Resends room b c → Resends room a c
  Resends-trans room a b c p q = record {
    high = q.high ∙ p.high;
    medium = q.medium ∙ p.medium;
    low = q.low ∙ p.low;
    resend = λ x. q.resend (p.resend x);
  }

  pub Resends-AllFit :
      (room : ℕ) (b b' : SendBuffer H)
      → Resends room b b'
      → AllFit heap room b
      → AllFit heap room b'
  Resends-AllFit room b b' r a = record {
    high = ap (λ h. heap.all (fits room) h) r.high ∙ a.high;
    medium = rw r.medium a.medium;
    low = ap (λ h. heap.all (fits room) h) r.low ∙ a.low;
    resend = r.resend a.resend;
  }

  of_penalty : ℕ → List Frame → List PenaltyFrame
  of_penalty penalty frames = map (λ f. record { penalty = penalty; frame = f }) frames

  push_all-fits :
      (room penalty : ℕ) (frames : List Frame) (h : H)
      → FramesFit room frames
      → heap.all (fits room) h ≡ true
      → heap.all (fits room) (push_all heap (of_penalty penalty frames) h) ≡ true
  unfolding of_penalty
  push_all-fits room penalty [] h f a = a
  push_all-fits room penalty (x ∷ xs) h (f, fs) a =
      let p : PenaltyFrame = backoff heap (record { penalty = penalty; frame = x }) in
      push_all-fits room penalty xs (heap.push p h) fs
        (heap.all-push (fits room) p h ∙ (λ i. le→leb (frame_size x) room f i && a i))

  pub resend_frames-Resends :
      (room : ℕ) (entry : ResendEntry) (frames : List Frame) (buf : SendBuffer H)
      → FramesFit room frames
      → Resends room buf (resend_frames heap entry frames buf)
  unfolding Reliable.resend of_penalty
  resend_frames-Resends room entry frames buf f = record {
    high = refl;
    medium = refl;
    low = refl;
    resend = push_all-fits room entry.penalty frames buf.resend f;
  }
