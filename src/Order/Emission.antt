-- ===== src/Order/Emission.antt =====
-- What `poll_next` hands on: unordered frames as they come, and of each channel exactly the next.
use raknet_rs.Prelude.{
  ℕ, zero, suc, ◌+◌, ◌/◌, ◌^◌, ◌≤◌, ◌≡◌, refl, sym, ap, ◌∙◌, List, [], ◌∷◌, ◌⊎◌, inl, inr, Option,
  none, some, ltb, leb, ◌==◌, length, map, set, get_elem?, Bool-cases, ==→eq, arith, ==_false→ne,
  Option-cases,
}
use raknet_rs.Prelude.Outcome.{Outcome, ok, err, panic, stuck, ◌>>=◌}
use raknet_rs.Seq
use raknet_rs.Packet.Frame.{Frame, FrameSet, Ordered}
use raknet_rs.Order.{
  Ordering, insert, without, take_next, take_ready, store, store_at, item, broken, exhausted, Input,
  Answer, receive, hand_on, poll_next,
}

-- The next index of each channel.
abbrev pub reads : List Ordering → List ℕ
reads = map (λ o. o.read)

-- The frames of the channel are kept under their own index.
abbrev pub Kept : ℕ → Ordering → Type 0
Kept c o =
    (k : ℕ) (s : FrameSet Frame)
    → o.frames k ≡ some s
    → s.set.ordered ≡ some (record { frame_index = k; channel = c })

-- The same of all channels, the first of them with the number `c`.
abbrev pub AllKept : ℕ → List Ordering → Type 0
AllKept c [] = Unit
AllKept c (o ∷ os) = Kept c o × AllKept (c + 1) os

-- The frame is the next of its channel, which is then stepped past it.
abbrev pub IsNext : ℕ → List ℕ → FrameSet Frame → List ℕ → Type 0
IsNext c before s after =
    (j i : ℕ) × (s.set.ordered ≡ some (record { frame_index = i; channel = c + j }))
    × (get_elem? before j ≡ some i)
    × (after ≡ set before j (i + 1))

-- A channel is at the last index, so that its counter cannot step on.
abbrev pub AtEnd : List ℕ → Type 0
AtEnd before = (j i : ℕ) × (get_elem? before j ≡ some i) × (2 ^ 24 ≤ i + 1)

abbrev Taken : ℕ → List Ordering → Outcome (Option (FrameSet Frame) × List Ordering) → Type 0
Taken c os (ok (some s, os')) = IsNext c (reads os) s (reads os') × AllKept c os'
Taken c os (ok (none, os')) = (reads os' ≡ reads os) × AllKept c os'
Taken c os (err e) = ⊥
Taken c os panic = AtEnd (reads os)
Taken c os stuck = ⊥

Kept-without :
    (c i j : ℕ) (o : Ordering)
    → Kept c o
    → Kept c (record { frames = without i o.frames; read = j })
Kept-without c i j o h k s e = elim (Bool-cases (k == i)) [
  | inl z ↦ cc (rw z at e)
  | inr z ↦ h k s (rw z at e)
]

here :
    (c : ℕ) (o : Ordering) (os : List Ordering) (s : FrameSet Frame)
    (others : Outcome (Option (FrameSet Frame) × List Ordering))
    → AllKept c (o ∷ os)
    → o.frames o.read ≡ some s
    → Taken c (o ∷ os) (take_next o os (some s) others)
unfolding take_next Seq.add
here c o os s others (h, hs) e = elim (Bool-cases ((o.read + 1) / 2 ^ 24 == 0)) [
  | inl z ↦ rw z (
    (
      0,
      o.read,
      h o.read s e ∙ (λ i. some (record { frame_index = o.read; channel = plus_zero i })),
      refl,
      refl,
    ),
    (Kept-without c o.read (o.read + 1) o h, hs),
  )
  | inr z ↦ rw z (0, o.read, refl, omega (arith, ==_false→ne _ _ z))
]
  where
    plus_zero : c ≡ c + 0
    plus_zero = omega arith

there :
    (c : ℕ) (o : Ordering) (os : List Ordering)
    (others : Outcome (Option (FrameSet Frame) × List Ordering))
    → Kept c o
    → Taken (c + 1) os others
    → Taken c (o ∷ os) (take_next o os none others)
unfolding take_next
there c o os (ok (none, os')) h (e, k) = (ap (λ rest. o.read ∷ rest) e, (h, k))
there c o os (ok (some s, os')) h ((j, i, e, f, g), k) = (
  (
    suc j,
    i,
    e ∙ (λ t. some (record { frame_index = i; channel = shift t })),
    f,
    ap (λ rest. o.read ∷ rest) g,
  ),
  (h, k),
)
  where
    shift : c + 1 + j ≡ c + suc j
    shift = omega arith
there c o os (err e) h t = t
there c o os panic h (j, i, e, f) = (suc j, i, e, f)
there c o os stuck h t = t

take_ready-Taken : (c : ℕ) (os : List Ordering) → AllKept c os → Taken c os (take_ready os)
unfolding take_ready
take_ready-Taken c [] h = (refl, tt)
take_ready-Taken c (o ∷ os) (h, hs) = elim (Option-cases (o.frames o.read)) [
  | inl e ↦ rw e (there c o os (take_ready os) h (take_ready-Taken (c + 1) os hs))
  | inr (s, e) ↦ rw e (here c o os s (take_ready os) (h, hs) e)
]

-- A frame that is stored is stored under its own index, on its own channel; no channel is stepped.
store-Kept :
    (c k : ℕ) (s : FrameSet Frame) (o : Ordering)
    → s.set.ordered ≡ some (record { frame_index = k; channel = c })
    → Kept c o
    → Kept c (store o k s) × ((store o k s).read ≡ o.read)
unfolding store
store-Kept c k s o e h = elim (Bool-cases (ltb k o.read)) [
  | inl z ↦ rw z (h, refl)
  | inr z ↦ rw z (kept, refl)
]
  where
    some_injective : {x y : FrameSet Frame} → some x ≡ some y → x ≡ y
    some_injective g = cc g

    kept : Kept c (record o { frames = insert k s o.frames })
    kept j t f = elim (Bool-cases (j == k)) [
      | inr z ↦ h j t (rw z at f)
      | inl z ↦
          ap (λ (x : FrameSet Frame). x.set.ordered) (sym (some_injective (rw z at f)))
          ∙ e
          ∙ (λ i. some (record { frame_index = sym (==→eq j k z) i; channel = c }))
    ]

store_at-AllKept :
    (c channel k : ℕ) (s : FrameSet Frame) (os : List Ordering)
    → s.set.ordered ≡ some (record { frame_index = k; channel = c + channel })
    → AllKept c os
    → AllKept c (store_at os channel k s) × (reads (store_at os channel k s) ≡ reads os)
unfolding store_at
store_at-AllKept c channel k s [] e h = (tt, refl)
store_at-AllKept c zero k s (o ∷ os) e (h, hs) =
    let (kept, same) =
      store-Kept c k s o (e ∙ (λ i. some (record { frame_index = k; channel = plus_zero i }))) h in
    ((kept, hs), ap (λ (x : ℕ). x ∷ reads os) same)
  where
    plus_zero : c + 0 ≡ c
    plus_zero = omega arith
store_at-AllKept c (suc channel) k s (o ∷ os) e (h, hs) =
    let (kept, same) =
      store_at-AllKept (c + 1) channel k s os
        (e ∙ (λ i. some (record { frame_index = k; channel = shift i }))) hs in
    ((h, kept), ap (λ rest. o.read ∷ rest) same)
  where
    shift : c + suc channel ≡ c + 1 + channel
    shift = omega arith

-- What a poll comes to, from channels that have been stepped as `before`.
abbrev pub InOrder : List ℕ → Answer → Type 0
InOrder before (ok (item s, os', rest)) =
    ((s.set.ordered ≡ none) × (reads os' ≡ before) ⊎ IsNext 0 before s (reads os')) × AllKept 0 os'
InOrder before (ok (broken e, os', rest)) = (reads os' ≡ before) × AllKept 0 os'
InOrder before (ok (exhausted, os', rest)) = (reads os' ≡ before) × AllKept 0 os'
InOrder before (err e) = ⊥
InOrder before panic = AtEnd before
InOrder before stuck = ⊥

hand_on-InOrder :
    (os : List Ordering) (r : Outcome (Option (FrameSet Frame) × List Ordering)) (input : Input)
    (otherwise : List Ordering → Answer)
    → Taken 0 os r
    → ((os' : List Ordering)
        → reads os' ≡ reads os
        → AllKept 0 os'
        → InOrder (reads os) (otherwise os'))
    → InOrder (reads os) (r >>= λ p. hand_on p.0 p.1 input (otherwise p.1))
unfolding hand_on
hand_on-InOrder os (ok (none, os')) input otherwise (e, k) h = h os' e k
hand_on-InOrder os (ok (some s, os')) input otherwise (x, k) h = (inr x, k)
hand_on-InOrder os (err e) input otherwise t h = t
hand_on-InOrder os panic input otherwise t h = t
hand_on-InOrder os stuck input otherwise t h = t

receive-InOrder :
    (s : FrameSet Frame) (o : Option Ordered) (os : List Ordering) (rest : Input)
    (more : List Ordering → Answer)
    → s.set.ordered ≡ o
    → AllKept 0 os
    → ((os' : List Ordering) → reads os' ≡ reads os → AllKept 0 os' → InOrder (reads os) (more os'))
    → InOrder (reads os) (receive s o os rest more)
unfolding receive
receive-InOrder s none os rest more e k h = (inl (e, refl), k)
receive-InOrder s (some o) os rest more e k h = elim (Bool-cases (leb (length os) o.channel)) [
  | inl z ↦ rw z (refl, k)
  | inr z ↦ rw z (
      let (kept, same) =
        store_at-AllKept 0 o.channel o.frame_index s os
          (e ∙ (λ i. some (record { frame_index = o.frame_index; channel = plus_zero i }))) k in
      h _ same kept)
]
  where
    plus_zero : o.channel ≡ 0 + o.channel
    plus_zero = omega arith

-- From channels that keep frames under their own index, on any input: a poll hands on an unordered
-- frame and steps no channel, or the frame with the next index of its channel, which alone it steps, by
-- one; on an error or at the end of the input no channel is stepped. The channels left keep frames under
-- their own index again. It panics only where a channel is at the last index of 24 bits.
pub poll_next-InOrder :
    (os : List Ordering) (input : Input) → AllKept 0 os → InOrder (reads os) (poll_next os input)
unfolding poll_next
poll_next-InOrder os [] h =
    hand_on-InOrder os (take_ready os) [] _ (take_ready-Taken 0 os h) (λ os' e k. (e, k))
poll_next-InOrder os (inr x ∷ rest) h =
    hand_on-InOrder os (take_ready os) (inr x ∷ rest) _ (take_ready-Taken 0 os h)
      (λ os' e k. (e, k))
poll_next-InOrder os (inl s ∷ rest) h =
    hand_on-InOrder os (take_ready os) (inl s ∷ rest) _ (take_ready-Taken 0 os h) (λ os' e k.
      rw e at (
        receive-InOrder s s.set.ordered os' rest (λ x. poll_next x rest) refl k
          (λ os'' e' k'. rw e' at (poll_next-InOrder os'' rest k'))))
