-- ===== src/Dedup/Correct.antt =====
-- `duplicate` as a test of membership in the history of a connection.
use raknet_rs.Prelude.{
  ℕ, ◌+◌, ◌-◌, ◌^◌, ◌≤◌, ◌<◌, ◌≡◌, refl, sym, ap, ◌∙◌, Bool, true, false, List, [], ◌∷◌, ◌||◌, ◌==◌,
  ltb, length, get_elem?_beyond, All, arith, Bool-cases, inl, inr, ltb_false→le, ltb→lt,
}
use raknet_rs.Prelude.Outcome.{ok}
use raknet_rs.Seq
use raknet_rs.BitQueue
use raknet_rs.BitQueue.Refine.{contents, len-contents, get-contents, new-contents}
use raknet_rs.Dedup.{DuplicateWindow, default, is_true, duplicate, answers}
use raknet_rs.Dedup.Marks.{marked}
use raknet_rs.Dedup.Window.{
  Tracks, Answered, with_index, known-Tracks, set-Tracks, extend-Tracks, settle-Answered,
}

module _ (w : DuplicateWindow) (seen : ℕ → Bool) (s : ℕ) (t : Tracks w seen) where
  -- What the window says of `s`, by the half of the window that `s` falls in.
  below : ltb s w.first_unreceived ≡ true → seen s ≡ true
  below e = sym (t.marks s) ∙ rw e

  within :
      ltb s w.first_unreceived ≡ false
      → is_true (BitQueue.get w.received_status (s - w.first_unreceived)) ≡ seen s
  within e =
      ap is_true (get-contents w.received_status (s - w.first_unreceived)) ∙ rw e at (t.marks s)

  unseen :
      ltb s w.first_unreceived ≡ false
      → length (contents w.received_status) ≤ s - w.first_unreceived
      → seen s ≡ false
  unseen e h =
      sym (rw e at (t.marks s))
      ∙ ap is_true (get_elem?_beyond (contents w.received_status) (s - w.first_unreceived) h)

  -- An index below 2 ^ 24 - 1 is answered by the history, and joins it; the code does not panic.
  pub duplicate-Answered : s + 1 < 2 ^ 24 → Answered (with_index s seen) (seen s) (duplicate w s)
  unfolding duplicate
  duplicate-Answered lt = elim (Bool-cases (ltb s w.first_unreceived)) [
    | inl e ↦ rw (e, below e) (w, refl, known-Tracks w seen s t (below e))
    | inr e ↦
        rw (e, Seq.sub-ok s w.first_unreceived (ltb_false→le _ _ e))
          (elim (Bool-cases (ltb (s - w.first_unreceived) (BitQueue.len w.received_status))) [
            | inl k ↦
                elim (Bool-cases
                  (is_true (BitQueue.get w.received_status (s - w.first_unreceived)))) [
                    | inl g ↦
                        rw (k, g, ← within e, g)
                          (w, refl, known-Tracks w seen s t (sym (within e) ∙ g))
                    | inr g ↦
                        rw (k, g, ← within e, g)
                          (settle-Answered w _ (with_index s seen) (
                            set-Tracks w seen s t (ltb_false→le _ _ e)
                              (omega (arith, ltb→lt _ _ k, len-contents w.received_status))))
                  ]
            | inr k ↦
                rw (k, unseen e (omega (arith, ltb_false→le _ _ k, len-contents w.received_status)))
                  (settle-Answered w _ (with_index s seen) (
                    extend-Tracks w seen s t (ltb_false→le _ _ e)
                      (omega (arith, ltb_false→le _ _ k, len-contents w.received_status)) lt))
          ])
  ]

-- Membership in a history.
abbrev pub contains : List ℕ → ℕ → Bool
contains [] n = false
contains (x ∷ xs) n = (n == x) || contains xs n

-- For each entry of a run, whether it has occurred before; `past` is what went before the run.
abbrev pub repeats : List ℕ → List ℕ → List Bool
repeats past [] = []
repeats past (s ∷ ss) = contains past s ∷ repeats (s ∷ past) ss

-- Every index but the last of the 24 bits. (At 2 ^ 24 - 1 the counter of the window cannot step on.)
abbrev pub InReach : ℕ → Type 0
InReach s = s + 1 < 2 ^ 24

pub default-Tracks : Tracks default (contains [])
default-Tracks = record {
  valid = new-contents.0;
  bounded = omega (arith, ap length new-contents.1);
  marks = λ n. ap (λ bits. marked bits 0 n) new-contents.1 ∙ nothing n;
}
  where
    nothing : (n : ℕ) → marked [] 0 n ≡ false
    nothing n = ground arith

answers_from :
    (ss past : List ℕ) (w : DuplicateWindow)
    → Tracks w (contains past)
    → All InReach ss
    → answers w ss ≡ ok (repeats past ss)
unfolding answers
answers_from [] past w t h = refl
answers_from (s ∷ ss) past w t (h, hs) =
    let (w', e, t') = duplicate-Answered w (contains past) s t h in
    rw (e, answers_from ss (s ∷ past) w' t' hs)

-- A new window calls an index a duplicate exactly if it has been asked about before, for every run
-- of indices below 2 ^ 24 - 1 in any order; it does not panic, and its loops end.
pub answers-repeats : (ss : List ℕ) → All InReach ss → answers default ss ≡ ok (repeats [] ss)
answers-repeats ss h = answers_from ss [] default default-Tracks h
