-- ===== src/State/Incoming.antt =====
-- The incoming side of `StateManager` of src/state.rs: a stream that ends with the notification. What
-- the stream behind it gives at each poll is a list.
use raknet_rs.Prelude.{
  ℕ, zero, suc, ◌≡◌, ◌≢◌, refl, ap, Bool, true, false, List, [], ◌∷◌, if◌then◌else◌, All,
  Bool-cases, inl, inr,
}
use raknet_rs.Packet.Body.{FrameBody, disconnect_notification}

pub data IncomingState : Type 0 where
  connecting : IncomingState
  closed : IncomingState

-- `Poll<Option<FrameBody>>`
pub data Next : Type 0 where
  waiting : Next
  ended : Next
  body : FrameBody → Next

abbrev pub is_disconnect : FrameBody → Bool
is_disconnect disconnect_notification = true
is_disconnect b = false

-- `poll_next`: the answer, the state, and what the stream behind it still gives.
pub poll_next : IncomingState → List Next → Next × IncomingState × List Next
poll_next closed xs = (ended, closed, xs)
poll_next connecting [] = (waiting, connecting, [])
poll_next connecting (waiting ∷ xs) = (waiting, connecting, xs)
poll_next connecting (ended ∷ xs) = (ended, closed, xs)
poll_next connecting (body b ∷ xs) =
    if is_disconnect b then (ended, closed, xs) else (body b, connecting, xs)

-- The answers to a number of polls.
abbrev pub polls : ℕ → IncomingState → List Next → List Next
polls zero s xs = []
polls (suc n) s xs = let r = poll_next s xs in r.0 ∷ polls n r.1 r.2

-- Answers with no notification among them, and nothing but the end behind an end.
abbrev pub EndOnce : List Next → Type 0
EndOnce [] = Unit
EndOnce (waiting ∷ xs) = EndOnce xs
EndOnce (body b ∷ xs) = (b ≢ disconnect_notification) × EndOnce xs
EndOnce (ended ∷ xs) = All (λ x. x ≡ ended) xs

closed_ended : (n : ℕ) (xs : List Next) → All (λ x. x ≡ ended) (polls n closed xs)
unfolding poll_next
closed_ended zero xs = tt
closed_ended (suc n) xs = (refl, closed_ended n xs)

other_body : (b : FrameBody) → is_disconnect b ≡ false → b ≢ disconnect_notification
other_body b e k = cc (ap is_disconnect k, e)

-- Any number of polls of a new incoming stream, whatever the stream behind it gives: the notification is
-- never handed on, and after the first end each answer is an end.
pub polls-EndOnce : (n : ℕ) (xs : List Next) → EndOnce (polls n connecting xs)
unfolding poll_next
polls-EndOnce zero xs = tt
polls-EndOnce (suc n) [] = polls-EndOnce n []
polls-EndOnce (suc n) (waiting ∷ xs) = polls-EndOnce n xs
polls-EndOnce (suc n) (ended ∷ xs) = closed_ended n xs
polls-EndOnce (suc n) (body b ∷ xs) = elim (Bool-cases (is_disconnect b)) [
  | inl e ↦ rw e (closed_ended n xs)
  | inr e ↦ rw e (other_body b e, polls-EndOnce n xs)
]
