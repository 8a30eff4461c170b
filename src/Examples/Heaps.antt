-- ===== src/Examples/Heaps.antt =====
-- A heap of frames with penalties, as a list with the least penalty first, and the choice from it.
use raknet_rs.Prelude.{
  ℕ, suc, ◌≡◌, refl, ap, Bool, true, false, ◌&&◌, List, [], ◌∷◌, if◌then◌else◌, Option, none, some,
  leb, length, Bool-cases, inl, inr, arith,
}
use raknet_rs.Packet.Reliability.{reliable}
use raknet_rs.Packet.Frame.{Frame, new_flags}
use raknet_rs.Reliable.{PenaltyFrame, Heap, SendBuffer}
use raknet_rs.Reliable.Pop.{Popping, pop-Popping}

abbrev pub put_in : PenaltyFrame → List PenaltyFrame → List PenaltyFrame
put_in p [] = p ∷ []
put_in p (x ∷ xs) = if leb p.penalty x.penalty then p ∷ x ∷ xs else x ∷ put_in p xs

abbrev pub take_out : List PenaltyFrame → Option (PenaltyFrame × List PenaltyFrame)
take_out [] = none
take_out (x ∷ xs) = some (x, xs)

pub length-put_in :
    (p : PenaltyFrame) (xs : List PenaltyFrame) → length (put_in p xs) ≡ suc (length xs)
length-put_in p [] = refl
length-put_in p (x ∷ xs) = elim (Bool-cases (leb p.penalty x.penalty)) [
  | inl z ↦ rw z refl
  | inr z ↦ rw z (ap suc (length-put_in p xs))
]

abbrev pub behind : Option (PenaltyFrame × List PenaltyFrame) → ℕ
behind none = 0
behind (some (x, xs)) = length xs

pub empty_heap : (xs : List PenaltyFrame) → take_out xs ≡ none → length xs ≡ 0
empty_heap [] e = refl
empty_heap (x ∷ xs) e = cc

pub length-take_out :
    (p : PenaltyFrame) (xs ys : List PenaltyFrame)
    → take_out xs ≡ some (p, ys)
    → length xs ≡ suc (length ys)
length-take_out p [] ys e = cc
length-take_out p (x ∷ xs) ys e = ap (λ o. suc (behind o)) e

abbrev pub all : (PenaltyFrame → Bool) → List PenaltyFrame → Bool
all p [] = true
all p (x ∷ xs) = p x && all p xs

pub all-put_in :
    (p : PenaltyFrame → Bool) (x : PenaltyFrame) (xs : List PenaltyFrame)
    → all p (put_in x xs) ≡ (p x && all p xs)
all-put_in p x [] = refl
all-put_in p x (y ∷ ys) = elim (Bool-cases (leb x.penalty y.penalty)) [
  | inl z ↦ rw z refl
  | inr z ↦ rw (z, all-put_in p x ys) (ground arith)
]

pub all-take_out :
    (p : PenaltyFrame → Bool) (x : PenaltyFrame) (xs ys : List PenaltyFrame)
    → take_out xs ≡ some (x, ys)
    → all p xs ≡ (p x && all p ys)
all-take_out p x [] ys e = cc
all-take_out p x (y ∷ zs) ys e = ap (λ (o : Option (PenaltyFrame × List PenaltyFrame)). first o) e
  where
    first : Option (PenaltyFrame × List PenaltyFrame) → Bool
    first none = true
    first (some (a, rest)) = p a && all p rest

abbrev pub list_heap : Heap (List PenaltyFrame)
list_heap = record {
  empty = [];
  push = put_in;
  pop = take_out;
  len = length;
  len-empty = refl;
  len-push = length-put_in;
  len-pop = length-take_out;
  pop_none = empty_heap;
  all = all;
  all-empty = λ p. refl;
  all-push = all-put_in;
  all-pop = all-take_out;
}

abbrev pub small_frame : ℕ → Frame
unfolding new_flags
small_frame n = record {
  flags = new_flags reliable false;
  reliable_frame_index = some n;
  seq_frame_index = none;
  ordered = none;
  fragment = none;
  body = 1 ∷ 2 ∷ [];
}

abbrev buffer : SendBuffer (List PenaltyFrame)
buffer = record {
  send_high = record { penalty = 3; frame = small_frame 0 } ∷ [];
  send_medium = small_frame 1 ∷ small_frame 2 ∷ [];
  send_low = [];
  resend = record { penalty = 2; frame = small_frame 3 } ∷ [];
}

pop-Popping_example : Popping list_heap 30 buffer
pop-Popping_example = pop-Popping list_heap 30 buffer (omega arith)
