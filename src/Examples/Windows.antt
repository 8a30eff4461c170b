-- ===== src/Examples/Windows.antt =====
-- The queue of bits and the duplicate window on concrete indices.
use raknet_rs.Prelude.{ℕ, ◌≡◌, refl, true, false, List, [], ◌∷◌, ◌++◌, arith}
use raknet_rs.Prelude.Outcome.{ok}
use raknet_rs.BitQueue
use raknet_rs.BitQueue.{BitVecQueue}
use raknet_rs.BitQueue.Refine.{contents, IsValid, set-contents}
use raknet_rs.BitQueue.Refine
use raknet_rs.BitQueue.Back.{push_back-contents}
use raknet_rs.BitQueue.Front.{pop_front-contents, tail}
use raknet_rs.Dedup.{default, answers}
use raknet_rs.Dedup.Correct.{repeats, answers-repeats}

-- A queue that holds `true`, reached from a new one.
abbrev one_bit : BitVecQueue
one_bit = BitQueue.push_back BitQueue.new true

one_bit-IsValid : IsValid one_bit
one_bit-IsValid = (push_back-contents BitQueue.new true Refine.new-contents.0).0

push_back-contents_example :
    IsValid (BitQueue.push_back one_bit false)
    × (contents (BitQueue.push_back one_bit false) ≡ contents one_bit ++ (false ∷ []))
push_back-contents_example = push_back-contents one_bit false one_bit-IsValid

pop_front-contents_example :
    IsValid (BitQueue.pop_front one_bit)
    × (contents (BitQueue.pop_front one_bit) ≡ tail (contents one_bit))
pop_front-contents_example = pop_front-contents one_bit one_bit-IsValid

abbrev indices : List ℕ
indices = 2 ∷ 0 ∷ 2 ∷ 1 ∷ 0 ∷ 300 ∷ []

answers-repeats_example : answers default indices ≡ ok (repeats [] indices)
answers-repeats_example =
    answers-repeats indices
      (omega arith, (omega arith, (omega arith, (omega arith, (omega arith, (omega arith, tt))))))

test_repeats : repeats [] indices ≡ false ∷ false ∷ true ∷ false ∷ true ∷ false ∷ []
test_repeats = refl
