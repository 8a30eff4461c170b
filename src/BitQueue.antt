-- ===== src/BitQueue.antt =====
-- `BitVecQueue` of src/utils/bit_queue.rs: a queue of bits in a deque of 128-bit words.
-- The deque is a list, front first; a word is a number, and `v` a bit. A read of the deque out of
-- range would panic: here it reads 0, and `BitQueue.Refine` is about queues where it cannot happen.
mod Window
pub mod Refine
pub mod Back
pub mod Front
use Prim.Native.Nat.{bit_and, bit_or}
use raknet_rs.Prelude.{
  ℕ, zero, suc, ◌+◌, ◌-◌, ◌/◌, ◌^◌, Bool, true, false, not, List, [], ◌∷◌, ◌++◌, Option, none, some,
  if◌then◌else◌, leb, ◌==◌, ◌&&◌, get_or, set as set_elem,
}
use raknet_rs.Prelude.Bits.{not_mask}

pub record BitVecQueue : Type 0 where
  pub store : List ℕ
  pub head : ℕ
  pub tail : ℕ

unfoldable pub new : BitVecQueue
new = record { store = []; head = 0; tail = 0 }

-- In a queue that is well formed the head is not beyond the tail, and no index leaves the store. In any
-- other, the sources panic where the difference here is 0 and `get` reads a 0.
unfoldable pub len : BitVecQueue → ℕ
len q = q.tail - q.head

-- The word, and the bit in it, of the bit at `idx`.
abbrev to_physical_slot : BitVecQueue → ℕ → ℕ × ℕ
to_physical_slot q idx = ((idx + q.head) / 128, bit_and (idx + q.head) 127)

unfoldable pub get : BitVecQueue → ℕ → Option Bool
unfolding len
get q idx =
    let (word, slot) = to_physical_slot q idx in
    if leb (len q) idx then none else some (not (bit_and (get_or q.store word 0) (2 ^ slot) == 0))

-- The word with the bit at `slot` made `v`.
pub write_bit : ℕ → ℕ → Bool → ℕ
write_bit w slot v = if v then bit_or w (2 ^ slot) else bit_and w (not_mask 128 slot)

unfoldable pub set : BitVecQueue → ℕ → Bool → BitVecQueue
unfolding len write_bit
set q idx v =
    let (word, slot) = to_physical_slot q idx in
    if leb (len q) idx
    then q
    else record q { store = set_elem q.store word (write_bit (get_or q.store word 0) slot v) }

-- Writes the bit at `slot` of the last word of a store that has one.
write_back : List ℕ → ℕ → Bool → List ℕ
write_back [] slot v = []
write_back (w ∷ []) slot v = write_bit w slot v ∷ []
write_back (w ∷ x ∷ ws) slot v = w ∷ write_back (x ∷ ws) slot v

has_back : List ℕ → Bool
has_back [] = false
has_back (w ∷ ws) = true

unfoldable pub push_back : BitVecQueue → Bool → BitVecQueue
unfolding write_bit write_back has_back
push_back q v =
    let slot = bit_and q.tail 127 in
    if has_back q.store && not (slot == 0)
    then record q { store = write_back q.store slot v; tail = q.tail + 1 }
    else record q { store = q.store ++ ((if v then 1 else 0) ∷ []); tail = q.tail + 1 }

-- The bit at `slot` of the first word.
front_of : List ℕ → ℕ → Option Bool
front_of [] slot = none
front_of (w ∷ ws) slot = some (not (bit_and w (2 ^ slot) == 0))

unfoldable pub front : BitVecQueue → Option Bool
unfolding front_of
front q = front_of q.store q.head

unfoldable pub clear : BitVecQueue → BitVecQueue
clear q = record { store = []; head = 0; tail = 0 }

drop_front : List ℕ → List ℕ
drop_front [] = []
drop_front (w ∷ ws) = ws

unfoldable pub pop_front : BitVecQueue → BitVecQueue
unfolding clear drop_front
pop_front q =
    if q.head == q.tail
    then clear q
    else if q.head + 1 == 128
    then record { store = drop_front q.store; head = 0; tail = q.tail - 128 }
    else record q { head = q.head + 1 }
