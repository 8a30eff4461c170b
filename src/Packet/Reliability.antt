-- ===== src/Packet/Reliability.antt =====
-- `Reliability` of src/lib.rs: the delivery guarantees of a frame, and the header that they cost.
use raknet_rs.Prelude.{ℕ, ◌+◌, Bool, true, false, if◌then◌else◌, ◌==◌}

pub data Reliability : Type 0 where
  unreliable unreliable_sequenced reliable reliable_ordered : Reliability
  reliable_sequenced unreliable_with_ack_receipt reliable_with_ack_receipt : Reliability
  reliable_ordered_with_ack_receipt : Reliability

-- The discriminants.
unfoldable pub to_u8 : Reliability → ℕ
to_u8 unreliable = 0
to_u8 unreliable_sequenced = 1
to_u8 reliable = 2
to_u8 reliable_ordered = 3
to_u8 reliable_sequenced = 4
to_u8 unreliable_with_ack_receipt = 5
to_u8 reliable_with_ack_receipt = 6
to_u8 reliable_ordered_with_ack_receipt = 7

-- `transmute::<u8, Reliability>`, on the three bits that it is used for.
unfoldable pub of_u8 : ℕ → Reliability
of_u8 r =
    if r == 0
    then unreliable
    else if r == 1
    then unreliable_sequenced
    else if r == 2
    then reliable
    else if r == 3
    then reliable_ordered
    else if r == 4
    then reliable_sequenced
    else if r == 5
    then unreliable_with_ack_receipt
    else if r == 6
    then reliable_with_ack_receipt
    else reliable_ordered_with_ack_receipt

unfoldable pub is_reliable : Reliability → Bool
is_reliable reliable = true
is_reliable reliable_sequenced = true
is_reliable reliable_ordered = true
is_reliable reliable_with_ack_receipt = true
is_reliable reliable_ordered_with_ack_receipt = true
is_reliable _ = false

unfoldable pub is_sequenced_or_ordered : Reliability → Bool
is_sequenced_or_ordered reliable_sequenced = true
is_sequenced_or_ordered reliable_ordered = true
is_sequenced_or_ordered unreliable_sequenced = true
is_sequenced_or_ordered reliable_ordered_with_ack_receipt = true
is_sequenced_or_ordered _ = false

unfoldable pub is_sequenced : Reliability → Bool
is_sequenced unreliable_sequenced = true
is_sequenced reliable_sequenced = true
is_sequenced _ = false

-- The header size implied, without the fragment part.
unfoldable pub size : Reliability → ℕ
unfolding is_reliable is_sequenced is_sequenced_or_ordered
size r =
    3
    + (if is_reliable r then 3 else 0)
    + (if is_sequenced r then 3 else 0)
    + (if is_sequenced_or_ordered r then 4 else 0)
