-- ===== src/Examples/Messages.antt =====
-- A message that is split, its parts in another order, and a part that comes twice.
use mathlib.Core.List.{Permᴰ}
use raknet_rs.Prelude.{ℕ, ◌+◌, refl, true, List, [], ◌∷◌, none, some, arith}
use raknet_rs.Packet.Reliability
use raknet_rs.Packet.Reliability.{reliable}
use raknet_rs.Packet.Frame.{Frame, new_flags}
use raknet_rs.Codec.Fragment.{Plan, split_loop}
use raknet_rs.Codec.Defragment.{DeFragment, receive_all}
use raknet_rs.Codec.Defragment.Message.{Delivered, split_loop-Delivered}
use raknet_rs.Examples.Bytes.{bytes}
use raknet_rs.Examples.Caches.{by_id}

abbrev plan : Plan
plan = record {
  reliability = reliable;
  channel = 0;
  frame_index = 0;
  max_len = 12;
  per_len = 2;
  parted_size = 2;
  parted_id = 3;
}

abbrev part : ℕ → List ℕ → Frame
unfolding new_flags
part i body = record {
  flags = new_flags reliable true;
  reliable_frame_index = some (7 + i);
  seq_frame_index = none;
  ordered = none;
  fragment = some (record { parted_size = 2; parted_id = 3; parted_index = i });
  body = body;
}

abbrev decoder : DeFragment
decoder = record { limit_size = 2; parts = λ k. none; buffer = [] }

split_loop-Delivered_example :
    Delivered plan 7
      (1 ∷ 2 ∷ 3 ∷ [])
      decoder
      (receive_all ((0, part 1 (3 ∷ [])) ∷ (1, part 0 (1 ∷ 2 ∷ [])) ∷ []) decoder)
unfolding split_loop new_flags Reliability.is_reliable raknet_rs.Seq.add part
split_loop-Delivered_example =
    split_loop-Delivered plan 7 (1 ∷ 2 ∷ 3 ∷ []) (part 0 (1 ∷ 2 ∷ []) ∷ part 1 (3 ∷ []) ∷ []) [] 9
      ((0, part 1 (3 ∷ [])) ∷ (1, part 0 (1 ∷ 2 ∷ [])) ∷ []) decoder refl (omega arith)
      (omega arith) (omega arith) (omega arith) (omega arith) (omega arith) refl refl refl
      (Permᴰ.swap refl refl)
