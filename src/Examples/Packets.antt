-- ===== src/Examples/Packets.antt =====
-- Frames, frame sets, acknowledgements and messages on concrete bytes.
use raknet_rs.Prelude.{
  ℕ, ◌+◌, ◌≤◌, ◌≡◌, refl, true, List, [], ◌∷◌, ◌++◌, none, some, length, drop, All, arith, ◌⊎◌,
}
use raknet_rs.Prelude.Outcome.{ok, panic}
use raknet_rs.Packet.Buf.{put_u16, get_u16}
use raknet_rs.Packet.Consumes.{Safe}
use raknet_rs.Packet.Reliability
use raknet_rs.Packet.Reliability.{Reliability, reliable, reliable_ordered, unreliable_sequenced}
use raknet_rs.Packet.Frame.{Frame, FrameSet, new_flags, read_frame_set, write_frame_set}
use raknet_rs.Packet.Frame.Fields.{IsValid}
use raknet_rs.Packet.Frame.SetRoundTrip.{read_frame_set-write_frame_set}
use raknet_rs.Packet.Frame.Safety.{read_frame_set-Safe}
use raknet_rs.Packet.Ack.{AckOrNack, range, single, read_ack, write_ack, extend_from, write_record}
use raknet_rs.Packet.Ack.Extend.{expand}
use raknet_rs.Packet.Ack.Safety.{Uncounted, read_ack-Safe}
use raknet_rs.Packet.Ack.Wire.{read_ack-write_ack, write_ack-extend_from, read_ack-reversed}
use raknet_rs.Codec.Fragment.{Message, Fragmenter, medium, start_send}
use raknet_rs.Codec.Fragment.Sent.{Sent}
use raknet_rs.Codec.Fragment.Send.{start_send-Sent}
use raknet_rs.Codec.Fragment.Sequenced.{Unreadable, start_send-Unreadable}
use raknet_rs.Examples.Bytes.{bytes}

abbrev ordered_part : Frame
unfolding new_flags
ordered_part = record {
  flags = new_flags reliable_ordered true;
  reliable_frame_index = some 7;
  seq_frame_index = none;
  ordered = some (record { frame_index = 3; channel = 1 });
  fragment = some (record { parted_size = 2; parted_id = 9; parted_index = 1 });
  body = 0xfe ∷ 1 ∷ 2 ∷ [];
}

ordered_part-IsValid : IsValid ordered_part
unfolding new_flags Reliability.is_reliable Reliability.is_sequenced
    Reliability.is_sequenced_or_ordered
ordered_part-IsValid = record {
  flags = refl;
  reliable = refl;
  sequenced = refl;
  ordered = refl;
  parted = refl;
  reliable_fits = omega arith;
  seq_fits = tt;
  ordered_fits = (omega arith, omega arith);
  fragment_fits = (omega arith, omega arith, omega arith);
  body_some = omega arith;
  body_fits = omega arith;
}

abbrev two_frames : FrameSet (List Frame)
two_frames = record { seq_num = 5; set = ordered_part ∷ ordered_part ∷ [] }

read_frame_set-write_frame_set_example :
    (bytes : List ℕ) × (write_frame_set two_frames ≡ ok bytes)
    × (read_frame_set bytes ≡ ok two_frames)
read_frame_set-write_frame_set_example =
    read_frame_set-write_frame_set 5 ordered_part (ordered_part ∷ []) (omega arith)
      (ordered_part-IsValid, (ordered_part-IsValid, tt))

-- One byte too few for the body that is announced.
abbrev cut_off : List ℕ
cut_off = 5 ∷ 0 ∷ 0 ∷ 0x00 ∷ 0 ∷ 16 ∷ 1 ∷ []

read_frame_set-Safe_example : Safe (read_frame_set cut_off)
read_frame_set-Safe_example = read_frame_set-Safe cut_off

abbrev plain_frame : List ℕ
plain_frame = 0x00 ∷ 0 ∷ 16 ∷ 1 ∷ 2 ∷ 3 ∷ []

abbrev records : AckOrNack
records = range 2 4 ∷ single 8 ∷ []

read_ack-write_ack_example :
    (bytes : List ℕ) × (write_ack records ≡ ok bytes)
    × (read_ack (bytes ++ (1 ∷ [])) ≡ ok (records, 1 ∷ []))
read_ack-write_ack_example =
    read_ack-write_ack records (1 ∷ []) ((omega arith, omega arith, omega arith), (omega arith, tt))
      (omega arith)

write_ack-extend_from_example :
    (records : AckOrNack) × (left bytes : List ℕ) × (extend_from (2 ∷ 3 ∷ 4 ∷ 8 ∷ []) 20
      ≡ ok (some records, left))
    × (expand records ++ left ≡ 2 ∷ 3 ∷ 4 ∷ 8 ∷ [])
    × (write_ack records ≡ ok bytes)
    × (1 + length bytes ≤ 20)
write_ack-extend_from_example =
    write_ack-extend_from 2 (3 ∷ 4 ∷ 8 ∷ []) 20 (omega arith) (omega arith)
      (omega arith, (omega arith, (omega arith, (omega arith, tt))))

-- A count of two with one record behind it.
abbrev one_missing : List ℕ
one_missing = 0 ∷ 2 ∷ 1 ∷ 7 ∷ 0 ∷ 0 ∷ []

read_ack-Safe_example :
    (n : ℕ) × (get_u16 one_missing ≡ ok (n, drop 2 one_missing))
    × (Safe (read_ack one_missing) ⊎ Uncounted n (drop 2 one_missing))
read_ack-Safe_example = read_ack-Safe one_missing (omega arith)

read_ack-reversed_example : read_ack (put_u16 1 ++ (write_record (range 4 2) ++ [])) ≡ panic
read_ack-reversed_example = read_ack-reversed 0 4 2 [] (omega arith) (omega arith) (omega arith)

abbrev fragmenter : Fragmenter
fragmenter = record {
  mtu = 30;
  reliable_write_index = 4;
  order_write_index = 0 ∷ 6 ∷ [];
  parted_id_write = 65535;
  buf = [];
}

abbrev ordered_message : Message
ordered_message = record {
  reliability = reliable_ordered;
  order_channel = 1;
  priority = medium;
  content =
      0xfe ∷ 1 ∷ 2 ∷ 3 ∷ 4 ∷ 5 ∷ 6 ∷ 7 ∷ 8 ∷ 9 ∷ 10 ∷ 11 ∷ 12 ∷ 13 ∷ 14 ∷ 15 ∷ 16 ∷ 17 ∷ 18 ∷ 19
      ∷ [];
}

start_send-Sent_example : Sent fragmenter ordered_message (start_send fragmenter ordered_message)
start_send-Sent_example = start_send-Sent fragmenter ordered_message (record {
  channel = omega arith;
  room = omega arith;
  reliable_room = omega arith;
  order_room = omega arith;
})

abbrev sequenced_message : Message
sequenced_message = record ordered_message { reliability = unreliable_sequenced }

start_send-Unreadable_example :
    (x : Sent fragmenter sequenced_message (start_send fragmenter sequenced_message)) × All
      Unreadable x.frames
unfolding Reliability.is_sequenced
start_send-Unreadable_example =
    start_send-Unreadable fragmenter sequenced_message
      (record {
        channel = omega arith;
        room = omega arith;
        reliable_room = omega arith;
        order_room = omega arith;
      })
      refl
