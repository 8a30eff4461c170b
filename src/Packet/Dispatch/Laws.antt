-- ===== src/Packet/Dispatch/Laws.antt =====
-- A written packet reads back as itself, and no datagram but an acknowledgement makes the reader panic.
use mathlib.Core.List.{append-nil}
use raknet_rs.Prelude.{
  ℕ, ◌^◌, ◌≤◌, ◌<◌, ◌≡◌, refl, sym, Bool, true, false, List, [], ◌∷◌, ◌++◌, length, length-append,
  All, arith, drop, leb, leb→le, Bool-cases, inl, inr, if◌then◌else◌,
}
use raknet_rs.Prelude.Outcome.{Outcome, ok, err, panic, stuck, ◌>>=◌}
use raknet_rs.Packet.Buf.{Buf, put_u8, get_u8}
use raknet_rs.Packet.Consumes.{Safe, Consumes-Safe, require_then}
use raknet_rs.Packet.Frame.{Frame, FrameSet, read_frame_set}
use raknet_rs.Packet.Frame.Fields
use raknet_rs.Packet.Frame.SetRoundTrip.{read_frame_set-write_frame_set}
use raknet_rs.Packet.Frame.Safety.{read_frame_set-Safe}
use raknet_rs.Packet.Ack.{AckOrNack}
use raknet_rs.Packet.Ack.Extend.{Fits}
use raknet_rs.Packet.Ack.Wire.{total, read_ack-write_ack}
use raknet_rs.Packet.PackType.{PackType, to_u8, from_u8, from_u8-to_u8, ack_flag, nack_flag}
use raknet_rs.Packet.Unconnected
use raknet_rs.Packet.Unconnected.RoundTrip
use raknet_rs.Packet.Unconnected.RoundTrip.{unencrypted, read-write_fields}
use raknet_rs.Packet.Unconnected.Safety.{read-Consumes}
use raknet_rs.Packet.Connected
use raknet_rs.Packet.Connected.{frame_set_flag}
use raknet_rs.Packet.Dispatch.{
  Packet, unconnected, connected, is_ack, is_nack, is_frame_set, write, read, read_typed,
}

abbrev AckFits : AckOrNack → Type 0
AckFits a = All Fits a × (total a ≤ 16384)

abbrev SetFits : FrameSet (List Frame) → Type 0
SetFits s = (s.seq_num < 2 ^ 24) × (0 < length s.set) × All Fields.IsValid s.set

-- A packet in the ranges of its fields. A frame set has a frame, and each frame the fields that its flags
-- say; the ranges of an acknowledgement run forwards, and stand for as many numbers as may be read.
abbrev pub IsValid : Packet → Type 0
IsValid (unconnected p) = RoundTrip.IsValid p
IsValid (connected (Connected.frame_set s)) = SetFits s
IsValid (connected (Connected.ack a)) = AckFits a
IsValid (connected (Connected.nack a)) = AckFits a

-- What is read of a packet that has been written.
abbrev pub as_read : Packet → Packet
as_read (unconnected p) = unconnected (unencrypted p)
as_read (connected p) = connected p

-- Whether a first byte announces an acknowledgement, of either kind.
abbrev pub acknowledgement : Outcome PackType → Bool
acknowledgement (ok PackType.ack) = true
acknowledgement (ok PackType.nack) = true
acknowledgement r = false

-- The type of an unconnected packet is a byte, and of no connected one.
UnconnectedType : PackType → Type 0
UnconnectedType t =
    (to_u8 t < 256) × (is_frame_set t ≡ false) × (is_ack t ≡ false) × (is_nack t ≡ false)

pack_type-UnconnectedType : (p : Unconnected.Packet) → UnconnectedType (Unconnected.pack_type p)
unfolding UnconnectedType
pack_type-UnconnectedType (Unconnected.unconnected_ping t g) = (omega arith, refl, refl, refl)
pack_type-UnconnectedType (Unconnected.unconnected_pong t g c) = (omega arith, refl, refl, refl)
pack_type-UnconnectedType (Unconnected.open_connection_request1 v m) =
    (omega arith, refl, refl, refl)
pack_type-UnconnectedType (Unconnected.open_connection_reply1 g e m) =
    (omega arith, refl, refl, refl)
pack_type-UnconnectedType (Unconnected.open_connection_request2 a m g) =
    (omega arith, refl, refl, refl)
pack_type-UnconnectedType (Unconnected.open_connection_reply2 g a m e) =
    (omega arith, refl, refl, refl)
pack_type-UnconnectedType (Unconnected.incompatible_protocol p g) = (omega arith, refl, refl, refl)
pack_type-UnconnectedType (Unconnected.already_connected g) = (omega arith, refl, refl, refl)
pack_type-UnconnectedType (Unconnected.connection_request_failed g) =
    (omega arith, refl, refl, refl)

module _ ⦃b : Buf⦄ where
  -- A byte that stands for the type `t`, and the fields of `t` behind it.
  read-typed :
      (id : ℕ) (t : PackType) (bytes : List ℕ) (r : Outcome (Packet × List ℕ))
      → id < 256
      → from_u8 id ≡ ok t
      → read_typed t bytes ≡ r
      → read (put_u8 id ++ bytes) ≡ r
  unfolding read
  read-typed id t bytes r h e k =
      require_then 1 (put_u8 id ++ bytes) _ _ (omega (arith, length-append {0}, b.length-put_uint))
        (rw (b.get_uint-put_uint 1 id bytes h, e) k)

  frame_set_flag-type : (parted : Bool) → from_u8 (frame_set_flag parted) ≡ ok PackType.frame_set
  unfolding from_u8
  frame_set_flag-type false = refl
  frame_set_flag-type true = refl

  frame_set_flag-lt : (parted : Bool) → frame_set_flag parted < 256
  frame_set_flag-lt false = omega arith
  frame_set_flag-lt true = omega arith

  unconnected_typed :
      (p : Unconnected.Packet)
      → RoundTrip.IsValid p
      → UnconnectedType (Unconnected.pack_type p)
      → read_typed (Unconnected.pack_type p) (Unconnected.write_fields p)
        ≡ ok (unconnected (unencrypted p), [])
  unfolding read_typed UnconnectedType
  unconnected_typed p v (l, f, a, n) =
      rw (f, a, n, sym (append-nil (Unconnected.write_fields p)), read-write_fields p [] v) refl

  set_read :
      (n : ℕ) (fs : List Frame)
      → n < 2 ^ 24
      → 0 < length fs
      → All Fields.IsValid fs
      → let s : FrameSet (List Frame) = record { seq_num = n; set = fs } in
        (bytes : List ℕ) × (Connected.write (Connected.frame_set s) ≡ ok bytes)
        × (read bytes ≡ ok (connected (Connected.frame_set s), []))
  set_read n [] l h v = absurd (omega arith)
  set_read n (f ∷ fs) l h v =
      let (bytes, e, k) = read_frame_set-write_frame_set n f fs l v in
      (
        put_u8 (frame_set_flag f.flags.parted) ++ bytes,
        (unfold Connected.write in rw e),
        read-typed (frame_set_flag f.flags.parted) PackType.frame_set bytes _
            (frame_set_flag-lt f.flags.parted) (frame_set_flag-type f.flags.parted)
            (unfold read_typed Connected.read_set in rw k),
      )

  pub read-write :
      (p : Packet)
      → IsValid p
      → (bytes : List ℕ) × (write p ≡ ok bytes) × (read bytes ≡ ok (as_read p, []))
  unfolding write
  read-write (unconnected p) v = (
    Unconnected.write p,
    refl,
    unfold Unconnected.write in
        read-typed (to_u8 (Unconnected.pack_type p)) (Unconnected.pack_type p)
          (Unconnected.write_fields p) _ (unfold UnconnectedType in (pack_type-UnconnectedType p).0)
          (from_u8-to_u8 (Unconnected.pack_type p))
          (unconnected_typed p v (pack_type-UnconnectedType p)),
  )
  read-write (connected (Connected.frame_set s)) (l, h, v) = set_read s.seq_num s.set l h v
  read-write (connected (Connected.ack a)) (fits, few) =
      let (bytes, e, k) = read_ack-write_ack a [] fits few in
      (
        put_u8 ack_flag ++ bytes,
        (unfold Connected.write in rw e),
        read-typed ack_flag PackType.ack bytes _ (omega arith) (from_u8-to_u8 PackType.ack)
            (unfold read_typed Connected.read_acked in rw (sym (append-nil bytes), k)),
      )
  read-write (connected (Connected.nack a)) (fits, few) =
      let (bytes, e, k) = read_ack-write_ack a [] fits few in
      (
        put_u8 nack_flag ++ bytes,
        (unfold Connected.write in rw e),
        read-typed nack_flag PackType.nack bytes _ (omega arith) (from_u8-to_u8 PackType.nack)
            (unfold read_typed Connected.read_nacked in rw (sym (append-nil bytes), k)),
      )

  typed-Safe :
      (t : PackType) (buf : List ℕ) → is_ack t ≡ false → is_nack t ≡ false → Safe (read_typed t buf)
  unfolding read_typed
  typed-Safe t buf h k = elim (Bool-cases (is_frame_set t)) [
    | inl e ↦
        rw e (unfold Connected.read_set in of_set (read_frame_set buf) (read_frame_set-Safe buf))
    | inr e ↦
        rw (e, h, k)
          (of_fields (Unconnected.read t buf) (Consumes-Safe 0 buf _ (read-Consumes t buf)))
  ]
    where
      bound : Outcome (FrameSet (List Frame)) → Outcome (Packet × List ℕ)
      bound r = do (p, rest) ← (do s ← r; ok (Connected.frame_set s, [])); ok (connected p, rest)

      of_set : (r : Outcome (FrameSet (List Frame))) → Safe r → Safe (bound r)
      of_set (ok s) c = tt
      of_set (err e) c = tt
      of_set panic c = c
      of_set stuck c = c

      of_fields :
          (r : Outcome (Unconnected.Packet × List ℕ))
          → Safe r
          → Safe (
              ◌>>=◌ {A = Unconnected.Packet × List ℕ} {B = Packet × List ℕ} r
                (λ q. ok (unconnected q.0, q.1)))
      of_fields (ok s) c = tt
      of_fields (err e) c = tt
      of_fields panic c = c
      of_fields stuck c = c

  identified-Safe :
      (r : Outcome PackType) (buf : List ℕ)
      → Safe r
      → acknowledgement r ≡ false
      → Safe (r >>= λ t. read_typed t buf)
  identified-Safe (ok t) buf s h = typed-Safe t buf (no_ack t h) (no_nack t h)
    where
      no_ack : (t : PackType) → acknowledgement (ok t) ≡ false → is_ack t ≡ false
      no_ack PackType.ack h = h
      no_ack t h = refl

      no_nack : (t : PackType) → acknowledgement (ok t) ≡ false → is_nack t ≡ false
      no_nack PackType.nack h = h
      no_nack t h = refl
  identified-Safe (err e) buf s h = tt
  identified-Safe panic buf s h = s
  identified-Safe stuck buf s h = s

  Safe-if {ℓ} :
      {A : Type ℓ} (c : Bool) (x : A) (y : Outcome A) → Safe y → Safe (if c then ok x else y)
  Safe-if true x y h = tt
  Safe-if false x y h = h

  from_u8-Safe : (id : ℕ) → Safe (from_u8 id)
  unfolding from_u8
  from_u8-Safe id = search (Safe-if, tt) depth 70

  -- A datagram whose first byte announces no acknowledgement, or of no byte, is read to a packet or to an
  -- error: `Packet::read` does not panic on it.
  pub read-Safe :
      (buf : List ℕ)
      → ((id : ℕ) (rest : List ℕ)
          → get_u8 buf ≡ ok (id, rest)
          → acknowledgement (from_u8 id) ≡ false)
      → Safe (read buf)
  unfolding read
  read-Safe buf h = elim (Bool-cases (leb 1 (length buf))) [
    | inr e ↦ rw e tt
    | inl e ↦
        (let (id, k) = b.get_uint_enough 1 buf (leb→le 1 (length buf) e) in
          rw (e, k)
            (identified-Safe (from_u8 id) (drop 1 buf) (from_u8-Safe id) (h id (drop 1 buf) k)))
  ]
