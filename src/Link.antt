-- ===== src/Link.antt =====
-- `TransferLink` and `Route` of src/link.rs. The role and the peer, which are for logs and timers, are
-- left out. The lock-free queues of the link are lists; the min-heap of the acks and the `BTreeSet` of the
-- nacks are ascending lists, with what the sources use of them. The channel to the router is unbounded, so
-- it takes all unless it is closed.
pub mod Gaps
use raknet_rs.Prelude.{
  ℕ, zero, suc, ◌+◌, ◌-◌, Bool, true, false, List, [], ◌∷◌, ◌++◌, if◌then◌else◌, Option, none, some,
  ltb, leb, ◌==◌, length,
}
use raknet_rs.Prelude.Outcome.{Outcome, ok, ◌>>=◌}
use raknet_rs.Seq
use raknet_rs.Packet.Frame.{Frame, FrameSet}
use raknet_rs.Packet.Ack.{AckOrNack, extend_from}
use raknet_rs.Packet.Body.{FrameBody}
use raknet_rs.Packet.Unconnected
use raknet_rs.Packet.Connected.{Packet, frame_set, ack, nack}

pub record TransferLink : Type 0 where
  pub incoming_ack : List (AckOrNack × ℕ)
  pub incoming_nack : List AckOrNack
  pub forward_waking : Bool
  pub outgoing_ack : List ℕ
  pub outgoing_nack : List ℕ
  pub unconnected : List Unconnected.Packet
  pub frame_body : List FrameBody

abbrev pub max_ack_buffer : ℕ
max_ack_buffer = 4096

-- `new_arc`
abbrev pub new_arc : TransferLink
new_arc = record {
  incoming_ack = [];
  incoming_nack = [];
  forward_waking = false;
  outgoing_ack = [];
  outgoing_nack = [];
  unconnected = [];
  frame_body = [];
}

abbrev pub turn_on_waking : TransferLink → TransferLink
turn_on_waking l = record l { forward_waking = true }

abbrev pub turn_off_waking : TransferLink → TransferLink
turn_off_waking l = record l { forward_waking = false }

-- `ConcurrentQueue::force_push`: a full queue drops its first element for the new one.
module _ {ℓ} {A : Type ℓ} where
  abbrev pub displace : A → List A → Option A × List A
  displace x [] = (some x, [])
  displace x (y ∷ q) = (some y, q ++ (x ∷ []))

  unfoldable pub force_push : ℕ → A → List A → Option A × List A
  force_push bound x q = if ltb (length q) bound then (none, q ++ (x ∷ [])) else displace x q

-- `incoming_ack`, at a time, and `incoming_nack`. What is dropped goes to a log.
unfoldable pub incoming_ack : AckOrNack → ℕ → TransferLink → TransferLink
incoming_ack records now l = record l {
  incoming_ack = (force_push max_ack_buffer (records, now) l.incoming_ack).1;
}

unfoldable pub incoming_nack : AckOrNack → TransferLink → TransferLink
incoming_nack records l = record l {
  incoming_nack = (force_push max_ack_buffer records l.incoming_nack).1;
}

abbrev pub send_unconnected : Unconnected.Packet → TransferLink → TransferLink
send_unconnected packet l = record l { unconnected = l.unconnected ++ (packet ∷ []) }

abbrev pub send_frame_body : FrameBody → TransferLink → TransferLink
send_frame_body body l = record l { frame_body = l.frame_body ++ (body ∷ []) }

-- `process_ack`, `process_nack`, `process_unconnected` and `process_frame_body`, whose iterators are run
-- to their end.
abbrev pub process_ack : TransferLink → List (AckOrNack × ℕ) × TransferLink
process_ack l = (l.incoming_ack, record l { incoming_ack = [] })

abbrev pub process_nack : TransferLink → List AckOrNack × TransferLink
process_nack l = (l.incoming_nack, record l { incoming_nack = [] })

abbrev pub process_frame_body : TransferLink → List FrameBody × TransferLink
process_frame_body l = (l.frame_body, record l { frame_body = [] })

-- `process_unconnected().next()`
abbrev pub pop_first {ℓ} : {A : Type ℓ} → List A → Option A × List A
pop_first [] = (none, [])
pop_first (x ∷ xs) = (some x, xs)

abbrev pub next_unconnected : TransferLink → Option Unconnected.Packet × TransferLink
next_unconnected l =
    let (packet, rest) = pop_first l.unconnected in (packet, record l { unconnected = rest })

abbrev pub is_empty {ℓ} : {A : Type ℓ} → List A → Bool
is_empty [] = true
is_empty (x ∷ xs) = false

abbrev pub outgoing_ack_empty : TransferLink → Bool
outgoing_ack_empty l = is_empty l.outgoing_ack

abbrev pub outgoing_nack_empty : TransferLink → Bool
outgoing_nack_empty l = is_empty l.outgoing_nack

abbrev pub unconnected_empty : TransferLink → Bool
unconnected_empty l = is_empty l.unconnected

abbrev pub frame_body_empty : TransferLink → Bool
frame_body_empty l = is_empty l.frame_body

pub record Route : Type 0 where
  pub router : List (FrameSet (List Frame))
  pub closed : Bool
  pub link : TransferLink
  pub seq_read : ℕ

-- `Route::new`
abbrev pub new : TransferLink → Route
new link = record { router = []; closed = false; link = link; seq_read = 0 }

-- `BinaryHeap::push`, which keeps what is equal.
pub push : ℕ → List ℕ → List ℕ
push n [] = n ∷ []
push n (x ∷ xs) = if leb n x then n ∷ x ∷ xs else x ∷ push n xs

-- `BTreeSet::insert` and `BTreeSet::remove`.
pub insert : ℕ → List ℕ → List ℕ
insert n [] = n ∷ []
insert n (x ∷ xs) = if ltb n x then n ∷ x ∷ xs else (if n == x then x ∷ xs else x ∷ insert n xs)

pub remove : ℕ → List ℕ → List ℕ
remove n [] = []
remove n (x ∷ xs) = if n == x then remove n xs else x ∷ remove n xs

-- `for n in start..end { nack.insert(n) }`, with `count` rounds to go.
unfoldable pub insert_range : ℕ → ℕ → List ℕ → List ℕ
unfolding insert
insert_range start zero xs = xs
insert_range start (suc count) xs = insert_range (start + 1) count (insert start xs)

-- The nacks that a sequence number leaves behind it, and the next expected number.
unfoldable pub note_gap : ℕ → ℕ → List ℕ → Outcome (ℕ × List ℕ)
unfolding insert_range remove
note_gap seq_num seq_read pending =
    let removed = remove seq_num pending in
    if leb seq_read seq_num
    then (do
      next ← Seq.add seq_num 1
      ok (next, insert_range seq_read (seq_num - seq_read) removed))
    else ok (seq_read, removed)

-- `deliver`, at a time. What an acknowledgement wakes is not part of the state.
unfoldable pub deliver : ℕ → Packet → Route → Outcome (Bool × Route)
deliver now p r = if r.closed then ok (false, r) else open_route p
  where
    open_route : Packet → Outcome (Bool × Route)
    open_route (frame_set s) = do
      (next, nacks) ← note_gap s.seq_num r.seq_read r.link.outgoing_nack
      ok (
        true,
        record r {
          router = r.router ++ (s ∷ []);
          link = record r.link {
            outgoing_ack = push s.seq_num r.link.outgoing_ack;
            outgoing_nack = nacks;
          };
          seq_read = next;
        },
      )
    open_route (ack a) = ok (true, record r { link = incoming_ack a now r.link })
    open_route (nack a) = ok (true, record r { link = incoming_nack a r.link })

-- `process_outgoing_ack` and `process_outgoing_nack`: what the iterator gives is taken out.
unfoldable pub process_outgoing_ack : ℕ → TransferLink → Outcome (Option AckOrNack × TransferLink)
process_outgoing_ack mtu l = do
  (packet, left) ← extend_from l.outgoing_ack mtu
  ok (packet, record l { outgoing_ack = left })

unfoldable pub process_outgoing_nack : ℕ → TransferLink → Outcome (Option AckOrNack × TransferLink)
process_outgoing_nack mtu l = do
  (packet, left) ← extend_from l.outgoing_nack mtu
  ok (packet, record l { outgoing_nack = left })
