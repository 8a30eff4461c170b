-- ===== src/Examples/Layers.antt =====
-- The layers of a connection on concrete packets: duplicates, order, gaps, and the close handshake.
use raknet_rs.Prelude.{
  ℕ, ◌+◌, ◌≡◌, ◌≢◌, refl, true, false, List, [], ◌∷◌, ◌++◌, inl, none, some, arith,
}
use raknet_rs.Prelude.Outcome.{ok}
use raknet_rs.Packet.Reliability.{reliable_ordered}
use raknet_rs.Packet.Frame.{Frame, FrameSet, new_flags}
use raknet_rs.Packet.Body.{
  FrameBody, connected_ping, connected_pong, connection_request, connection_request_accepted,
  new_incoming_connection, disconnect_notification, detect_lost_connections, user,
}
use raknet_rs.Dedup
use raknet_rs.Dedup.{DuplicateWindow}
use raknet_rs.Dedup.Correct.{contains, default-Tracks}
use raknet_rs.Dedup.Layer.{retain, fresh, history, retain-fresh}
use raknet_rs.Order
use raknet_rs.Order.{Ordering, Input}
use raknet_rs.Order.Emission.{reads, AllKept, InOrder, poll_next-InOrder}
use raknet_rs.State.{done, Sink, manage_outgoing_state, poll_close}
use raknet_rs.State.Close.{
  Counts, Once, Answered, Call, send, ready, close, calls, poll_close-Answered, calls-Once,
}
use raknet_rs.State.Incoming
use raknet_rs.State.Incoming.{Next, waiting, body, polls, EndOnce, polls-EndOnce}
use raknet_rs.Link
use raknet_rs.Link.{Route}
use raknet_rs.Link.Gaps
use raknet_rs.Link.Gaps.{deliveries, delivered, frame_sets, deliveries-Tracks}

abbrev frame : ℕ → ℕ → Frame
frame reliable_index order_index = record {
  flags = new_flags reliable_ordered false;
  reliable_frame_index = some reliable_index;
  seq_frame_index = none;
  ordered = some (record { frame_index = order_index; channel = 0 });
  fragment = none;
  body = 1 ∷ [];
}

abbrev frames : List Frame
frames = frame 1 1 ∷ frame 0 0 ∷ frame 1 1 ∷ []

retain-fresh_example :
    (w : DuplicateWindow) × (retain Dedup.default frames ≡ ok (w, fresh [] frames))
    × Dedup.Window.Tracks w (contains (history [] frames))
retain-fresh_example =
    retain-fresh Dedup.default [] frames default-Tracks
      (omega arith, (omega arith, (omega arith, tt)))

-- One channel that has handed on nothing, and two frames, the later first.
abbrev one_channel : List Ordering
one_channel = record { frames = λ k. none; read = 0 } ∷ []

abbrev swapped : Input
swapped =
    inl (record { seq_num = 0; set = frame 1 1 })
    ∷ inl (record { seq_num = 1; set = frame 0 0 })
    ∷ []

one_channel-AllKept : AllKept 0 one_channel
one_channel-AllKept = (λ k s e. cc, tt)

poll_next-InOrder_example : InOrder (reads one_channel) (Order.poll_next one_channel swapped)
poll_next-InOrder_example = poll_next-InOrder one_channel swapped one_channel-AllKept

abbrev route : Route
route = Link.new Link.new_arc

abbrev arrivals : List (FrameSet (List Frame) × ℕ)
arrivals =
    (record { seq_num = 0; set = frames }, 10)
    ∷ (record { seq_num = 3; set = frames }, 20)
    ∷ (record { seq_num = 1; set = frames }, 30)
    ∷ []

route-Tracks : Gaps.Tracks route (contains [])
route-Tracks = record { gaps = λ n. ground arith; below = λ n e. cc }

deliveries-Tracks_example :
    (r : Route) × (deliveries arrivals route ≡ ok r)
    × (r.router ≡ [] ++ frame_sets arrivals)
    × Gaps.Tracks r (contains (delivered [] arrivals))
deliveries-Tracks_example =
    deliveries-Tracks arrivals [] route refl route-Tracks
      (omega arith, (omega arith, (omega arith, tt)))

-- A sink that is always ready, and counts the notifications that it is given.
abbrev notifications : FrameBody → ℕ
notifications disconnect_notification = 1
notifications b = 0

abbrev counting : Sink ℕ
counting = record {
  poll_ready = λ n. (done, n);
  poll_flush = λ n. (done, n);
  poll_close = λ n. (done, n);
  start_send = λ b n. (true, n + notifications b);
  send_message = λ msg n. (true, n);
}

no_notification : (b : FrameBody) → b ≢ disconnect_notification → notifications b ≡ 0
no_notification disconnect_notification ne = absurd (ne refl)
no_notification (connected_ping t) ne = refl
no_notification (connected_pong t u) ne = refl
no_notification (connection_request g t e) ne = refl
no_notification (connection_request_accepted a i s t u) ne = refl
no_notification (new_incoming_connection a s t u) ne = refl
no_notification detect_lost_connections ne = refl
no_notification (user content) ne = refl

counting-Counts : Counts counting (λ n. n)
counting-Counts = record {
  ready = λ f. refl;
  flush = λ f. refl;
  close = λ f. refl;
  notification = λ f. refl;
  other = λ b f ne. omega (arith, no_notification b ne);
  message = λ msg f. refl;
}

poll_close-Answered_example :
    Answered counting
      (λ n. n)
      counting-Counts
      (poll_close counting (manage_outgoing_state counting 0 true))
poll_close-Answered_example =
    poll_close-Answered counting (λ n. n) counting-Counts (manage_outgoing_state counting 0 true)
      refl

user-ne : user (1 ∷ []) ≢ disconnect_notification
user-ne e = cc

abbrev three_calls : List (Call counting (λ n. n) counting-Counts)
three_calls = ready ∷ send (user (1 ∷ [])) ∷ close ∷ []

calls-Once_example :
    Once counting
      (λ n. n)
      counting-Counts
      (calls counting (λ n. n) counting-Counts three_calls (manage_outgoing_state counting 0 true))
calls-Once_example =
    calls-Once counting (λ n. n) counting-Counts three_calls 0 true (tt, (user-ne, (tt, tt))) refl

abbrev heard : List Next
heard = waiting ∷ body (user (1 ∷ [])) ∷ body disconnect_notification ∷ body (user (2 ∷ [])) ∷ []

polls-EndOnce_example : EndOnce (polls 5 Incoming.connecting heard)
polls-EndOnce_example = polls-EndOnce 5 heard
