-- ===== src/State.antt =====
-- `StateManager` of src/state.rs: the handshake that closes a connection. The sink and the stream
-- behind it are parameters, as in the sources: a type of states with the operations of `Sink`.
pub mod Close
pub mod Incoming
use raknet_rs.Prelude.{
  ℕ, zero, suc, Bool, true, false, List, [], ◌∷◌, ◌⊎◌, inl, inr, Option, none, some, if◌then◌else◌,
}
use raknet_rs.Packet.Body.{FrameBody, disconnect_notification}
use raknet_rs.Codec.Fragment.{Message}

pub data OutgoingState : Type 0 where
  connecting : OutgoingState
  first_close_wait : OutgoingState
  fin_wait : OutgoingState
  second_close_wait : OutgoingState
  finished : OutgoingState

abbrev pub before_finish : OutgoingState → Bool
before_finish connecting = true
before_finish first_close_wait = true
before_finish fin_wait = true
before_finish second_close_wait = false
before_finish finished = false

abbrev pub is_finished : OutgoingState → Bool
is_finished finished = true
is_finished s = false

-- `Poll<Result<(), io::Error>>`
pub data Poll : Type 0 where
  pending : Poll
  done : Poll
  failed : Poll

-- `Sink<FrameBody, Error = io::Error> + Sink<Message, Error = io::Error>`; `start_send` answers whether
-- it has taken the item.
pub record Sink (F : Type 0) : Type 0 where
  pub poll_ready : F → Poll × F
  pub poll_flush : F → Poll × F
  pub poll_close : F → Poll × F
  pub start_send : FrameBody → F → Bool × F
  pub send_message : Message → F → Bool × F

-- `close_on_drop` is whether the close event is still to be sent.
pub record Manager (F : Type 0) : Type 0 where
  pub frame : F
  pub state : OutgoingState
  pub close_on_drop : Bool

module _ {F : Type 0} (sink : Sink F) where
  abbrev pub manage_outgoing_state : F → Bool → Manager F
  manage_outgoing_state frame close_on_drop = record {
    frame = frame;
    state = connecting;
    close_on_drop = close_on_drop;
  }

  abbrev pub with_frame : Manager F → F → Manager F
  with_frame m frame = record m { frame = frame }

  abbrev pub forward : Manager F → Poll × F → Poll × Manager F
  forward m (answer, frame) = (answer, with_frame m frame)

  abbrev pub accepted : Manager F → Bool × F → Bool × Manager F
  accepted m (taken, frame) = (taken, with_frame m frame)

  pub poll_ready : Manager F → Poll × Manager F
  poll_ready m = if before_finish m.state then forward m (sink.poll_ready m.frame) else (failed, m)

  pub start_send : FrameBody → Manager F → Bool × Manager F
  start_send body m =
      if before_finish m.state then accepted m (sink.start_send body m.frame) else (false, m)

  -- `Sink<Message>::start_send`, which does not look at the state.
  pub send_message : Message → Manager F → Bool × Manager F
  send_message msg m = accepted m (sink.send_message msg m.frame)

  pub poll_flush : Manager F → Poll × Manager F
  poll_flush m = forward m (sink.poll_flush m.frame)

  -- `ready!(poll?)`: on to the state `next` if the poll is done, out of the loop if not.
  abbrev pub wait : Manager F → OutgoingState → Poll × F → Manager F ⊎ (Poll × Manager F)
  wait m next (done, frame) = inl (record m { frame = frame; state = next })
  wait m next (pending, frame) = inr (pending, with_frame m frame)
  wait m next (failed, frame) = inr (failed, with_frame m frame)

  -- `start_send(DisconnectNotification)?`, in a frame that is ready.
  abbrev pub notified : Manager F → Bool × F → Manager F ⊎ (Poll × Manager F)
  notified m (true, frame) = inl (record m { frame = frame; state = second_close_wait })
  notified m (false, frame) = inr (failed, with_frame m frame)

  abbrev pub notify : Manager F → Poll × F → Manager F ⊎ (Poll × Manager F)
  notify m (done, frame) = notified m (sink.start_send disconnect_notification frame)
  notify m (pending, frame) = inr (pending, with_frame m frame)
  notify m (failed, frame) = inr (failed, with_frame m frame)

  -- One round of the loop of `poll_close`, in a state.
  pub round : OutgoingState → Manager F → Manager F ⊎ (Poll × Manager F)
  round connecting m = inl (record m { state = first_close_wait })
  round first_close_wait m = wait m fin_wait (sink.poll_close m.frame)
  round fin_wait m = notify m (sink.poll_ready m.frame)
  round second_close_wait m = wait m finished (sink.poll_close m.frame)
  round finished m = inr (done, record m { close_on_drop = false })

  -- The loop; `none` if it needs more rounds.
  pub close_loop : ℕ → Manager F → Option (Poll × Manager F)
  unfolding round
  close_loop zero m = none
  close_loop (suc rounds) m = elim (round m.state m) [
    | inl m' ↦ close_loop rounds m'
    | inr answer ↦ some answer
  ]

  -- `poll_close`. Each round ends it or goes on to the next of the five states.
  pub poll_close : Manager F → Option (Poll × Manager F)
  unfolding close_loop
  poll_close m = if is_finished m.state then some (failed, m) else close_loop 5 m
