-- ===== src/Dedup.antt =====
-- `DuplicateWindow` of src/codec/decoder/dedup.rs: which reliable frame indices have been received.
pub mod Marks
pub mod Window
pub mod Correct
pub mod Layer
use raknet_rs.Prelude.{
  ℕ, zero, suc, ◌+◌, ◌-◌, Bool, true, false, Option, none, some, List, [], ◌∷◌, if◌then◌else◌, ltb,
}
use raknet_rs.Prelude.Outcome.{Outcome, ok, stuck, ◌>>=◌}
use raknet_rs.Seq
use raknet_rs.BitQueue
use raknet_rs.BitQueue.{BitVecQueue}

pub record DuplicateWindow : Type 0 where
  pub first_unreceived : ℕ
  pub received_status : BitVecQueue

abbrev pub default : DuplicateWindow
default = record { first_unreceived = 0; received_status = BitQueue.new }

-- `== Some(true)`
abbrev pub is_true : Option Bool → Bool
is_true none = false
is_true (some b) = b

-- `for _ in 0..n { received_status.push_back(false) }`
pub push_unreceived : ℕ → BitVecQueue → BitVecQueue
push_unreceived zero q = q
push_unreceived (suc n) q = push_unreceived n (BitQueue.push_back q false)

-- `while let Some(true) = front() { pop_front(); first_unreceived += 1 }`. Each round takes a bit off
-- the queue, so one round more than it has bits is enough fuel.
pub advance : ℕ → DuplicateWindow → Outcome DuplicateWindow
advance zero w = stuck
advance (suc fuel) w =
    let more = do
      next ← Seq.add w.first_unreceived 1
      advance fuel (record {
        first_unreceived = next;
        received_status = BitQueue.pop_front w.received_status;
      })
    in if is_true (BitQueue.front w.received_status) then more else ok w

-- The window with a queue in place of its own, after the closing loop of `duplicate`.
pub settle : DuplicateWindow → BitVecQueue → Outcome (DuplicateWindow × Bool)
settle w q = do
  w' ← advance (suc (BitQueue.len q)) (record w { received_status = q })
  ok (w', false)

-- `duplicate`: the answer, with the window that it leaves.
pub duplicate : DuplicateWindow → ℕ → Outcome (DuplicateWindow × Bool)
unfolding settle
duplicate w seq_num =
    let status = w.received_status in
    if ltb seq_num w.first_unreceived then ok (w, true) else do
      gap ← Seq.sub seq_num w.first_unreceived
      if ltb gap (BitQueue.len status)
          then (if is_true (BitQueue.get status gap)
              then ok (w, true)
              else settle w (BitQueue.set status gap true))
          else settle w
              (BitQueue.push_back (push_unreceived (gap - BitQueue.len status) status) true)

-- The answers to a run of indices, in order.
pub answers : DuplicateWindow → List ℕ → Outcome (List Bool)
answers w [] = ok []
answers w (s ∷ ss) = do (w', answer) ← duplicate w s; rest ← answers w' ss; ok (answer ∷ rest)
