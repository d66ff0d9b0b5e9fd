-- ===== src/Usb/Faults.antt =====
-- targets/stm32-otgfs/usb/Device.cpp: two requests that the device does not handle as it means to.
use lib_stm.Base.{ℕ, ◌==◌, ==_iff, ◌≡◌, ◌≢◌, Bool-cases, inl, inr, true, false, List, [], ◌∷◌, ◌++◌}
use mathlib.Core.List.{append_assoc}
use lib_stm.Usb.Types.{
  data_rx, processing, status_tx, dir_out, other_type, SetupPacket, Application, stall_out,
  stall_in, arm_setup, transmit, Device,
}
use lib_stm.Usb.Control.{
  handle_out_control, out_complete, data_received, control_stall, control_setup, answer,
  control_success,
}
use lib_stm.Usb.Requests.{handle_control, dispatch, answers}
use lib_stm.Usb.Interrupts.{task_round}

-- The device after a data stage of the wrong length: refused, and handed to the task.
wrong_length :
    (pkt : SetupPacket) (received : ℕ) (d : Device)
    → d.ctrl_state ≡ data_rx
    → received ≢ d.setup.w_length
    → handle_out_control false true pkt received d ≡ record d {
      ctrl_state = processing;
      task_control = true;
      actions = ((d.actions ++ stall_out ∷ []) ++ stall_in ∷ []) ++ arm_setup 3 ∷ [];
    }
unfolding handle_out_control out_complete data_received control_stall control_setup
wrong_length pkt received d c h = elim (Bool-cases (received == d.setup.w_length)) [
  | inl same ↦ absurd (h ((==_iff received d.setup.w_length).0 same))
  | inr other ↦ simp (c, other)
]

-- The data stage of a request with data out has the wrong length. The device stalls both directions,
-- and then hands the request to the application all the same: if the application accepts it, the
-- device sends the acknowledgement and is in the status stage, as if the data had been right.
pub task_round-wrong_length :
    (app : Application) (pkt : SetupPacket) (received : ℕ) (d : Device) (a : List ℕ)
    → d.ctrl_state ≡ data_rx
    → d.setup.direction ≡ dir_out
    → d.setup.type ≡ other_type
    → received ≢ d.setup.w_length
    → ((s : SetupPacket) (content : List ℕ) → app.handle_control s content ≡ a ∷ [])
    → let e = task_round app (handle_out_control false true pkt received d) in
      (e.ctrl_state ≡ status_tx)
      × (e.actions ≡ d.actions ++ stall_out ∷ stall_in ∷ arm_setup 3 ∷ transmit [] ∷ [])
unfolding task_round handle_control dispatch answers control_success answer
task_round-wrong_length app pkt received d a c o t h k =
    rw (wrong_length pkt received d c h) (simp (t, k, o), simp (t, k, o, append_assoc))
