-- ===== src/Usb/Control.antt =====
-- targets/stm32-otgfs/usb/Device.cpp and Device.h: the stages of a control transfer.
use lib_stm.Base.{
  ℕ, ◌==◌, ltb, leb, if◌then◌else◌, Bool, true, false, not, ◌&&◌, List, [], ◌∷◌, ◌++◌, length, take,
  drop,
}
use lib_stm.Usb.Types.{
  ControlState, idle, data_rx, processing, data_tx, status_rx, status_tx, stall, Direction, dir_out,
  dir_in, SetupPacket, Action, transmit, receive, arm_setup, stall_out, stall_in, Device,
}

abbrev pub act : Action → Device → Device
act a d = record d { actions = d.actions ++ a ∷ [] }

-- `ControlState(state)`
abbrev pub enter : ControlState → Device → Device
enter s d = record d { ctrl_state = s }

unfoldable pub control_setup : Device → Device
control_setup d = enter idle (act (arm_setup 3) d)

unfoldable pub control_stall : Device → Device
control_stall d = enter stall (control_setup (act stall_in (act stall_out d)))

abbrev pub is_out : Direction → Bool
is_out dir_out = true
is_out dir_in = false

abbrev pub is_processing : ControlState → Bool
is_processing processing = true
is_processing _ = false

-- The part of `ControlSuccess` behind its two checks. `ctrl.data` has 64 bytes; data that fit are
-- copied to its start.
unfoldable pub answer : List ℕ → Device → Device
answer content d =
    if is_out d.setup.direction
    then act (transmit []) (enter status_tx (record d { has_result = true }))
    else (let cut = take d.setup.w_length content in
        let kept = if leb (length cut) 64 then cut ++ drop (length cut) d.content else d.content in
        act (transmit (take d.packet_size cut)) (
          enter data_tx
            (record d { has_result = true; content = kept; tx_remain = drop d.packet_size cut })))

unfoldable pub control_success : List ℕ → Device → Device
control_success content d =
    if d.has_result then d else if is_processing d.ctrl_state then answer content d else d

-- `HandleInControl` on a completed transfer, the bit XFRC of the status.
unfoldable pub in_complete : ControlState → Device → Device
in_complete status_tx d = control_setup d
in_complete data_tx d =
    if length d.tx_remain == 0
    then enter status_rx (act (receive 64) d)
    else act (transmit (take d.packet_size d.tx_remain))
        (record d { tx_remain = drop d.packet_size d.tx_remain })
in_complete idle d = d
in_complete data_rx d = d
in_complete processing d = d
in_complete status_rx d = d
in_complete stall d = d

unfoldable pub handle_in_control : Bool → Device → Device
handle_in_control xfrc d = if xfrc then in_complete d.ctrl_state d else d

-- `pkt` is in `ctrl.setup`: wait for its data, refuse them, or hand the request to the task.
unfoldable pub setup_received : SetupPacket → Device → Device
setup_received pkt d =
    let d' = record d { setup = pkt } in
    if is_out pkt.direction && not (pkt.w_length == 0)
    then if ltb 64 pkt.w_length then control_stall d' else enter data_rx (act (receive 64) d')
    else record d' { ctrl_state = processing; task_control = true }

-- The case `DataRx`: `received` is the packet size less the remaining length.
unfoldable pub data_received : ℕ → Device → Device
data_received received d =
    let d' =
      if received == d.setup.w_length
      then record d { ctrl_state = processing; task_control = true }
      else control_stall d in
    record d' { ctrl_state = processing; task_control = true }

unfoldable pub out_complete : ControlState → ℕ → Device → Device
out_complete data_rx received d = data_received received d
out_complete status_rx received d = control_setup d
out_complete idle received d = d
out_complete processing received d = d
out_complete data_tx received d = d
out_complete status_tx received d = d
out_complete stall received d = d

-- `HandleOutControl`: `pkt` is the packet that the branch `STUP` takes from the buffer.
unfoldable pub handle_out_control : Bool → Bool → SetupPacket → ℕ → Device → Device
handle_out_control stup xfrc pkt received d =
    if stup then setup_received pkt d else if xfrc then out_complete d.ctrl_state received d else d
