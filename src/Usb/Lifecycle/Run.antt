-- ===== src/Usb/Lifecycle/Run.antt =====
-- targets/stm32-otgfs/usb/Device.cpp: interrupts and rounds of the task in any order.
use lib_stm.Base.{
  length, leb, ℕ, ◌==◌, ◌≡◌, refl, sym, ◌∙◌, Bool-cases, inl, inr, Bool, List, [], ◌∷◌, Option,
  none, some, arith, ◌||◌,
}
use lib_stm.Usb.Types.{
  default, ControlState, idle, data_rx, processing, data_tx, status_rx, status_tx, stall,
  SetupPacket, Application, Device,
}
use lib_stm.Usb.Control.{
  control_stall, control_setup, in_complete, handle_in_control, setup_received, data_received,
  out_complete, handle_out_control,
}
use lib_stm.Usb.Interrupts.{
  Flags, update_suspend, bus_reset, enumerated, irq_branches, task_round, Packet, no_packet, nak,
  rx_complete, setup_complete, invalid, setup_rx, rx, handle_rx, irq_handler,
}
use lib_stm.Usb.Lifecycle.{Sound, if-Sound, kept, task_round-Sound}

in_complete-Sound :
    (app : Application) (c : ControlState) (d : Device) → Sound app d → Sound app (in_complete c d)
unfolding in_complete control_setup
in_complete-Sound app status_tx d h = kept app d _ refl refl h
in_complete-Sound app data_tx d h = search (if-Sound, kept app d)
in_complete-Sound app idle d h = h
in_complete-Sound app data_rx d h = h
in_complete-Sound app processing d h = h
in_complete-Sound app status_rx d h = h
in_complete-Sound app stall d h = h

out_complete-Sound :
    (app : Application) (c : ControlState) (received : ℕ) (d : Device)
    → Sound app d
    → Sound app (out_complete c received d)
unfolding out_complete data_received control_stall control_setup
out_complete-Sound app data_rx received d h =
    let k =
      if-Sound (received == d.setup.w_length) (kept app d _ refl refl h)
        (kept app d _ refl refl h) in
    kept app _ _ refl refl k
out_complete-Sound app status_rx received d h = kept app d _ refl refl h
out_complete-Sound app idle received d h = h
out_complete-Sound app processing received d h = h
out_complete-Sound app data_tx received d h = h
out_complete-Sound app status_tx received d h = h
out_complete-Sound app stall received d h = h

setup_received-Sound :
    (app : Application) (pkt : SetupPacket) (d : Device)
    → Sound app d
    → Sound app (setup_received pkt d)
unfolding setup_received control_stall control_setup
setup_received-Sound app pkt d h = search (if-Sound, kept app d)

in_control-Sound :
    (app : Application) (xfrc : Bool) (d : Device)
    → Sound app d
    → Sound app (handle_in_control xfrc d)
unfolding handle_in_control
in_control-Sound app xfrc d h = if-Sound xfrc (in_complete-Sound app d.ctrl_state d h) h

out_control-Sound :
    (app : Application) (stup xfrc : Bool) (pkt : SetupPacket) (received : ℕ) (d : Device)
    → Sound app d
    → Sound app (handle_out_control stup xfrc pkt received d)
unfolding handle_out_control
out_control-Sound app stup xfrc pkt received d h =
    if-Sound stup (setup_received-Sound app pkt d h)
      (if-Sound xfrc (out_complete-Sound app d.ctrl_state received d h) h)

-- Back in the state Default, a device need not have a configuration.
reset-Sound :
    (app : Application) (d d' : Device)
    → d'.state ≡ default
    → d'.config ≡ d.config
    → Sound app d
    → Sound app d'
reset-Sound app d d' a b h = record {
  chosen = λ e. ground (arith, a, e);
  known = λ c e. h.known c (sym b ∙ e);
}

suspend-Sound :
    (app : Application) (fl : Flags) (d : Device) → Sound app d → Sound app (update_suspend fl d)
unfolding update_suspend
suspend-Sound app fl d h = search (if-Sound, kept app d)

bus_reset-Sound : (app : Application) (d : Device) → Sound app d → Sound app (bus_reset d)
unfolding bus_reset control_setup
bus_reset-Sound app d h = reset-Sound app d _ refl refl h

enumerated-Sound :
    (app : Application) (full : Bool) (d : Device) → Sound app d → Sound app (enumerated full d)
unfolding enumerated
enumerated-Sound app full d h = reset-Sound app d _ refl refl h

irq_branches-Sound :
    (app : Application) (fl : Flags) (d : Device) → Sound app d → Sound app (irq_branches fl d)
unfolding irq_branches
irq_branches-Sound app fl d h =
    let h1 = suspend-Sound app fl d h in
    let h2 = if-Sound fl.usbrst (bus_reset-Sound app _ h1) h1 in
    let h3 = if-Sound fl.enumdne (enumerated-Sound app fl.speed_full _ h2) h2 in
    let h4 =
      if-Sound fl.iepint (if-Sound fl.in_zero (in_control-Sound app fl.in_xfrc _ h3) h3) h3 in
    if-Sound fl.oepint
      (if-Sound fl.out_zero
        (out_control-Sound app fl.out_stup fl.out_xfrc fl.out_packet fl.out_received _ h4) h4)
      h4

-- Of a run that is cut off by a failed assertion nothing is said.
abbrev pub SoundIf : Application → Option Device → Type 0
SoundIf app none = Unit
SoundIf app (some d) = Sound app d

rx-SoundIf :
    (app : Application) (p : Packet) (d : Device) → Sound app d → SoundIf app (handle_rx p d)
unfolding handle_rx
rx-SoundIf app (setup_rx bytes) d h = kept app d _ refl refl h
rx-SoundIf app (rx epnum bytes) d h = elim (Bool-cases (length bytes == 0)) [
  | inl empty ↦ rw empty h
  | inr some_bytes ↦ rw some_bytes (elim (Bool-cases (epnum == 0 || leb d.out_endpoints epnum)) [
    | inl out_of_range ↦ rw out_of_range tt
    | inr in_range ↦ rw in_range (kept app d _ refl refl h)
  ])
]
rx-SoundIf app no_packet d h = h
rx-SoundIf app nak d h = h
rx-SoundIf app rx_complete d h = h
rx-SoundIf app setup_complete d h = h
rx-SoundIf app invalid d h = h

-- What happens to the device: an interrupt with its packet and flags, or a round of the task.
pub data Event : Type 0 where
  interrupt : Option Packet → Flags → Event
  round : Event

unfoldable pub step : Application → Event → Device → Option Device
step app (interrupt p fl) d = irq_handler p fl d
step app round d = some (task_round app d)

unfoldable pub run : Application → List Event → Option Device → Option Device
run app evs none = none
run app [] (some d) = some d
run app (ev ∷ evs) (some d) = run app evs (step app ev d)

irq-SoundIf :
    (app : Application) (p : Option Packet) (fl : Flags) (d : Device)
    → Sound app d
    → SoundIf app (irq_handler p fl d)
unfolding irq_handler
irq-SoundIf app none fl d h = irq_branches-Sound app fl d h
irq-SoundIf app (some p) fl d h = behind (handle_rx p d) (rx-SoundIf app p d h)
  where
    behind :
        (o : Option Device)
        → SoundIf app o
        → SoundIf app (elim o [ none ↦ none | some d' ↦ some (irq_branches fl d') ])
    behind none k = tt
    behind (some d') k = irq_branches-Sound app fl d' k

step-SoundIf :
    (app : Application) (ev : Event) (d : Device) → Sound app d → SoundIf app (step app ev d)
unfolding step
step-SoundIf app (interrupt p fl) d h = irq-SoundIf app p fl d h
step-SoundIf app round d h = task_round-Sound app d h

-- In any order of interrupts and rounds of the task, whatever the packets, the flags and the requests,
-- a device in the state Configured has a configuration, and a device that has one has one of those
-- that the application gave, as long as no assertion of the interrupt handler has failed.
pub run-SoundIf :
    (app : Application) (evs : List Event) (o : Option Device)
    → SoundIf app o
    → SoundIf app (run app evs o)
unfolding run
run-SoundIf app evs none h = tt
run-SoundIf app [] (some d) h = h
run-SoundIf app (ev ∷ evs) (some d) h =
    run-SoundIf app evs (step app ev d) (step-SoundIf app ev d h)
