-- ===== src/Usb/Interrupts.antt =====
-- targets/stm32-otgfs/usb/Device.cpp: `IRQHandler`, and one round of the task.
use lib_stm.Base.{
  ℕ, ◌==◌, leb, if◌then◌else◌, Bool, true, false, not, ◌||◌, List, ◌++◌, length, drop, Option, none,
  some,
}
use lib_stm.Usb.Types.{
  default, idle, SetupPacket, Application, packet_received, device_address, on_reset,
  reset_endpoints, allocate_fifo, enable_all, Device,
}
use lib_stm.Usb.Control.{act, enter, control_setup, handle_in_control, handle_out_control}
use lib_stm.Usb.Requests.{handle_control}

-- The interrupt flags that the handler reads, and what it finds in the endpoint 0 registers.
pub record Flags : Type 0 where
  pub usbrst : Bool
  pub wkuint : Bool
  pub usbsusp : Bool
  pub enumdne : Bool
  pub iepint : Bool
  pub oepint : Bool
  pub speed_full : Bool
  pub in_zero : Bool
  pub in_xfrc : Bool
  pub out_zero : Bool
  pub out_stup : Bool
  pub out_xfrc : Bool
  pub out_packet : SetupPacket
  pub out_received : ℕ

abbrev pub differ : Bool → Bool → Bool
differ true b = not b
differ false b = b

unfoldable pub update_suspend : Flags → Device → Device
update_suspend fl d =
    if fl.usbrst || fl.wkuint || fl.usbsusp || fl.iepint || fl.oepint
    then if differ d.suspended fl.usbsusp then record d { suspended = not d.suspended } else d
    else d

-- The branch `USBRST`.
unfoldable pub bus_reset : Device → Device
bus_reset d = control_setup (
    act allocate_fifo (
      act reset_endpoints
        (act (device_address 0) (act on_reset (enter idle (record d { state = default }))))))

-- The branch `ENUMDNE`.
unfoldable pub enumerated : Bool → Device → Device
enumerated full d = act enable_all (record d { full_speed = full; state = default })

-- What `HandleRx` pops from the receive FIFO: the status, and the bytes that stand behind it.
pub data Packet : Type 0 where
  no_packet nak rx_complete setup_complete invalid : Packet
  setup_rx : List ℕ → Packet
  rx : ℕ → List ℕ → Packet

-- `none` is the failed assertion of `Out(n)`, which has no element for endpoint 0.
unfoldable pub handle_rx : Packet → Device → Option Device
handle_rx (setup_rx bytes) d =
    some (record d { ctrl_state = idle; content = bytes ++ drop (length bytes) d.content })
handle_rx (rx epnum bytes) d =
    if length bytes == 0
    then some d
    else if epnum == 0 || leb d.out_endpoints epnum
    then none
    else some (act (packet_received epnum bytes) d)
handle_rx no_packet d = some d
handle_rx nak d = some d
handle_rx rx_complete d = some d
handle_rx setup_complete d = some d
handle_rx invalid d = some d

-- The branches behind `RXFLVL` in the order of the source; only endpoint 0 of the endpoint interrupts is followed.
unfoldable pub irq_branches : Flags → Device → Device
irq_branches fl d0 =
    let d1 = update_suspend fl d0 in
    let d2 = if fl.usbrst then bus_reset d1 else d1 in
    let d3 = if fl.enumdne then enumerated fl.speed_full d2 else d2 in
    let d4 = if fl.iepint then if fl.in_zero then handle_in_control fl.in_xfrc d3 else d3 else d3 in
    if fl.oepint
    then if fl.out_zero
      then handle_out_control fl.out_stup fl.out_xfrc fl.out_packet fl.out_received d4
      else d4
    else d4

-- The handler; the packet is there if the flag RXFLVL is set.
unfoldable pub irq_handler : Option Packet → Flags → Device → Option Device
irq_handler none fl d = some (irq_branches fl d)
irq_handler (some p) fl d = elim (handle_rx p d) [
  | none ↦ none
  | some d' ↦ some (irq_branches fl d')
]

-- One round of the loop of `Task`: the flag is taken, and the request handled.
unfoldable pub task_round : Application → Device → Device
task_round app d =
    if d.task_control then handle_control app (record d { task_control = false }) else d
