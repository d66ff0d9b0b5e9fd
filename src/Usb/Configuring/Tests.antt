-- ===== src/Usb/Configuring/Tests.antt =====
-- targets/stm32-otgfs/usb: a configuration with a bulk endpoint in each direction.
use lib_stm.Base.{ℕ, ◌≡◌, ◌==◌, refl, Option, none, some, false, if◌then◌else◌}
use lib_stm.Base.Masks.{modmask}
use lib_stm.Usb.Registers.{activate_in, activate_out, deactivate, is_active}
use lib_stm.Usb.Configuring.{
  EndpointDescriptor, Peripheral, asked_in, asked_out, configure_endpoints, configure_all,
  configure_in, configure_out, enable_interrupt, update, stopped,
}

abbrev bulk : EndpointDescriptor
bulk = record { max_packet_size = 64; type = 2 }

-- IN endpoint 1 and OUT endpoint 2.
abbrev find : ℕ → Option EndpointDescriptor
find address = if address == 129 then some bulk else if address == 2 then some bulk else none

abbrev at_reset : Peripheral
at_reset = record {
  ins = λ i. record { ctl = 0; tsiz = 0; running = false };
  outs = λ i. record { ctl = 0; tsiz = 0; running = false };
  daintmsk = 0;
}

-- Size 64, bulk, FIFO 1, DATA0, active and NAK.
configure_test : ((configure_endpoints (some find) at_reset).ins 1).ctl ≡ 407404608
unfolding configure_endpoints configure_all configure_in configure_out enable_interrupt update
    stopped activate_in activate_out asked_in asked_out deactivate is_active modmask
configure_test = refl
