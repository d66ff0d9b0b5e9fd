-- ===== src/Usb/Configuring.antt =====
-- targets/stm32-otgfs/usb: the data endpoints are configured for a configuration of the device.
pub mod Each
pub mod Configured
mod Tests
use lib_stm.Base.{ℕ, zero, suc, ◌+◌, ◌*◌, ◌^◌, ◌==◌, bit_or, if◌then◌else◌, Option, none, some}
use lib_stm.Usb.Registers.{Registers, is_active, deactivate, activate_in, activate_out}

-- What is read of an `EndpointDescriptor`, which the USB library declares.
pub record EndpointDescriptor : Type 0 where
  pub max_packet_size : ℕ
  pub type : ℕ

-- The registers of the endpoints by their numbers, and DAINTMSK.
pub record Peripheral : Type 0 where
  pub ins : ℕ → Registers
  pub outs : ℕ → Registers
  pub daintmsk : ℕ

unfoldable pub update : (ℕ → Registers) → ℕ → Registers → ℕ → Registers
update f i r j = if j == i then r else f j

-- `InterruptEnable` of both classes.
unfoldable pub enable_interrupt : ℕ → Peripheral → Peripheral
enable_interrupt place u = record u { daintmsk = bit_or u.daintmsk (2 ^ place) }

unfoldable pub stopped : Registers → Registers
stopped r = if is_active r then deactivate r else r

-- `DeviceInEndpoint::Configure`
unfoldable pub configure_in : ℕ → Option EndpointDescriptor → Peripheral → Peripheral
configure_in i none u = record u { ins = update u.ins i (stopped (u.ins i)) }
configure_in i (some d) u =
    enable_interrupt i (record u {
      ins = update u.ins i (activate_in d.max_packet_size d.type i (stopped (u.ins i)));
    })

-- `DeviceOutEndpoint::Configure`
unfoldable pub configure_out : ℕ → Option EndpointDescriptor → Peripheral → Peripheral
configure_out i none u = record u { outs = update u.outs i (stopped (u.outs i)) }
configure_out i (some d) u = enable_interrupt (16 + i) (record u {
  outs = update u.outs i (activate_out d.max_packet_size d.type (stopped (u.outs i)));
})

-- A loop of `ConfigureEndpoints`: `configure` is `configure_in` or `configure_out`, from endpoint `i`
-- on.
unfoldable pub configure_all :
    (ℕ → Option EndpointDescriptor → Peripheral → Peripheral)
    → (ℕ → Option EndpointDescriptor)
    → ℕ
    → ℕ
    → Peripheral
    → Peripheral
configure_all configure find zero i u = u
configure_all configure find (suc n) i u =
    configure_all configure find n (suc i) (configure i (find i) u)

-- The endpoints that a configuration asks for, by their numbers; the argument is `FindEndpoint` of the
-- configuration, by the address of an endpoint.
unfoldable pub asked_in : Option (ℕ → Option EndpointDescriptor) → ℕ → Option EndpointDescriptor
asked_in none i = none
asked_in (some find) i = find (bit_or 128 i)

unfoldable pub asked_out : Option (ℕ → Option EndpointDescriptor) → ℕ → Option EndpointDescriptor
asked_out none i = none
asked_out (some find) i = find i

-- `ConfigureEndpoints`; there are six endpoints in each direction.
unfoldable pub configure_endpoints :
    Option (ℕ → Option EndpointDescriptor) → Peripheral → Peripheral
configure_endpoints config u =
    configure_all configure_out (asked_out config) 5 1
      (configure_all configure_in (asked_in config) 5 1 u)
