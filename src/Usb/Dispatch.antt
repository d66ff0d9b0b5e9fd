-- ===== src/Usb/Dispatch.antt =====
-- targets/stm32-otgfs/usb/Device.cpp, `HandleIn` and `HandleOut`: which endpoints an interrupt reaches.
pub mod Reached
mod Tests
use lib_stm.Base.{
  ℕ, zero, suc, ◌+◌, ◌-◌, ◌≤◌, ◌<◌, ◌==◌, Bool, true, false, not, if◌then◌else◌, ◌≡◌, ◌≢◌, refl, ap,
  ◌∙◌, bit_and, Option, none, some, map, List, get_elem?, set, length, arith,
}
use lib_stm.Base.Places.{place}
use lib_stm.Usb.Types.{Device, SetupPacket}
use lib_stm.Usb.Control.{handle_in_control, handle_out_control}
use lib_stm.Usb.Endpoints.{InEndpoint, OutEndpoint, handle_in_interrupts, handle_out_interrupts}

unfoldable pub get_bit : ℕ → ℕ → Bool
get_bit x i = place i x == 1

-- The loop of both handlers, with `n` endpoints from `i` on left and what is done for one: the mask has
-- their bits from place `pos` on, and endpoint `i` is element `i - 1`.
module _ {A : Type 0} (pos mask : ℕ) (handle : ℕ → A → A) where
  unfoldable pub reach : ℕ → List A → List A
  reach i es = elim (get_elem? es (i - 1)) [ none ↦ es | some e ↦ set es (i - 1) (handle i e) ]

  unfoldable pub rounds : ℕ → ℕ → List A → List A
  rounds zero i es = es
  rounds (suc n) i es = rounds n (suc i) (if get_bit mask (pos + i) then reach i es else es)

-- The registers that the handlers read: DAINT with DAINTMSK, and for each endpoint DIEPINT, DOEPINT
-- and DTXFSTS. `memory` is what the endpoints send from.
pub record Pending : Type 0 where
  pub mask : ℕ
  pub in_status : ℕ → ℕ
  pub out_status : ℕ → ℕ
  pub room : ℕ → ℕ
  pub memory : ℕ → ℕ

-- The flags XFRC, EPDISD and TXFE of a status.
abbrev pub flag : ℕ → ℕ → Bool
flag status bit = not (bit_and status bit == 0)

unfoldable pub reach_in : Pending → ℕ → InEndpoint → InEndpoint
reach_in p i e =
    let status = p.in_status i in
    handle_in_interrupts (flag status 128) (flag status 1) (flag status 2) p.memory (p.room i) e

unfoldable pub reach_out : Pending → ℕ → OutEndpoint → OutEndpoint
reach_out p i e =
    let status = p.out_status i in handle_out_interrupts (flag status 1) (flag status 2) e

unfoldable pub handle_in : Pending → Device × List InEndpoint → Device × List InEndpoint
handle_in p (d, es) = (
  if get_bit p.mask 0 then handle_in_control (flag (p.in_status 0) 1) d else d,
  rounds 0 p.mask (reach_in p) (length es) 1 es,
)

-- For endpoint 0, STUP and XFRC, the SETUP packet, and the number of bytes received.
unfoldable pub handle_out :
    Pending → SetupPacket → ℕ → Device × List OutEndpoint → Device × List OutEndpoint
handle_out p packet received (d, es) = (
  if get_bit p.mask 16
      then handle_out_control (flag (p.out_status 0) 8) (flag (p.out_status 0) 1) packet received d
      else d,
  rounds 16 p.mask (reach_out p) (length es) 1 es,
)
