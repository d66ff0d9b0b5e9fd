-- ===== src/Gpio.antt =====
-- targets/stm32l/hw/GPIO.h: the outputs and inputs of the pins of a port.
pub mod Outputs
pub mod Pins
pub mod Configure
pub mod Ids
pub mod Name
mod Tests
use lib_stm.Base.{
  ℕ, zero, suc, ◌+◌, ◌-◌, ◌*◌, ◌/◌, ◌%◌, ◌^◌, ◌==◌, Bool, not, bit_and, bit_or, not32, u32,
  if◌then◌else◌,
}

-- A port, as far as outputs and inputs go: the value of its output register ODR, and of IDR.
pub record Port : Type 0 where
  pub odr : ℕ
  pub idr : ℕ

-- `__builtin_ctz` for a value that is not 0: the number of zeros below its lowest one.
unfoldable pub ctz : ℕ → ℕ → ℕ
ctz zero x = 0
ctz (suc fuel) x = let rest = ctz fuel (x / 2) in if bit_and x 1 == 0 then suc rest else 0

-- `bsrr` and `brr` are what the port makes of its outputs when BSRR or BRR is written; `mask` is that
-- of a `GPIOPin`.
module _ (bsrr brr : ℕ → ℕ → ℕ) where
  unfoldable pub set : ℕ → Port → Port
  set mask p = record p { odr = bsrr p.odr mask }

  unfoldable pub res : ℕ → Port → Port
  res mask p = record p { odr = brr p.odr mask }

  unfoldable pub set_to : ℕ → Bool → Port → Port
  set_to mask state p = if state then set mask p else res mask p

  unfoldable pub toggle : ℕ → Port → Port
  toggle mask p =
      let s = p.odr in
      record p { odr = bsrr s (bit_or (bit_and (not32 s) mask) (u32 (bit_and s mask * 2 ^ 16))) }

  unfoldable pub write : ℕ → ℕ → Port → Port
  write mask value p =
      let v = u32 (value * 2 ^ ctz 32 mask) in
      record p {
        odr = bsrr p.odr (bit_or (bit_and v mask) (u32 (bit_and (not32 v) mask * 2 ^ 16)));
      }

-- `Read` and `Get`
unfoldable pub read : ℕ → Port → ℕ
read mask p = bit_and p.idr mask / 2 ^ ctz 32 mask

unfoldable pub get : ℕ → Port → Bool
get mask p = not (bit_and p.idr mask == 0)
