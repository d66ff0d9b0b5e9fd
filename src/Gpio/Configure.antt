-- ===== src/Gpio/Configure.antt =====
-- targets/stm32l/hw/GPIO.cpp: the configuration of the pins of a port.
pub mod Fields
pub mod Configured
pub mod Alternate
use mathlib.Core.Option
use lib_stm.Base.{
  ℕ, zero, suc, ◌+◌, ◌-◌, ◌*◌, ◌/◌, ◌%◌, ◌^◌, ◌==◌, ltb, bit_and, bit_or, not32, u32, if◌then◌else◌,
  Option, none, some, List, [], ◌∷◌,
}
use lib_stm.Base.Masks.{modmask, put_field}
use lib_stm.Gpio.{Port, ctz, set, res}
use lib_stm.Gpio.Pins.{Pin, get_index, get_id, alternate, id_alt}

-- The registers of a port, and AHB2ENR, which enables the clocks of the ports. `outputs` has the
-- output register, and `afrl` and `afrh` are AFR[0] and AFR[1].
pub record Registers : Type 0 where
  pub ahb2enr : ℕ
  pub outputs : Port
  pub otyper : ℕ
  pub ascr : ℕ
  pub moder : ℕ
  pub ospeedr : ℕ
  pub pupdr : ℕ
  pub afrl : ℕ
  pub afrh : ℕ

-- `RESBIT`
unfoldable pub resbit : ℕ → ℕ → ℕ
resbit mask bit = bit_and mask (not32 (2 ^ bit))

-- What a round of the loop sets for the pin `bit`.
unfoldable pub configure_pin : ℕ → ℕ → Registers → Registers
configure_pin mode bit r =
    let shift = bit * 2 in
    let shift_afr = bit_and bit 7 * 4 in
    record r {
      afrl = if ltb 7 bit then r.afrl else put_field 4 shift_afr (mode / 2 ^ 12) r.afrl;
      afrh = if ltb 7 bit then put_field 4 shift_afr (mode / 2 ^ 12) r.afrh else r.afrh;
      ospeedr = put_field 2 shift (mode / 2 ^ 4) r.ospeedr;
      pupdr = put_field 2 shift (mode / 2 ^ 6) r.pupdr;
      moder = put_field 2 shift (mode / 2 ^ 0) r.moder;
    }

-- The loop over the pins of the mask: none if the fuel is not enough.
unfoldable pub configure_pins : ℕ → ℕ → ℕ → Registers → Option Registers
configure_pins zero mode mask r = none
configure_pins (suc fuel) mode mask r =
    let bit = ctz 32 mask in
    let left = resbit mask bit in
    let r' = configure_pin mode bit r in
    let rest = configure_pins fuel mode left r' in if left == 0 then some r' else rest

-- `gpioaen` is the place of the clock of the first port in AHB2ENR, `RCC_AHB2ENR_GPIOAEN`; `index` is
-- that of the port.
module _ (bsrr brr : ℕ → ℕ → ℕ) (gpioaen : ℕ) where
  -- What stands before the loop.
  unfoldable pub configure_port : ℕ → ℕ → ℕ → Registers → Registers
  configure_port index mask mode r = record r {
    ahb2enr = bit_or r.ahb2enr (u32 (gpioaen * 2 ^ index));
    outputs =
        if bit_and mode 256 == 0 then res bsrr brr mask r.outputs else set bsrr brr mask r.outputs;
    otyper = modmask r.otyper mask (if bit_and mode 4 == 0 then 0 else mask);
    ascr = modmask r.ascr mask (if bit_and mode 3 == 3 then mask else 0);
  }

  unfoldable pub configure : ℕ → ℕ → ℕ → Registers → Option Registers
  configure index mask mode r =
      if mask == 0 then some r else configure_pins 16 mode mask (configure_port index mask mode r)

-- How the search in a table of alternate functions ends: with the entry, at the end of the table, or
-- behind it.
pub data Lookup : Type 0 where
  found : ℕ → Lookup
  missing : Lookup
  overrun : Lookup

-- The loop of `ConfigureAlternate`; `table` is the memory from the table on. Only the low byte of an
-- entry is compared.
unfoldable pub find_alternate : ℕ → List ℕ → Lookup
find_alternate pin [] = overrun
find_alternate pin (id ∷ table) =
    if id == 0
    then missing
    else if id % 256 == pin
    then found (id_alt id)
    else find_alternate pin table

pub data Outcome : Type 0 where
  configured : Registers → Outcome
  assertion : Outcome
  fault : Outcome

-- `GPIOPin::ConfigureAlternate`: none if the fuel is not enough.
module _ (bsrr brr : ℕ → ℕ → ℕ) (gpioaen gpioa gpiob : ℕ) where
  unfoldable pub configure_entry : Pin → ℕ → Registers → Lookup → Option Outcome
  configure_entry p mode r (found afn) = Option.map configured (
      configure bsrr brr gpioaen (get_index gpioa gpiob p.port) p.mask
        (bit_or (bit_or mode alternate) (afn * 2 ^ 12)) r)
  configure_entry p mode r missing = some assertion
  configure_entry p mode r overrun = some fault

  unfoldable pub configure_alternate : Pin → List ℕ → ℕ → Registers → Option Outcome
  configure_alternate p table mode r =
      configure_entry p mode r (find_alternate (get_id gpioa gpiob p % 256) table)
