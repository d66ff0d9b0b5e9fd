-- ===== src/Gpio/Configure/Alternate.antt =====
-- targets/stm32l/hw/GPIO.cpp: the alternate function of a pin, from a table.
use lib_stm.Base.{
  ℕ, ◌+◌, ◌*◌, ◌/◌, ◌%◌, ◌^◌, ◌<◌, ◌≡◌, ◌≢◌, refl, arith, ap, ◌∙◌, List, [], ◌∷◌, ◌++◌, Option,
  some, bit_or, bit_or_fields, bit_or_step, bit_or_comm, zero-bit_or,
}
use lib_stm.Gpio.Pins.{Pin, get_index, get_id, id_alt, alternate}
use lib_stm.Gpio.Outputs.{SetsAndResets}
use lib_stm.Gpio.Configure.{
  Registers, configure_entry, configure_alternate, find_alternate, found, missing, Outcome,
  configured, assertion,
}
use lib_stm.Gpio.Configure.Configured.{IsConfigured, configure-IsConfigured}

-- No entry of the list is the end mark or is for the pin.
abbrev pub AllOther : ℕ → List ℕ → Type 0
AllOther pin [] = Unit {0}
AllOther pin (id ∷ ids) = (id ≢ 0) × (id % 256 ≢ pin) × AllOther pin ids

skip :
    (pin : ℕ) (ids table : List ℕ)
    → AllOther pin ids
    → find_alternate pin (ids ++ table) ≡ find_alternate pin table
unfolding find_alternate
skip pin [] table o = refl
skip pin (id ∷ ids) table (live, other, rest) = ground (arith, skip pin ids table rest)

find-found :
    (pin id : ℕ) (ids table : List ℕ)
    → AllOther pin ids
    → id ≢ 0
    → id % 256 ≡ pin
    → find_alternate pin (ids ++ id ∷ table) ≡ found (id_alt id)
find-found pin id ids table o live this = skip pin ids (id ∷ table) o ∙ here
  where
    here : find_alternate pin (id ∷ table) ≡ found (id_alt id)
    here = unfold find_alternate in ground arith

find-missing :
    (pin : ℕ) (ids table : List ℕ)
    → AllOther pin ids
    → find_alternate pin (ids ++ 0 ∷ table) ≡ missing
find-missing pin ids table o = skip pin ids (0 ∷ table) o ∙ (unfold find_alternate in refl)

-- The mode with the bit of `Alternate` set and the number of an alternate function put in.
abbrev pub with_alternate : ℕ → ℕ → ℕ
with_alternate mode afn = mode / 4 * 4 + 2 + mode % 2 + afn * 4096

with_alternate_lem :
    (mode afn : ℕ)
    → mode < 4096
    → bit_or (bit_or mode alternate) (afn * 2 ^ 12) ≡ with_alternate mode afn
with_alternate_lem mode afn small =
    omega (arith, bit_or_fields 12 afn (bit_or mode 2) (omega (arith, low)), low)
  where
    low : bit_or mode 2 ≡ mode / 4 * 4 + 2 + mode % 2
    low = omega (
      arith,
      bit_or_step mode 2,
      bit_or_step (mode / 2) 1,
      bit_or_comm (mode / 2 / 2) 0,
      zero-bit_or (mode / 2 / 2),
    )

module _ (bsrr brr : ℕ → ℕ → ℕ) (g : SetsAndResets bsrr brr) (gpioaen gpioa gpiob : ℕ) (p : Pin)
    (mode : ℕ) (r : Registers) (narrow : p.mask < 65536) (plain : mode < 4096) where
  abbrev run : List ℕ → Option Outcome
  run table = configure_alternate bsrr brr gpioaen gpioa gpiob p table mode r

  abbrev own : ℕ
  own = get_id gpioa gpiob p % 256

  alternate-found :
      (ids : List ℕ) (id : ℕ) (table : List ℕ)
      → AllOther own ids
      → id ≢ 0
      → id % 256 ≡ own
      → (q : Registers) × (run (ids ++ id ∷ table) ≡ some (configured q))
        × IsConfigured p.mask (with_alternate mode (id_alt id)) r q
  unfolding configure_alternate configure_entry
  alternate-found ids id table o live this =
      let c =
        configure-IsConfigured bsrr brr g gpioaen (get_index gpioa gpiob p.port) p.mask
          (with_alternate mode (id_alt id)) r narrow in
      (
        c.0,
        rw (find-found own id ids table o live this, with_alternate_lem mode (id_alt id) plain, c.1)
            refl,
        c.2,
      )

  alternate-missing :
      (ids table : List ℕ) → AllOther own ids → run (ids ++ 0 ∷ table) ≡ some assertion
  unfolding configure_alternate configure_entry
  alternate-missing ids table o =
      ap (configure_entry bsrr brr gpioaen gpioa gpiob p mode r) (find-missing own ids table o)

-- `GPIOPin::ConfigureAlternate` with a table that has an entry for the pin before its end: the pins are
-- configured with the alternate function of the first such entry and the bit of `Alternate` in their
-- mode. With a table that has no entry for the pin, the assertion fails. The mode gives no alternate
-- function of its own.
pub configure_alternate_cases :
    (bsrr brr : ℕ → ℕ → ℕ)
    → SetsAndResets bsrr brr
    → (gpioaen gpioa gpiob : ℕ) (p : Pin) (mode : ℕ) (r : Registers) (ids : List ℕ) (id : ℕ)
      (table : List ℕ)
    → p.mask < 65536
    → mode < 4096
    → AllOther (get_id gpioa gpiob p % 256) ids
    → id ≢ 0
    → id % 256 ≡ get_id gpioa gpiob p % 256
    → ((q : Registers) × (configure_alternate bsrr brr gpioaen gpioa gpiob p
            (ids ++ id ∷ table)
            mode
            r
          ≡ some (configured q))
        × IsConfigured p.mask (with_alternate mode (id_alt id)) r q)
      × (configure_alternate bsrr brr gpioaen gpioa gpiob p (ids ++ 0 ∷ table) mode r
          ≡ some assertion)
configure_alternate_cases bsrr brr g gpioaen gpioa gpiob p mode r ids id table narrow plain o live
      this =
    (
      alternate-found bsrr brr g gpioaen gpioa gpiob p mode r narrow plain ids id table o live this,
      alternate-missing bsrr brr g gpioaen gpioa gpiob p mode r narrow plain ids table o,
    )
