-- ===== src/Gpio/Tests.antt =====
-- targets/stm32l/hw/GPIO.h: three pins of a port.
use lib_stm.Base.{
  ◌≤◌, some, List, [], ◌∷◌, length, ℕ, ◌+◌, ◌-◌, ◌*◌, ◌/◌, ap, ◌∙◌, ◌^◌, ◌<◌, ◌==◌, ◌≡◌, refl,
  if◌then◌else◌, zero, suc, arith,
}
use lib_stm.Base.Places.{place, place-lt}
use lib_stm.Gpio.{Port, ctz, set, res, toggle, write}
use lib_stm.Gpio.Outputs.{SetsAndResets, IsOutput, outputs_lem}
use mathlib.Core.Option
use lib_stm.Base.Masks.{modmask, put_field}
use lib_stm.Gpio.Pins.{Pin, clz, index, size, get_index, get_id, pin_id, id_alt}
use lib_stm.Gpio.Name.{name, numbers, digits}
use lib_stm.Gpio.Name.Reading.{read_name, name_lem}
use lib_stm.Gpio.Configure.{
  Registers, resbit, configure_pin, configure_pins, configure_port, configure, configure_alternate,
  configured, assertion,
}
use lib_stm.Gpio.Configure.Configured.{IsConfigured, configure-IsConfigured}
use lib_stm.Gpio.Configure.Alternate.{with_alternate, configure_alternate_cases}

abbrev port : Port
port = record { odr = 21; idr = 0 }

ctz_28 : ctz 32 28 ≡ 2
unfolding ctz
ctz_28 = refl

-- The number with the digits `f`, `n` of them from place `i` on.
unfoldable digits_from : (ℕ → ℕ) → ℕ → ℕ → ℕ
digits_from f i zero = 0
digits_from f i (suc n) = f i + 2 * digits_from f (suc i) n

place-digits_from :
    (f : ℕ → ℕ)
    → ((i : ℕ) → f i < 2)
    → (n j i : ℕ) → j < n
    → place j (digits_from f i n) ≡ f (i + j)
unfolding digits_from
place-digits_from f small zero j i h = absurd (omega arith)
place-digits_from f small (suc n) zero i h =
    let same : i + 0 ≡ i = omega arith in rw same (omega (arith, small i))
place-digits_from f small (suc n) (suc j) i h =
    let half : (f i + 2 * digits_from f (suc i) n) / 2 ≡ digits_from f (suc i) n =
      omega (arith, small i) in
    let up : i + suc j ≡ suc i + j = omega arith in
    rw up (ap (place j) half ∙ place-digits_from f small n j (suc i) (omega arith))

abbrev after_bsrr : ℕ → ℕ → ℕ → ℕ
after_bsrr odr v i = if place i v == 1 then 1 else if place (16 + i) v == 1 then 0 else place i odr

abbrev after_brr : ℕ → ℕ → ℕ → ℕ
after_brr odr v i = if place i v == 1 then 0 else place i odr

after_bsrr-lt : (odr v i : ℕ) → after_bsrr odr v i < 2
after_bsrr-lt odr v i = ground (arith, place-lt i odr)

after_brr-lt : (odr v i : ℕ) → after_brr odr v i < 2
after_brr-lt odr v i = ground (arith, place-lt i odr)

abbrev bsrr : ℕ → ℕ → ℕ
bsrr odr v = digits_from (after_bsrr odr v) 0 16

abbrev brr : ℕ → ℕ → ℕ
brr odr v = digits_from (after_brr odr v) 0 16

bsrr-SetsAndResets : SetsAndResets bsrr brr
bsrr-SetsAndResets = record {
  sets = λ i odr v h.
      let same : 0 + i ≡ i = omega arith in
      rw same at (place-digits_from (after_bsrr odr v) (after_bsrr-lt odr v) 16 i 0 h);
  resets = λ i odr v h.
      let same : 0 + i ≡ i = omega arith in
      rw same at (place-digits_from (after_brr odr v) (after_brr-lt odr v) 16 i 0 h);
}

-- Pins 2 to 4 of a port.
outputs_lem_example :
    IsOutput 28 (λ i. 1) port (set bsrr brr 28 port)
    × IsOutput 28 (λ i. 0) port (res bsrr brr 28 port)
    × IsOutput 28 (λ i. 1 - place i port.odr) port (toggle bsrr brr 28 port)
    × IsOutput 28 (λ i. place (i - ctz 32 28) 6) port (write bsrr brr 28 6 port)
outputs_lem_example =
    outputs_lem bsrr brr bsrr-SetsAndResets 28 6 port (omega arith) (omega arith) two_up
  where
    two_up : 6 * 2 ^ ctz 32 28 < 4294967296
    two_up = rw ctz_28 (omega arith)

toggle_test : (toggle bsrr brr 28 port).odr ≡ 9
unfolding toggle digits_from
toggle_test = refl

abbrev registers : Registers
registers = record {
  ahb2enr = 0;
  outputs = port;
  otyper = 0;
  ascr = 8;
  moder = 4294967295;
  ospeedr = 0;
  pupdr = 0;
  afrl = 0;
  afrh = 0;
}

-- Pins 2 to 4: fast alternate function 7 with a pull-up, high at first.
abbrev fast : ℕ
fast = 29042

configure-IsConfigured_example :
    (q : Registers) × (configure bsrr brr 1 0 28 fast registers ≡ some q)
    × IsConfigured 28 fast registers q
configure-IsConfigured_example =
    configure-IsConfigured bsrr brr bsrr-SetsAndResets 1 0 28 fast registers (omega arith)

abbrev modes : Registers → ℕ × ℕ × ℕ
modes q = (q.moder, q.ospeedr, q.afrl)

configure_test :
    Option.map modes (configure bsrr brr 1 0 28 fast registers) ≡ some (4294966959, 1008, 489216)
unfolding configure configure_port configure_pins configure_pin resbit put_field modmask ctz set res
    digits_from
configure_test = refl

-- The chip's addresses of its first two ports.
abbrev gpioa : ℕ
gpioa = 1207959552

abbrev gpiob : ℕ
gpiob = 1207960576

abbrev pb6 : Pin
pb6 = record { port = gpiob; mask = 64 }

abbrev pb7_only : List ℕ
pb7_only = 1138 ∷ []

own_id : get_id gpioa gpiob pb6 ≡ 98
unfolding get_id get_index index ctz pin_id
own_id = refl

configure_alternate_cases_example :
    ((q : Registers) × (configure_alternate bsrr brr 1 gpioa gpiob pb6
          (1138 ∷ 1122 ∷ 0 ∷ [])
          2
          registers
        ≡ some (configured q))
      × IsConfigured pb6.mask (with_alternate 2 (id_alt 1122)) registers q)
    × (configure_alternate bsrr brr 1 gpioa gpiob pb6 (1138 ∷ 0 ∷ 0 ∷ []) 2 registers
        ≡ some assertion)
configure_alternate_cases_example =
    configure_alternate_cases bsrr brr bsrr-SetsAndResets 1 gpioa gpiob pb6 2 registers pb7_only
      1122 (0 ∷ []) (omega arith) (omega arith) (omega (arith, own_id)) (omega arith)
      (omega (arith, own_id))

abbrev pa8_to_11 : Pin
pa8_to_11 = record { port = gpioa; mask = 3840 }

name_test : name gpioa gpiob pa8_to_11 ≡ some (65 ∷ 56 ∷ 58 ∷ 49 ∷ 49 ∷ 0 ∷ [])
unfolding name numbers digits index size ctz clz get_index
name_test = refl

name_lem_example :
    (bs : List ℕ) × (lo : ℕ) × (hi : ℕ) × (name gpioa gpiob pa8_to_11 ≡ some bs)
    × (length bs ≤ 7)
    × (read_name bs ≡ some (get_index gpioa gpiob pa8_to_11.port, lo, hi))
    × (place lo pa8_to_11.mask ≡ 1)
    × (place hi pa8_to_11.mask ≡ 1)
    × ((i : ℕ) → place i pa8_to_11.mask ≡ 1 → (lo ≤ i) × (i ≤ hi))
name_lem_example = name_lem gpioa gpiob pa8_to_11 (omega arith) (omega arith)
