-- ===== src/Gpio/Ids.antt =====
-- targets/stm32l/hw/GPIO.h: the compact identifications of pins.
use lib_stm.Base.{ℕ, ◌+◌, ◌-◌, ◌*◌, ◌%◌, ◌^◌, ◌≤◌, ◌<◌, ◌≡◌, refl, arith, tests, u32}
use native.Mathlib.Nat.{one-le-pow, mul-div_cancel, mul_comm}
use lib_stm.Base.Places.{place}
use lib_stm.Base.Table.{all_below_sound}
use lib_stm.Gpio.{ctz}
use lib_stm.Gpio.Outputs.{ctz-le}
use lib_stm.Gpio.Configure.Fields.{place-ctz, place-power, powers}
use lib_stm.Gpio.Pins.{
  PortName, a, b, c, d, e, f, g, h, pin_of, gpio_p, get_index, index, get_id, pin_id, port_pin_id,
  id_port, id_pin, id_alt,
}

pub index_of : PortName → ℕ
index_of a = 0
index_of b = 1
index_of c = 2
index_of d = 3
index_of e = 4
index_of f = 5
index_of g = 6
index_of h = 7

ctz-power : (k : ℕ) → k < 16 → ctz 32 (u32 (2 ^ k)) ≡ k
ctz-power k hk =
    let fits : u32 (2 ^ k) ≡ 2 ^ k = omega (tests, all_below_sound _ 16 k hk powers) in
    rw fits (omega (arith, ctz-le 32 (2 ^ k) k at, above))
  where
    at : place k (2 ^ k) ≡ 1
    at = ground (arith, place-power k k hk)

    above : k ≤ ctz 32 (2 ^ k)
    above = ground (
      arith,
      place-power k (ctz 32 (2 ^ k)) hk,
      place-ctz 32 (2 ^ k) (one-le-pow k 2 (omega arith))
          (omega (tests, all_below_sound _ 16 k hk powers)),
    )

get_index-gpio_p :
    (gpioa gpiob n : ℕ) → gpioa < gpiob → get_index gpioa gpiob (gpio_p gpioa gpiob n) ≡ n
unfolding get_index gpio_p
get_index-gpio_p gpioa gpiob n below =
    let d : gpioa + (gpiob - gpioa) * n - gpioa ≡ n * (gpiob - gpioa) =
      omega (arith, mul_comm n (gpiob - gpioa)) in
    rw d (mul-div_cancel n (omega arith))

port_of_id :
    (gpioa gpiob : ℕ) (n : PortName) (k : ℕ)
    → gpioa < gpiob
    → k < 16
    → get_id gpioa gpiob (pin_of gpioa gpiob n k) ≡ port_pin_id n k 0
unfolding get_id pin_of index port_pin_id
port_of_id gpioa gpiob a k lt hk = rw (get_index-gpio_p gpioa gpiob 0 lt, ctz-power k hk)
port_of_id gpioa gpiob b k lt hk = rw (get_index-gpio_p gpioa gpiob 1 lt, ctz-power k hk)
port_of_id gpioa gpiob c k lt hk = rw (get_index-gpio_p gpioa gpiob 2 lt, ctz-power k hk)
port_of_id gpioa gpiob d k lt hk = rw (get_index-gpio_p gpioa gpiob 3 lt, ctz-power k hk)
port_of_id gpioa gpiob e k lt hk = rw (get_index-gpio_p gpioa gpiob 4 lt, ctz-power k hk)
port_of_id gpioa gpiob f k lt hk = rw (get_index-gpio_p gpioa gpiob 5 lt, ctz-power k hk)
port_of_id gpioa gpiob g k lt hk = rw (get_index-gpio_p gpioa gpiob 6 lt, ctz-power k hk)
port_of_id gpioa gpiob h k lt hk = rw (get_index-gpio_p gpioa gpiob 7 lt, ctz-power k hk)

-- The fields of an identification, there and back.
fields_of_id :
    (port pin afn : ℕ)
    → port < 15
    → pin < 16
    → afn < 16
    → (id_port (pin_id port pin afn) ≡ port)
      × (id_pin (pin_id port pin afn) ≡ pin)
      × (id_alt (pin_id port pin afn) ≡ afn)
unfolding id_port id_pin id_alt pin_id
fields_of_id port pin afn hp hk ha = (omega arith, omega arith, omega arith)

id_of_fields : (id : ℕ) → 0 < id % 16 → id < 4096 → pin_id (id_port id) (id_pin id) (id_alt id) ≡ id
unfolding id_port id_pin id_alt pin_id
id_of_fields id valid small = omega arith

port_pin_id_lem : (n : PortName) (k afn : ℕ) → port_pin_id n k afn ≡ pin_id (index_of n) k afn
unfolding port_pin_id index_of
port_pin_id_lem a k afn = refl
port_pin_id_lem b k afn = refl
port_pin_id_lem c k afn = refl
port_pin_id_lem d k afn = refl
port_pin_id_lem e k afn = refl
port_pin_id_lem f k afn = refl
port_pin_id_lem g k afn = refl
port_pin_id_lem h k afn = refl

index_of-lt : (n : PortName) → index_of n < 15
unfolding index_of
index_of-lt a = omega arith
index_of-lt b = omega arith
index_of-lt c = omega arith
index_of-lt d = omega arith
index_of-lt e = omega arith
index_of-lt f = omega arith
index_of-lt g = omega arith
index_of-lt h = omega arith

-- A pin of a port, by the letter of the port and the number of the pin: the identification that
-- `GetID` computes of it is the one that is written for the same letter and number. The port, pin and
-- alternate function that the identification is made of are read back from it, and an
-- identification with a port is made again from what is read from it.
pub ids_lem :
    (gpioa gpiob : ℕ) (n : PortName) (k afn id : ℕ)
    → gpioa < gpiob
    → k < 16
    → afn < 16
    → 0 < id % 16
    → id < 4096
    → (get_id gpioa gpiob (pin_of gpioa gpiob n k) ≡ port_pin_id n k 0)
      × (id_port (port_pin_id n k afn) ≡ index_of n)
      × (id_pin (port_pin_id n k afn) ≡ k)
      × (id_alt (port_pin_id n k afn) ≡ afn)
      × (pin_id (id_port id) (id_pin id) (id_alt id) ≡ id)
ids_lem gpioa gpiob n k afn id below hk ha valid small = (
  port_of_id gpioa gpiob n k below hk,
  rw (port_pin_id_lem n k afn) fields.0,
  rw (port_pin_id_lem n k afn) fields.1,
  rw (port_pin_id_lem n k afn) fields.2,
  id_of_fields id valid small,
)
  where
    fields :
        (id_port (pin_id (index_of n) k afn) ≡ index_of n)
        × (id_pin (pin_id (index_of n) k afn) ≡ k)
        × (id_alt (pin_id (index_of n) k afn) ≡ afn)
    fields = fields_of_id (index_of n) k afn (index_of-lt n) hk ha
