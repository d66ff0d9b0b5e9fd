-- ===== src/Baud/Nearest.antt =====
-- targets/stm32l/hw/USART.cpp: the divider of a baud rate is the nearest one.
use lib_stm.Base.{
  ℕ, zero, suc, ◌+◌, ◌-◌, ◌*◌, ◌/◌, ◌%◌, ◌^◌, ◌≤◌, ◌<◌, ◌==◌, ◌||◌, Bool, ltb, ◌≡◌, ◌≢◌, ◌⊎◌, inl,
  inr, refl, ap, ◌∙◌, true, Bool-cases, bit_and, bit_and-shifted, bit_and-ones, bit_or, bit_or_comm,
  bit_or_fields, not32, u32, arith, tests,
}
use native.Mathlib.Nat.{div-mul-le_self, div-le_self, lt-mul-div-succ, mul_comm, suc-mul}
use lib_stm.Base.Places.{place, place-lt, place-small}
use lib_stm.Base.Table.{all_below, all_below_sound}
use lib_stm.Base.Masks.{modmask, place-modmask}
use lib_stm.Baud.{Baud, diff, clkdiv, clkdiv8, over8, baud_rate}

-- `d` is the number nearest to `n / rate`.
abbrev pub IsNearest : ℕ → ℕ → ℕ → Type 0
IsNearest n rate d = (d * rate ≤ n + rate / 2) × (n + rate / 2 < d * rate + rate)

nearest : (n rate : ℕ) → 0 < rate → IsNearest n rate ((n + rate / 2) / rate)
nearest n rate h = (
  div-mul-le_self (n + rate / 2) rate,
  omega (
    arith,
    lt-mul-div-succ (n + rate / 2) h,
    mul_comm rate ((n + rate / 2) / rate + 1),
    suc-mul ((n + rate / 2) / rate) rate,
  ),
)

-- With oversampling by 8 the low four bits of the divider stand in the low three of BRR, without the
-- lowest one.
abbrev pub divider8 : ℕ → ℕ
divider8 brr = brr / 16 * 16 + brr % 8 * 2

divider8_lem :
    (x : ℕ)
    → x < 4294967296
    → divider8 (bit_or (bit_and x (not32 15)) (bit_and x 15 / 2)) ≡ x - x % 2
divider8_lem x h = omega (arith, low, high, joined)
  where
    low : bit_and x 15 ≡ x % 16
    low = bit_and-ones 4 x

    split : x / 16 * 2 ^ 4 + x % 16 ≡ x
    split = omega arith

    high : bit_and x (not32 15) ≡ x / 16 * 16
    high = omega (
      arith,
      bit_and-shifted 4 (x / 16) (x % 16) 268435455 (omega arith),
      bit_and-ones 28 (x / 16),
      ap (λ (t : ℕ). bit_and t 4294967280) split,
    )

    joined : bit_or (bit_and x (not32 15)) (bit_and x 15 / 2) ≡ x % 16 / 2 + x / 16 * 2 ^ 4
    joined =
        rw (high, low)
          (bit_or_comm (x / 16 * 16) (x % 16 / 2)
            ∙ bit_or_fields 4 (x / 16) (x % 16 / 2) (omega arith))

bit_15 : all_below (λ p. (p == 15) || (place p 32768 == 0)) 32 ≡ true
unfolding all_below
bit_15 = refl

elsewhere : (p : ℕ) → p < 32 → p ≢ 15 → place p 32768 ≡ 0
elsewhere p h other =
    ground (arith, all_below_sound (λ p. (p == 15) || (place p 32768 == 0)) 32 p h bit_15)

-- Only the bit OVER8 of CR1 changes.
abbrev pub IsOver8 : ℕ → ℕ → ℕ → Type 0
IsOver8 bit cr1 cr1' =
    (place 15 cr1' ≡ bit) × ((p : ℕ) → p < 32 → p ≢ 15 → place p cr1' ≡ place p cr1)

set-IsOver8 : (cr1 : ℕ) → IsOver8 1 cr1 (modmask cr1 32768 32768)
set-IsOver8 cr1 = (
  at 15 (omega arith) refl,
  λ p h other.
      omega (
        arith,
        place-modmask p cr1 32768 32768 h (omega arith),
        elsewhere p h other,
        place-lt p cr1,
      ),
)
  where
    at : (p : ℕ) → p < 32 → place p 32768 ≡ 1 → place p (modmask cr1 32768 32768) ≡ 1
    at p h one = omega (arith, place-modmask p cr1 32768 32768 h (omega arith), one, place-lt p cr1)

clear-IsOver8 : (cr1 : ℕ) → IsOver8 0 cr1 (modmask cr1 32768 0)
clear-IsOver8 cr1 = (
  at 15 (omega arith) refl,
  λ p h other. omega (
    arith,
    place-modmask p cr1 32768 0 h (omega arith),
    elsewhere p h other,
    place-lt p cr1,
    place-small 0 p 0 (omega arith) (omega arith),
  ),
)
  where
    at : (p : ℕ) → p < 32 → place p 32768 ≡ 1 → place p (modmask cr1 32768 0) ≡ 0
    at p h one = omega (
      arith,
      place-modmask p cr1 32768 0 h (omega arith),
      one,
      place-small 0 p 0 (omega arith) (omega arith),
    )

-- The registers and the returned rate after a rate was set: with oversampling by 16 the divider is the
-- nearest one, with oversampling by 8 it is the nearest one of the double clock, without its
-- lowest bit; the rate is that of the whole divider, and with oversampling by 16 no farther from what
-- was asked for than with the other one, with oversampling by 8 nearer.
abbrev pub IsChosen : ℕ → ℕ → ℕ → ℕ → ℕ → Baud → Type 0
IsChosen pclk rate cr1 d d8 b =
    (IsOver8 0 cr1 b.cr1
      × (b.brr ≡ d)
      × (b.final ≡ pclk / d)
      × (diff b.final rate ≤ diff (pclk * 2 / d8) rate))
    ⊎ (IsOver8 1 cr1 b.cr1
        × (divider8 b.brr ≡ d8 - d8 % 2)
        × (b.final ≡ pclk * 2 / d8)
        × (diff b.final rate < diff (pclk / d) rate))

-- `BaudRate`, for a rate from 1 to the clock, and a clock below 2 ^ 30. There are dividers `d` of the
-- clock and `d8` of its double, which are the nearest to what the rate asks for and not 0, and what is
-- set is one of them, `d` with OVER8 clear or `d8` with OVER8 set: `d8` if its rate is nearer to what was
-- asked for. But then BRR holds `d8` without its lowest bit, while the rate that is returned is that of
-- `d8`. No other bit of CR1 changes.
pub baud_rate-IsChosen :
    (pclk rate cr1 : ℕ)
    → 0 < rate
    → rate ≤ pclk
    → pclk < 1073741824
    → (d : ℕ) × (d8 : ℕ) × IsNearest pclk rate d
      × IsNearest (pclk * 2) rate d8
      × (0 < d)
      × (0 < d8)
      × IsChosen pclk rate cr1 d d8 (baud_rate pclk rate cr1)
unfolding baud_rate clkdiv clkdiv8 over8
baud_rate-IsChosen pclk rate cr1 pos most slow = (
  (pclk + rate / 2) / rate,
  (pclk * 2 + rate / 2) / rate,
  near,
  near8,
  not_zero pclk ((pclk + rate / 2) / rate) most near,
  not_zero (pclk * 2) ((pclk * 2 + rate / 2) / rate) (omega arith) near8,
  rw (once, twice, twice_more)
      (elim (Bool-cases better) [
        | inl yes_8 ↦ rw yes_8 (
            inr (
              set-IsOver8 cr1,
              divider8_lem ((pclk * 2 + rate / 2) / rate)
                  (omega (arith, div-le_self (pclk * 2 + rate / 2) rate)),
              refl,
              omega (tests, yes_8),
            ))
        | inr no_8 ↦ rw no_8 (inl (clear-IsOver8 cr1, refl, refl, ground arith))
      ]),
)
  where
    near : IsNearest pclk rate ((pclk + rate / 2) / rate)
    near = nearest pclk rate pos

    near8 : IsNearest (pclk * 2) rate ((pclk * 2 + rate / 2) / rate)
    near8 = nearest (pclk * 2) rate pos

    not_zero : (n d : ℕ) → rate ≤ n → IsNearest n rate d → 0 < d
    not_zero n zero h k = absurd (omega (arith, k.1))
    not_zero n (suc d) h k = omega arith

    once : u32 (pclk + rate / 2) ≡ pclk + rate / 2
    once = omega arith

    twice : u32 (pclk * 2) ≡ pclk * 2
    twice = omega arith

    twice_more : u32 (pclk * 2 + rate / 2) ≡ pclk * 2 + rate / 2
    twice_more = omega arith

    better : Bool
    better =
        ltb (diff (pclk * 2 / ((pclk * 2 + rate / 2) / rate)) rate)
          (diff (pclk / ((pclk + rate / 2) / rate)) rate)
