-- ===== src/Gpio/Outputs.antt =====
-- targets/stm32l/hw/GPIO.h: the output of each pin of a port after an operation on some of them.
use lib_stm.Base.{
  ℕ, zero, suc, ◌+◌, ◌-◌, ◌*◌, ◌/◌, ◌^◌, ◌≤◌, ◌<◌, ◌==◌, ==_iff, min, ◌≡◌, refl, sym, ap, ◌∙◌,
  false, Bool-cases, inl, inr, bit_and, bit_and_step, bit_and-zero, bit_and-ones, bit_or, not32,
  u32, if◌then◌else◌, arith,
}
use lib_stm.Base.Places.{
  place, place-lt, place-bit_and, place-bit_or, place-not32, place-small, place-shifted,
  place-under,
}
use lib_stm.Gpio.{Port, ctz, set, res, toggle, write}

-- What the reference manual says of BSRR and BRR: a one in a low place of BSRR sets its pin, else a
-- one 16 places higher resets it; a one in BRR resets its pin; all other pins are as before.
pub record SetsAndResets (bsrr brr : ℕ → ℕ → ℕ) : Type 0 where
  pub sets :
      (i odr v : ℕ)
      → i < 16
      → place i (bsrr odr v)
        ≡ (if place i v == 1 then 1 else if place (16 + i) v == 1 then 0 else place i odr)
  pub resets :
      (i odr v : ℕ) → i < 16 → place i (brr odr v) ≡ (if place i v == 1 then 0 else place i odr)

-- The word that sets the pins of `mask` in `v` and resets its others.
chosen : ℕ → ℕ → ℕ
chosen v mask = bit_or (bit_and v mask) (u32 (bit_and (not32 v) mask * 2 ^ 16))

-- A number below 2 ^ 16 that is shifted by 16 fits.
fits : (x : ℕ) → x < 65536 → u32 (x * 2 ^ 16) ≡ x * 2 ^ 16
fits x h = omega arith

bit_and-le : (fuel x y : ℕ) → y ≤ fuel → bit_and x y ≤ y
bit_and-le zero x y h = let e : y ≡ 0 = omega arith in rw e (omega (arith, bit_and-zero x))
bit_and-le (suc fuel) x y h =
    omega (arith, bit_and_step x y, bit_and-le fuel (x / 2) (y / 2) (omega arith))

high_part :
    (v mask : ℕ)
    → mask < 65536
    → u32 (bit_and (not32 v) mask * 2 ^ 16) ≡ bit_and (not32 v) mask * 2 ^ 16
high_part v mask small = fits _ (omega (arith, bit_and-le mask (not32 v) mask))

chosen-low :
    (i v mask : ℕ)
    → i < 16
    → mask < 65536
    → place i (chosen v mask) ≡ min (place i v) (place i mask)
unfolding chosen
chosen-low i v mask h small = omega (
  arith,
  place-bit_or i (bit_and v mask) (u32 (bit_and (not32 v) mask * 2 ^ 16)),
  place-bit_and i v mask,
  ap (place i) (high_part v mask small),
  place-under 16 i (bit_and (not32 v) mask) h,
)

chosen-high :
    (i v mask : ℕ)
    → i < 16
    → mask < 65536
    → v < 4294967296
    → place (16 + i) (chosen v mask) ≡ min (1 - place i v) (place i mask)
unfolding chosen
chosen-high i v mask h small hv = omega (
  arith,
  place-bit_or (16 + i) (bit_and v mask) (u32 (bit_and (not32 v) mask * 2 ^ 16)),
  place-bit_and (16 + i) v mask,
  place-small 16 (16 + i) mask small (omega arith),
  ap (place (16 + i)) (high_part v mask small),
  place-shifted 16 i (bit_and (not32 v) mask),
  place-bit_and i (not32 v) mask,
  place-not32 i v (omega arith) hv,
)

-- The pins of `mask` have the digits of `v`, and the others are as before.
abbrev pub IsOutput : ℕ → (ℕ → ℕ) → Port → Port → Type 0
IsOutput mask v p q =
    (i : ℕ) → i < 16 → place i q.odr ≡ (if place i mask == 1 then v i else place i p.odr)

chosen-Output :
    (bsrr brr : ℕ → ℕ → ℕ)
    → SetsAndResets bsrr brr
    → (mask v : ℕ) (p : Port) → mask < 65536
    → v < 4294967296
    → IsOutput mask (λ i. place i v) p (record p { odr = bsrr p.odr (chosen v mask) })
chosen-Output bsrr brr g mask v p small hv i h =
    rw
      (
        g.sets i p.odr (chosen v mask) h,
        chosen-low i v mask h small,
        chosen-high i v mask h small hv,
      )
      (ground (arith, place-lt i v, place-lt i mask))

pub set-Output :
    (bsrr brr : ℕ → ℕ → ℕ)
    → SetsAndResets bsrr brr
    → (mask : ℕ) (p : Port) → mask < 65536
    → IsOutput mask (λ i. 1) p (set bsrr brr mask p)
unfolding set
set-Output bsrr brr g mask p small i h =
    rw (g.sets i p.odr mask h)
      (ground (arith, place-lt i mask, place-small 16 (16 + i) mask small (omega arith)))

pub res-Output :
    (bsrr brr : ℕ → ℕ → ℕ)
    → SetsAndResets bsrr brr
    → (mask : ℕ) (p : Port) → IsOutput mask (λ i. 0) p (res bsrr brr mask p)
unfolding res
res-Output bsrr brr g mask p i h = g.resets i p.odr mask h

toggle-Output :
    (bsrr brr : ℕ → ℕ → ℕ)
    → SetsAndResets bsrr brr
    → (mask : ℕ) (p : Port) → mask < 65536
    → p.odr < 4294967296
    → IsOutput mask (λ i. 1 - place i p.odr) p (toggle bsrr brr mask p)
unfolding toggle chosen
toggle-Output bsrr brr g mask p small word i h =
    ap
      (λ x.
        place i (bsrr p.odr (bit_or (bit_and (not32 p.odr) mask) (u32 (bit_and x mask * 2 ^ 16)))))
      (sym twice)
    ∙ chosen-Output bsrr brr g mask (not32 p.odr) p small (omega arith) i h
    ∙ ap (λ x. if place i mask == 1 then x else place i p.odr)
        (place-not32 i p.odr (omega arith) word)
  where
    twice : not32 (not32 p.odr) ≡ p.odr
    twice = omega arith

-- No pin of a mask stands below its number of trailing zeros.
pub ctz-le : (fuel x i : ℕ) → place i x ≡ 1 → ctz fuel x ≤ i
unfolding ctz
ctz-le zero x i h = omega arith
ctz-le (suc fuel) x zero h =
    let t : (bit_and x 1 == 0) ≡ false = ground (arith, bit_and-ones 1 x) in rw t (omega arith)
ctz-le (suc fuel) x (suc i) h = elim (Bool-cases (bit_and x 1 == 0)) [
  | inl even ↦ rw even (omega (arith, ctz-le fuel (x / 2) i h))
  | inr odd ↦ rw odd (omega arith)
]

write-Output :
    (bsrr brr : ℕ → ℕ → ℕ)
    → SetsAndResets bsrr brr
    → (mask value : ℕ) (p : Port) → mask < 65536
    → value * 2 ^ ctz 32 mask < 4294967296
    → IsOutput mask (λ i. place (i - ctz 32 mask) value) p (write bsrr brr mask value p)
unfolding write chosen
write-Output bsrr brr g mask value p small shifts i h =
    moved ∙ elim (Bool-cases (place i mask == 1)) [
      | inl pin ↦
          let up : ctz 32 mask + (i - ctz 32 mask) ≡ i =
            omega (arith, ctz-le 32 mask i ((==_iff (place i mask) 1).0 pin)) in
          rw pin (rw up at (place-shifted (ctz 32 mask) (i - ctz 32 mask) value))
      | inr other ↦ rw other refl
    ]
  where
    word : u32 (value * 2 ^ ctz 32 mask) ≡ value * 2 ^ ctz 32 mask
    word = omega arith

    moved :
        place i (write bsrr brr mask value p).odr
        ≡ (if place i mask == 1 then place i (value * 2 ^ ctz 32 mask) else place i p.odr)
    moved = rw word (chosen-Output bsrr brr g mask (value * 2 ^ ctz 32 mask) p small shifts i h)

-- `Set`, `Res`, `Toggle` and `Write` of a pin or range of pins: each pin of the mask is set, is reset,
-- has its output turned round, or has its digit of the value, counted from the lowest pin of the mask;
-- and every other pin of the port has the output that it had. The value, moved up to the pins, fits
-- 32 bits.
pub outputs_lem :
    (bsrr brr : ℕ → ℕ → ℕ)
    → SetsAndResets bsrr brr
    → (mask value : ℕ) (p : Port) → mask < 65536
    → p.odr < 4294967296
    → value * 2 ^ ctz 32 mask < 4294967296
    → IsOutput mask (λ i. 1) p (set bsrr brr mask p)
      × IsOutput mask (λ i. 0) p (res bsrr brr mask p)
      × IsOutput mask (λ i. 1 - place i p.odr) p (toggle bsrr brr mask p)
      × IsOutput mask (λ i. place (i - ctz 32 mask) value) p (write bsrr brr mask value p)
outputs_lem bsrr brr g mask value p small word shifts = (
  set-Output bsrr brr g mask p small,
  res-Output bsrr brr g mask p,
  toggle-Output bsrr brr g mask p small word,
  write-Output bsrr brr g mask value p small shifts,
)
