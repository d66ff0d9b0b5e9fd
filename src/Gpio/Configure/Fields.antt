-- ===== src/Gpio/Configure/Fields.antt =====
-- targets/stm32l/hw/GPIO.cpp: the fields of one pin in the registers of its port.
use native.Mathlib.Nat.{pow-suc}
use lib_stm.Base.{
  ℕ, zero, suc, ◌+◌, ◌-◌, ◌*◌, ◌/◌, ◌%◌, ◌^◌, ◌<◌, ◌==◌, ==_iff, ltb, ◌≡◌, ◌⊎◌, refl, ap, ◌∙◌,
  bit_and, bit_and-ones, not32, Bool-cases, if◌then◌else◌, inl, inr, arith, true, false, ltb→lt,
}
use lib_stm.Base.Places.{
  place, place-lt, place-bit_and, place-not32, place-small, place-shifted, place-under,
}
use lib_stm.Base.Masks.{put_field, put_field-inside, put_field-outside}
use lib_stm.Base.Table.{all_below, all_below_sound}
use lib_stm.Gpio.{ctz}
use lib_stm.Gpio.Configure.{resbit}

-- The digits of the fields of the pins, in a register with fields of 2 digits, and in AFR.
abbrev pub pairs : ℕ → ℕ → ℕ → ℕ
pairs r i j = place (2 * i + j) r

abbrev pub fours : ℕ → ℕ → ℕ → ℕ → ℕ
fours low high i j = place (4 * (i % 8) + j) (if ltb 7 i then high else low)

-- The pins of `mask` get the digits of `value` in their fields, and the others keep theirs.
abbrev pub IsField : ℕ → ℕ → ℕ → (ℕ → ℕ → ℕ) → (ℕ → ℕ → ℕ) → Type 0
IsField width mask value d d' =
    (i j : ℕ) → i < 16 → j < width → d' i j ≡ (if place i mask == 1 then place j value else d i j)

-- The same of one pin.
abbrev pub At : ℕ → ℕ → ℕ → (ℕ → ℕ → ℕ) → (ℕ → ℕ → ℕ) → Type 0
At width b value d d' =
    (i j : ℕ) → i < 16 → j < width → d' i j ≡ (if i == b then place j value else d i j)

apart : (i b : ℕ) → (i == b) ≡ false → (i < b) ⊎ (b < i)
apart i b h = elim (Bool-cases (ltb i b)) [
  | inl less ↦ inl (ground arith)
  | inr more ↦ inr (ground arith)
]

pub put_pair :
    (b value r : ℕ) → b < 16 → At 2 b value (pairs r) (pairs (put_field 2 (b * 2) value r))
put_pair b value r hb i j hi hj = elim (Bool-cases (i == b)) [
  | inl same ↦
      let e : 2 * i + j ≡ b * 2 + j = omega (arith, (==_iff i b).0 same) in
      rw (same, e) (put_field-inside 2 (b * 2) value r j (omega arith) hj)
  | inr other ↦ rw other (
      put_field-outside 2 (b * 2) value r (2 * i + j) (omega arith)
        (elim (apart i b other) [ inl l ↦ inl (omega arith) | inr m ↦ inr (omega arith) ]))
]

-- A field of 4 digits in the half of AFR that has both pins.
put_half :
    (b value r i j : ℕ)
    → j < 4
    → i / 8 ≡ b / 8
    → place (4 * (i % 8) + j) (put_field 4 (b % 8 * 4) value r)
      ≡ (if i == b then place j value else place (4 * (i % 8) + j) r)
put_half b value r i j hj half = elim (Bool-cases (i == b)) [
  | inl same ↦
      let e : 4 * (i % 8) + j ≡ b % 8 * 4 + j = omega (arith, (==_iff i b).0 same) in
      rw (same, e) (put_field-inside 4 (b % 8 * 4) value r j (omega arith) hj)
  | inr other ↦ rw other (
      put_field-outside 4 (b % 8 * 4) value r (4 * (i % 8) + j) (omega arith)
        (elim (apart i b other) [ inl l ↦ inl (omega arith) | inr m ↦ inr (omega arith) ]))
]

pub put_four :
    (b value low high : ℕ)
    → b < 16
    → At 4 b value (fours low high) (
        fours
          (if ltb 7 b then low else put_field 4 (bit_and b 7 * 4) value low)
          (if ltb 7 b then put_field 4 (bit_and b 7 * 4) value high else high))
put_four b value low high hb i j hi hj =
    let e : bit_and b 7 ≡ b % 8 = bit_and-ones 3 b in
    rw e (elim (Bool-cases (ltb 7 b)) [
      | inl h ↦ rw h (elim (Bool-cases (ltb 7 i)) [
        | inl k ↦ rw k (put_half b value high i j hj (ground arith))
        | inr k ↦ let other : (i == b) ≡ false = ground arith in rw (k, other) refl
      ])
      | inr h ↦ rw h (elim (Bool-cases (ltb 7 i)) [
        | inl k ↦ let other : (i == b) ≡ false = ground arith in rw (k, other) refl
        | inr k ↦ rw k (put_half b value low i j hj (ground arith))
      ])
    ])

-- `ctz` finds a place with a one.
pub place-ctz : (fuel x : ℕ) → 0 < x → x < 2 ^ fuel → place (ctz fuel x) x ≡ 1
unfolding ctz
place-ctz zero x pos h = absurd (omega arith)
place-ctz (suc fuel) x pos h = elim (Bool-cases (bit_and x 1 == 0)) [
  | inl even ↦
      let half : x % 2 ≡ 0 = omega (arith, bit_and-ones 1 x, (==_iff (bit_and x 1) 0).0 even) in
      rw even (place-ctz fuel (x / 2) (omega arith) (omega (arith, pow-suc 2 fuel)))
  | inr odd ↦ rw odd (ground (arith, bit_and-ones 1 x))
]

pub powers : all_below (λ b. ltb (2 ^ b) 4294967296) 16 ≡ true
unfolding all_below
powers = refl

pub place-power : (b i : ℕ) → b < 16 → place i (2 ^ b) ≡ (if i == b then 1 else 0)
place-power b i h = elim (Bool-cases (i == b)) [
  | inl same ↦ rw (same, (==_iff i b).0 same) (ap (place b) one ∙ at)
  | inr other ↦ rw other (
      ap (place i) one ∙ elim (apart i b other) [
        | inl less ↦ place-under b i 1 less
        | inr more ↦
            let up : b + (i - b) ≡ i = omega arith in
            rw up at (place-shifted b (i - b) 1)
            ∙ place-small 1 (i - b) 1 (omega arith) (omega arith)
      ])
]
  where
    one : 2 ^ b ≡ 1 * 2 ^ b
    one = omega arith

    at : place b (1 * 2 ^ b) ≡ 1
    at = let up : b + 0 ≡ b = omega arith in rw up at (place-shifted b 0 1)

-- The mask without its pin `b`.
pub place-resbit :
    (mask b i : ℕ)
    → i < 16
    → b < 16
    → place i (resbit mask b) ≡ (if i == b then 0 else place i mask)
unfolding resbit
place-resbit mask b i hi hb =
    place-bit_and i mask (not32 (2 ^ b))
    ∙ ground (
      arith,
      place-not32 i (2 ^ b) (omega arith) (ltb→lt _ _ (all_below_sound _ 16 b hb powers)),
      place-power b i hb,
      place-lt i mask,
    )

module _ {b : ℕ} (mask width value : ℕ) (hb : b < 16) (one : place b mask ≡ 1) where
  -- A pin, and then the rest of the mask.
  pub At-IsField :
      (d d' d'' : ℕ → ℕ → ℕ)
      → At width b value d d'
      → IsField width (resbit mask b) value d' d''
      → IsField width mask value d d''
  At-IsField d d' d'' first rest i j hi hj =
      ground (arith, first i j hi hj, rest i j hi hj, place-resbit mask b i hi hb)

  -- The last pin.
  pub At-IsField_last :
      (d d' : ℕ → ℕ → ℕ) → resbit mask b ≡ 0 → At width b value d d' → IsField width mask value d d'
  At-IsField_last d d' none first =
      At-IsField d d' d' first (λ i j hi hj. rw none (ground (arith, place-small 0 i 0)))
