-- ===== src/Base/Masks.antt =====
-- Fields of registers: `MODMASK`, as the sources use it with masks of consecutive places.
use lib_stm.Base.{
  ℕ, zero, suc, ◌+◌, ◌-◌, ◌*◌, ◌/◌, ◌%◌, ◌^◌, ◌≤◌, ◌<◌, min, ◌≡◌, ◌⊎◌, sym, ap, ◌∙◌, bit_and,
  bit_or, not32, u32, bit_and-ones, inl, inr, arith,
}
use lib_stm.Base.Places.{
  place, place-lt, place-bit_and, place-bit_or, place-not32, place-small, place-shifted,
  place-under,
}
use Prim.Native.Nat.{max}
use native.Mathlib.Nat.{pow-suc, one-le-pow}

-- `MODMASK`: the places of the mask get the value.
unfoldable pub modmask : ℕ → ℕ → ℕ → ℕ
modmask reg mask value = bit_or (bit_and reg (not32 mask)) value

-- `MODMASK(reg, MASK(width) << shift, (value & MASK(width)) << shift)`
unfoldable pub put_field : ℕ → ℕ → ℕ → ℕ → ℕ
unfolding modmask
put_field width shift value reg =
    modmask reg (u32 ((2 ^ width - 1) * 2 ^ shift))
      (u32 (bit_and value (2 ^ width - 1) * 2 ^ shift))

pub place-ones : (n i : ℕ) → i < n → place i (2 ^ n - 1) ≡ 1
place-ones zero i h = absurd (omega arith)
place-ones (suc n) zero h = omega (arith, pow-suc 2 n, one-le-pow n 2)
place-ones (suc n) (suc i) h =
    let half : (2 ^ suc n - 1) / 2 ≡ 2 ^ n - 1 = omega (arith, pow-suc 2 n, one-le-pow n 2) in
    rw half (place-ones n i (omega arith))

-- Places beyond the width fall away.
pub place-mod : (n i x : ℕ) → i < n → place i (x % 2 ^ n) ≡ place i x
place-mod n i x h =
    ap (place i) (sym (bit_and-ones n x))
    ∙ omega (arith, place-bit_and i x (2 ^ n - 1), place-ones n i h, place-lt i x)

place-u32 : (i x : ℕ) → i < 32 → place i (u32 x) ≡ place i x
place-u32 i x h = place-mod 32 i x h

pub place-modmask :
    (i reg mask value : ℕ)
    → i < 32
    → mask < 4294967296
    → place i (modmask reg mask value) ≡ max (min (place i reg) (1 - place i mask)) (place i value)
unfolding modmask
place-modmask i reg mask value h small = omega (
  arith,
  place-bit_or i (bit_and reg (not32 mask)) value,
  place-bit_and i reg (not32 mask),
  place-not32 i mask h small,
)

module _ (width shift value reg : ℕ) where
  put_field-below :
      (p : ℕ) → p < 32 → p < shift → place p (put_field width shift value reg) ≡ place p reg
  unfolding put_field
  put_field-below p h less = omega (
    arith,
    place-modmask p reg (u32 ((2 ^ width - 1) * 2 ^ shift))
        (u32 (bit_and value (2 ^ width - 1) * 2 ^ shift)) h (omega arith),
    place-u32 p ((2 ^ width - 1) * 2 ^ shift) h,
    place-u32 p (bit_and value (2 ^ width - 1) * 2 ^ shift) h,
    place-under shift p (2 ^ width - 1) less,
    place-under shift p (bit_and value (2 ^ width - 1)) less,
    place-lt p reg,
  )

  -- A place `q` above the start of the field.
  at_above :
      (q : ℕ)
      → shift + q < 32
      → place (shift + q) (put_field width shift value reg)
        ≡ max
            (min (place (shift + q) reg) (1 - place q (2 ^ width - 1)))
            (min (place q value) (place q (2 ^ width - 1)))
  unfolding put_field
  at_above q h = omega (
    arith,
    place-modmask (shift + q) reg (u32 ((2 ^ width - 1) * 2 ^ shift))
        (u32 (bit_and value (2 ^ width - 1) * 2 ^ shift)) h (omega arith),
    place-u32 (shift + q) ((2 ^ width - 1) * 2 ^ shift) h,
    place-u32 (shift + q) (bit_and value (2 ^ width - 1) * 2 ^ shift) h,
    place-shifted shift q (2 ^ width - 1),
    place-shifted shift q (bit_and value (2 ^ width - 1)),
    place-bit_and q value (2 ^ width - 1),
  )

  pub put_field-inside :
      (q : ℕ)
      → shift + q < 32
      → q < width
      → place (shift + q) (put_field width shift value reg) ≡ place q value
  put_field-inside q h less =
      omega
        (arith, at_above q h, place-ones width q less, place-lt q value, place-lt (shift + q) reg)

  put_field-above :
      (q : ℕ)
      → shift + q < 32
      → width ≤ q
      → place (shift + q) (put_field width shift value reg) ≡ place (shift + q) reg
  put_field-above q h more = omega (
    arith,
    at_above q h,
    place-small width q (2 ^ width - 1) (omega (arith, one-le-pow width 2)) more,
    place-lt (shift + q) reg,
  )

  -- Only the places of the field change.
  pub put_field-outside :
      (p : ℕ)
      → p < 32
      → (p < shift) ⊎ (shift + width ≤ p)
      → place p (put_field width shift value reg) ≡ place p reg
  put_field-outside p h (inl less) = put_field-below p h less
  put_field-outside p h (inr more) =
      let up : shift + (p - shift) ≡ p = omega arith in
      rw up at (put_field-above (p - shift) (omega arith) (omega arith))
