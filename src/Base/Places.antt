-- ===== src/Base/Places.antt =====
-- The binary places of a number, and what `&`, `|`, `~` and `<<` do to them.
use lib_stm.Base.{
  ℕ, zero, suc, ◌+◌, ◌-◌, ◌*◌, ◌/◌, ◌%◌, ◌^◌, ◌≤◌, ◌<◌, min, ◌≡◌, refl, ap, ◌∙◌, bit_and, bit_or,
  not32, bit_and_step, bit_or_step, shift-suc, arith,
}
use Prim.Native.Nat.{max}
use native.Mathlib.Nat.{pow-suc}

-- The digit at place `i`: 0 or 1.
abbrev pub place : ℕ → ℕ → ℕ
place zero x = x % 2
place (suc i) x = place i (x / 2)

pub place-lt : (i x : ℕ) → place i x < 2
place-lt zero x = omega arith
place-lt (suc i) x = place-lt i (x / 2)

pub place-bit_and : (i x y : ℕ) → place i (bit_and x y) ≡ min (place i x) (place i y)
place-bit_and zero x y = omega (arith, bit_and_step x y)
place-bit_and (suc i) x y =
    let half : bit_and x y / 2 ≡ bit_and (x / 2) (y / 2) = omega (arith, bit_and_step x y) in
    rw half (place-bit_and i (x / 2) (y / 2))

pub place-bit_or : (i x y : ℕ) → place i (bit_or x y) ≡ max (place i x) (place i y)
place-bit_or zero x y = omega (arith, bit_or_step x y)
place-bit_or (suc i) x y =
    let half : bit_or x y / 2 ≡ bit_or (x / 2) (y / 2) = omega (arith, bit_or_step x y) in
    rw half (place-bit_or i (x / 2) (y / 2))

-- `~x` on `n` bits.
place-complement : (n i x : ℕ) → x < 2 ^ n → i < n → place i (2 ^ n - 1 - x) ≡ 1 - place i x
place-complement zero i x h hi = absurd (omega arith)
place-complement (suc n) zero x h hi = ground (arith, pow-suc 2 n)
place-complement (suc n) (suc i) x h hi =
    let half : (2 ^ suc n - 1 - x) / 2 ≡ 2 ^ n - 1 - x / 2 = omega (arith, pow-suc 2 n) in
    rw half (place-complement n i (x / 2) (omega (arith, pow-suc 2 n)) (omega arith))

pub place-not32 : (i x : ℕ) → i < 32 → x < 4294967296 → place i (not32 x) ≡ 1 - place i x
place-not32 i x h small =
    let same : x % 4294967296 ≡ x = omega arith in rw same (place-complement 32 i x small h)

-- No digit stands above the size of the number.
pub place-small : (w i x : ℕ) → x < 2 ^ w → w ≤ i → place i x ≡ 0
place-small zero zero x h hi = omega arith
place-small zero (suc i) x h hi = place-small zero i (x / 2) (omega arith) (omega arith)
place-small (suc w) zero x h hi = absurd (omega arith)
place-small (suc w) (suc i) x h hi =
    place-small w i (x / 2) (omega (arith, pow-suc 2 w)) (omega arith)

-- `x << k`: the digits move up, over zeros.
pub place-shifted : (k i x : ℕ) → place (k + i) (x * 2 ^ k) ≡ place i x
place-shifted zero i x =
    let one : x * 1 ≡ x = omega arith in let same : 0 + i ≡ i = omega arith in rw (one, same) refl
place-shifted (suc k) i x =
    let half : x * 2 ^ suc k / 2 ≡ x * 2 ^ k = omega (arith, shift-suc k x) in
    let up : suc k + i ≡ suc (k + i) = omega arith in
    rw up (ap (place (k + i)) half ∙ place-shifted k i x)

pub place-under : (k i x : ℕ) → i < k → place i (x * 2 ^ k) ≡ 0
place-under zero i x h = absurd (omega arith)
place-under (suc k) zero x h = omega (arith, shift-suc k x)
place-under (suc k) (suc i) x h =
    let half : x * 2 ^ suc k / 2 ≡ x * 2 ^ k = omega (arith, shift-suc k x) in
    ap (place i) half ∙ place-under k i x (omega arith)
