-- ===== src/Base/Bits.antt =====
-- Machine words as numbers, and the laws of masks that the sources write with `&`, `|` and `~`.
use Prim.Native.Nat.{
  ℕ, zero, suc, ◌+◌, ◌-◌, ◌*◌, ◌/◌, ◌%◌, ◌^◌, ◌≤◌, ◌<◌, min, max, bit_and, bit_or, bit_and-bitwise,
  bit_or-bitwise,
}
use mathlib.Core.Path.{◌≡◌, refl, ap}
use native.Mathlib.Nat.{pow-suc, one-le-pow, mul-one, add-zero}
use native.Mathlib.Omega.{arith}
use lib_stm.Base.Digits.{bitwise_step}

abbrev pub u8 : ℕ → ℕ
u8 n = n % 256

abbrev pub u16 : ℕ → ℕ
u16 n = n % 65536

abbrev pub u32 : ℕ → ℕ
u32 n = n % 4294967296

-- `a - b` on 32 bits: `-` on ℕ is truncated, so the modulus is added first.
abbrev pub sub32 : ℕ → ℕ → ℕ
sub32 a b = (a + 4294967296 - b % 4294967296) % 4294967296

-- `~a` on 32 bits.
abbrev pub not32 : ℕ → ℕ
not32 a = 4294967295 - a % 4294967296

pub bit_and_step : (x y : ℕ) → bit_and x y ≡ bit_and (x / 2) (y / 2) * 2 + min (x % 2) (y % 2)
bit_and_step x y = simp bit_and-bitwise (bitwise_step (λ y. 0) min (λ y. omega arith) x y)

pub bit_or_step : (x y : ℕ) → bit_or x y ≡ bit_or (x / 2) (y / 2) * 2 + max (x % 2) (y % 2)
bit_or_step x y = simp bit_or-bitwise (bitwise_step (λ y. y) max (λ y. omega arith) x y)

pub zero-bit_or : (y : ℕ) → bit_or 0 y ≡ y
zero-bit_or y = bit_or-bitwise 0 y

cleared : (bound x : ℕ) → x < bound → bit_and x 0 ≡ 0
cleared zero x h = absurd (omega arith)
cleared (suc bound) zero h = refl
cleared (suc bound) (suc x) h =
    omega (arith, cleared bound (suc x / 2) (omega arith), bit_and_step (suc x) 0)

pub bit_and-zero : (x : ℕ) → bit_and x 0 ≡ 0
bit_and-zero x = cleared (suc x) x (omega arith)

-- One place further to the left is twice as much.
pub shift-suc : (n x : ℕ) → x * 2 ^ suc n ≡ x * 2 ^ n + x * 2 ^ n
shift-suc n x = omega (arith, ap (λ (t : ℕ). x * t) (pow-suc 2 n))

-- `x & ((1 << n) - 1)` on a value split at bit `n`.
bit_and_split : (n hi lo : ℕ) → lo < 2 ^ n → bit_and (hi * 2 ^ n + lo) (2 ^ n - 1) ≡ lo
bit_and_split zero hi lo h = omega (arith, bit_and-zero (hi * 1 + lo))
bit_and_split (suc n) hi lo h = ground (
  arith,
  shift-suc n hi,
  bit_and_split n hi (lo / 2) (omega arith),
  bit_and_step (hi * 2 ^ suc n + lo) (2 ^ suc n - 1),
  pow-suc 2 n,
)

-- `x & ((1 << n) - 1)` is the remainder by `2 ^ n`.
pub bit_and-ones : (n x : ℕ) → bit_and x (2 ^ n - 1) ≡ x % 2 ^ n
bit_and-ones n x = ground (arith, bit_and_split n (x / 2 ^ n) (x % 2 ^ n), one-le-pow n 2)

-- A mask whose low `n` bits are clear drops those bits.
pub bit_and-shifted :
    (n hi lo mask : ℕ)
    → lo < 2 ^ n
    → bit_and (hi * 2 ^ n + lo) (mask * 2 ^ n) ≡ bit_and hi mask * 2 ^ n
bit_and-shifted zero hi lo mask h = let e : lo ≡ 0 = omega arith in rw e (simp (mul-one, add-zero))
bit_and-shifted (suc n) hi lo mask h = ground (
  arith,
  shift-suc n hi,
  shift-suc n mask,
  shift-suc n (bit_and hi mask),
  bit_and-shifted n hi (lo / 2) mask (omega arith),
  bit_and_step (hi * 2 ^ suc n + lo) (mask * 2 ^ suc n),
)

-- `lo | (hi << n)` is a sum when `lo` fits `n` bits.
pub bit_or_fields : (n hi lo : ℕ) → lo < 2 ^ n → bit_or lo (hi * 2 ^ n) ≡ lo + hi * 2 ^ n
bit_or_fields zero hi lo h =
    let e : lo ≡ 0 = omega arith in rw e (omega (arith, zero-bit_or (hi * 1)))
bit_or_fields (suc n) hi lo h = ground (
  arith,
  shift-suc n hi,
  bit_or_fields n hi (lo / 2) (omega arith),
  bit_or_step lo (hi * 2 ^ suc n),
)

-- `x & ~((1 << 11) - 1)` on a 32-bit word rounds down to a multiple of 2048.
pub bit_and-round_down : (x : ℕ) → x < 4294967296 → bit_and x (not32 2047) ≡ x - x % 2048
bit_and-round_down x h = omega (
  arith,
  bit_and-shifted 11 (x / 2048) (x % 2048) 2097151 (omega arith),
  bit_and-ones 21 (x / 2048),
  ap (λ t. bit_and t 4294965248) split,
)
  where
    split : x / 2048 * 2 ^ 11 + x % 2048 ≡ x
    split = omega arith

or_comm_fuel : (n a b : ℕ) → a ≤ n → b ≤ n → bit_or a b ≡ bit_or b a
or_comm_fuel zero a b p q =
    let e : a ≡ 0 = omega arith in let e' : b ≡ 0 = omega arith in rw (e, e')
or_comm_fuel (suc n) a b p q =
    omega (arith, bit_or_step a b, bit_or_step b a, or_comm_fuel n (a / 2) (b / 2))

pub bit_or_comm : (a b : ℕ) → bit_or a b ≡ bit_or b a
bit_or_comm a b = or_comm_fuel (a + b) a b (omega arith) (omega arith)

-- `x | y` where the low `n` bits of `y` are clear.
pub bit_or-shifted :
    (n hi lo y : ℕ) → lo < 2 ^ n → bit_or (hi * 2 ^ n + lo) (y * 2 ^ n) ≡ bit_or hi y * 2 ^ n + lo
bit_or-shifted zero hi lo y h = let e : lo ≡ 0 = omega arith in rw e (simp (mul-one, add-zero))
bit_or-shifted (suc n) hi lo y h = ground (
  arith,
  shift-suc n hi,
  shift-suc n y,
  shift-suc n (bit_or hi y),
  bit_or-shifted n hi (lo / 2) y (omega arith),
  bit_or_step (hi * 2 ^ suc n + lo) (y * 2 ^ suc n),
)

-- Ones in all places.
pub bit_or-ones : (n x : ℕ) → x < 2 ^ n → bit_or x (2 ^ n - 1) ≡ 2 ^ n - 1
bit_or-ones zero x h = let e : x ≡ 0 = omega arith in rw e refl
bit_or-ones (suc n) x h = ground (
  arith,
  bit_or-ones n (x / 2) (omega (arith, pow-suc 2 n)),
  bit_or_step x (2 ^ suc n - 1),
  pow-suc 2 n,
  one-le-pow n 2,
)
