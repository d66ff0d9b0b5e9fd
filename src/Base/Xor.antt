-- ===== src/Base/Xor.antt =====
-- The laws of `^` on numbers of any width, from its recursion over the digits.
use Prim.Native.Nat.{
  ℕ, zero, suc, ◌+◌, ◌*◌, ◌/◌, ◌%◌, ◌^◌, ◌≤◌, ◌<◌, bit_xor, differ, bit_xor-bitwise,
}
use mathlib.Core.Path.{◌≡◌, refl, sym, ap, ◌≡⟨◌⟩◌, ◌∎}
use native.Mathlib.Nat.{pow-suc}
use native.Mathlib.Omega.{arith}
use lib_stm.Base.Digits.{bitwise_step}

pub zero-bit_xor : (y : ℕ) → bit_xor 0 y ≡ y
zero-bit_xor y = bit_xor-bitwise 0 y

differ_small : (x y : ℕ) → x < 2 → y < 2 → differ x y ≡ (x + y) % 2
differ_small zero y p q = omega arith
differ_small (suc zero) zero p q = refl
differ_small (suc zero) (suc y) p q = omega arith
differ_small (suc (suc x)) y p q = absurd (omega arith)

pub bit_xor_step : (x y : ℕ) → bit_xor x y ≡ bit_xor (x / 2) (y / 2) * 2 + (x + y) % 2
bit_xor_step x y =
    omega (arith, bit_xor_digit, differ_small (x % 2) (y % 2) (omega arith) (omega arith))
  where
    bit_xor_digit : bit_xor x y ≡ bit_xor (x / 2) (y / 2) * 2 + differ (x % 2) (y % 2)
    bit_xor_digit = simp bit_xor-bitwise (bitwise_step (λ y. y) differ (λ y. omega arith) x y)

xor_comm_fuel : (n a b : ℕ) → a ≤ n → b ≤ n → bit_xor a b ≡ bit_xor b a
xor_comm_fuel zero a b p q =
    let e : a ≡ 0 = omega arith in let e' : b ≡ 0 = omega arith in rw (e, e')
xor_comm_fuel (suc n) a b p q =
    omega (arith, bit_xor_step a b, bit_xor_step b a, xor_comm_fuel n (a / 2) (b / 2))

pub bit_xor_comm : (a b : ℕ) → bit_xor a b ≡ bit_xor b a
bit_xor_comm a b = xor_comm_fuel (a + b) a b (omega arith) (omega arith)

xor_assoc_fuel :
    (n a b c : ℕ) → a ≤ n → b ≤ n → c ≤ n → bit_xor (bit_xor a b) c ≡ bit_xor a (bit_xor b c)
xor_assoc_fuel zero a b c p q r =
    let e : a ≡ 0 = omega arith in rw (e, zero-bit_xor b, zero-bit_xor (bit_xor b c))
xor_assoc_fuel (suc n) a b c p q r =
    let h : bit_xor a b / 2 ≡ bit_xor (a / 2) (b / 2) = omega (arith, bit_xor_step a b) in
    let k : bit_xor b c / 2 ≡ bit_xor (b / 2) (c / 2) = omega (arith, bit_xor_step b c) in
    omega (
      arith,
      bit_xor_step a b,
      bit_xor_step b c,
      bit_xor_step (bit_xor a b) c,
      bit_xor_step a (bit_xor b c),
      ap (λ t. bit_xor t (c / 2)) h,
      ap (λ t. bit_xor (a / 2) t) k,
      xor_assoc_fuel n (a / 2) (b / 2) (c / 2) (omega arith) (omega arith) (omega arith),
    )

pub bit_xor_assoc : (a b c : ℕ) → bit_xor (bit_xor a b) c ≡ bit_xor a (bit_xor b c)
bit_xor_assoc a b c = xor_assoc_fuel (a + b + c) a b c (omega arith) (omega arith) (omega arith)

xor_self_fuel : (n a : ℕ) → a ≤ n → bit_xor a a ≡ 0
xor_self_fuel zero a p = let e : a ≡ 0 = omega arith in rw e
xor_self_fuel (suc n) a p = omega (arith, bit_xor_step a a, xor_self_fuel n (a / 2))

pub bit_xor_self : (a : ℕ) → bit_xor a a ≡ 0
bit_xor_self a = xor_self_fuel a a (omega arith)

shift-suc : (n x : ℕ) → x * 2 ^ suc n ≡ x * 2 ^ n + x * 2 ^ n
shift-suc n x = omega (arith, ap (λ (t : ℕ). x * t) (pow-suc 2 n))

-- Numbers with no common digit: `^` adds them.
pub bit_xor_fields : (k q r : ℕ) → r < 2 ^ k → bit_xor (q * 2 ^ k) r ≡ q * 2 ^ k + r
bit_xor_fields zero q r h =
    let e : r ≡ 0 = omega arith in
    rw e (omega (arith, bit_xor_comm (q * 1) 0, zero-bit_xor (q * 1)))
bit_xor_fields (suc k) q r h = ground (
  arith,
  bit_xor_step (q * 2 ^ suc k) r,
  shift-suc k q,
  pow-suc 2 k,
  bit_xor_fields k q (r / 2) (omega (arith, pow-suc 2 k)),
)

pub bit_xor-lt : (k a b : ℕ) → a < 2 ^ k → b < 2 ^ k → bit_xor a b < 2 ^ k
bit_xor-lt zero a b p q = let e : a ≡ 0 = omega arith in rw e (omega (arith, zero-bit_xor b))
bit_xor-lt (suc k) a b p q = omega (
  arith,
  bit_xor_step a b,
  pow-suc 2 k,
  bit_xor-lt k (a / 2) (b / 2) (omega (arith, pow-suc 2 k)) (omega (arith, pow-suc 2 k)),
)

pub bit_xor-zero : (a : ℕ) → bit_xor a 0 ≡ a
bit_xor-zero a = rw bit_xor_comm (zero-bit_xor a)

-- Two pairs are joined crosswise.
pub bit_xor_regroup :
    (a b c d : ℕ) → bit_xor (bit_xor a b) (bit_xor c d) ≡ bit_xor (bit_xor a c) (bit_xor b d)
bit_xor_regroup a b c d =
    bit_xor (bit_xor a b) (bit_xor c d)
    ≡⟨ bit_xor_assoc a b (bit_xor c d) ⟩ bit_xor a (bit_xor b (bit_xor c d))
    ≡⟨ ap (bit_xor a) (sym (bit_xor_assoc b c d)) ⟩ bit_xor a (bit_xor (bit_xor b c) d)
    ≡⟨ ap (λ t. bit_xor a (bit_xor t d)) (bit_xor_comm b c) ⟩ bit_xor a (bit_xor (bit_xor c b) d)
    ≡⟨ ap (bit_xor a) (bit_xor_assoc c b d) ⟩ bit_xor a (bit_xor c (bit_xor b d))
    ≡⟨ sym (bit_xor_assoc a c (bit_xor b d)) ⟩ bit_xor (bit_xor a c) (bit_xor b d) ∎
