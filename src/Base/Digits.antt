-- ===== src/Base/Digits.antt =====
-- The recursion over binary digits that the native bit operations stand for, one digit at a time.
use Prim.Native.Nat.{ℕ, zero, suc, ◌+◌, ◌-◌, ◌*◌, ◌/◌, ◌%◌, ◌≤◌, digits, bitwise}
use mathlib.Core.Path.{◌≡◌, refl, ◌∙◌}
use native.Mathlib.Omega.{arith}

-- `n` with `k` more.
abbrev more : ℕ → ℕ → ℕ
more zero n = n
more (suc k) n = suc (more k n)

more_lem : (k n : ℕ) → more k n ≡ k + n
more_lem zero n = omega arith
more_lem (suc k) n = omega (arith, more_lem k n)

module _ (z : ℕ → ℕ) (op : ℕ → ℕ → ℕ) where
  -- Fuel beyond the number itself changes nothing: first one unit of it, then `k`.
  surplus : (n y x : ℕ) → x ≤ n → digits z op (suc n) x y ≡ digits z op n x y
  surplus zero y zero h = refl
  surplus zero y (suc x) h = absurd (omega arith)
  surplus (suc n) y zero h = refl
  surplus (suc n) y (suc x) h = rw (surplus n (y / 2) (suc x / 2) (omega arith))

  surplus_all : (k n y x : ℕ) → x ≤ n → digits z op (more k n) x y ≡ digits z op n x y
  surplus_all zero n y x h = refl
  surplus_all (suc k) n y x h =
      surplus (more k n) y x (omega (arith, more_lem k n)) ∙ surplus_all k n y x h

  -- The lowest digits are joined, and the others as the halves.
  pub bitwise_step :
      ((y : ℕ) → z y ≡ z (y / 2) * 2 + op 0 (y % 2))
      → (x y : ℕ) → bitwise z op x y ≡ bitwise z op (x / 2) (y / 2) * 2 + op (x % 2) (y % 2)
  bitwise_step low zero y = low y
  bitwise_step low (suc x) y =
      let half : ℕ = suc x / 2 in
      let same : more (x - half) half ≡ x = omega (arith, more_lem (x - half) half) in
      omega (arith, rw same at (surplus_all (x - half) half (y / 2) half (omega arith)))
