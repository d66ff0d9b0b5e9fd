-- ===== src/Base/Table.antt =====
-- A statement about a small range, checked by evaluation at every value.
use Prim.Native.Nat.{ℕ, zero, suc, ◌<◌}
use mathlib.Core.Path.{◌≡◌, refl}
use mathlib.Core.Bool.{Bool, true, ◌&&◌}
use native.Mathlib.Omega.{arith}

unfoldable pub all_below : (ℕ → Bool) → ℕ → Bool
all_below test zero = true
all_below test (suc bound) = all_below test bound && test bound

pub all_below_sound :
    (test : ℕ → Bool) (bound x : ℕ) → x < bound → all_below test bound ≡ true → test x ≡ true
unfolding all_below
all_below_sound test zero x small all = absurd (omega arith)
all_below_sound test (suc bound) x small all = ground (arith, all_below_sound test bound x)

pub all_below_complete :
    (test : ℕ → Bool) (bound : ℕ)
    → ((x : ℕ) → x < bound → test x ≡ true)
    → all_below test bound ≡ true
unfolding all_below
all_below_complete test zero h = refl
all_below_complete test (suc bound) h =
    rw (all_below_complete test bound (λ x small. h x (omega arith)), h bound (omega arith)) refl
