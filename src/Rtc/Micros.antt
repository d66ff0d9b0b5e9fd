-- ===== src/Rtc/Micros.antt =====
-- targets/stm32-rtc-timing/base/stm32_rtc.cpp: the microseconds are those of the ticks.
use lib_stm.Base.{
  ℕ, ◌+◌, ◌*◌, ◌/◌, ◌%◌, ◌^◌, ◌<◌, ◌==◌, ==_iff, ◌≡◌, refl, Bool-cases, inl, inr, List, [], ◌∷◌,
  u32, sub32, arith,
}
use mathlib.Core.Path.{ap₂}
use lib_stm.Rtc.{Clock, Micro, rtc_mono, rtc_us, us_factor}
use lib_stm.Rtc.Ticks.{IsDownCounter, Tracks, mono-Tracks, Spaced}

-- After `total` ticks: the 64-bit count is that number, and the last reading is its low part.
pub record Follows (total : ℕ) (s : Micro) : Type 0 where
  pub exact : s.t64 ≡ total % 2 ^ 64
  pub low : s.last ≡ u32 total

-- The product overflows 64 bits, but only above the bits that are returned.
product_lem :
    (total : ℕ)
    → u32 (total % 2 ^ 64 * 131072000000 % 2 ^ 64 / 2 ^ 32) ≡ u32 (total * 1000000 / 32768)
product_lem total = omega arith

us-Follows :
    (total n : ℕ) (s : Micro)
    → n < 2 ^ 32
    → Follows total s
    → Follows (total + n) (rtc_us 32768 (u32 (total + n)) s).0
      × ((rtc_us 32768 (u32 (total + n)) s).1 ≡ u32 ((total + n) * 1000000 / 32768))
unfolding rtc_us us_factor
us-Follows total n s k v = elim (Bool-cases (n == 0)) [
  | inl still ↦
      let z : n ≡ 0 = (==_iff n 0).0 still in
      let here : total + n ≡ total = omega arith in
      rw (e, still, here) (v, simp v.exact (product_lem total))
  | inr moved ↦
      let sum : (s.t64 + n) % 2 ^ 64 ≡ (total + n) % 2 ^ 64 = omega (arith, v.exact) in
      rw (e, moved, sum) (record { exact = refl; low = refl }, product_lem (total + n))
]
  where
    e : sub32 (u32 (total + n)) s.last ≡ n
    e = omega (arith, v.low)

-- `_stm32_rtc_us` with its call: both states.
unfoldable pub read_us : ℕ → Clock → Micro → Clock × Micro × ℕ
read_us val s m =
    let (s', mono) = rtc_mono val s in let (m', us) = rtc_us 32768 mono m in (s', m', us)

-- The microseconds of readings `n` ticks apart for each `n` of the list.
unfoldable pub us_readings : (ℕ → ℕ) → ℕ → List ℕ → Clock → Micro → List ℕ
us_readings ssr t [] s m = []
us_readings ssr t (n ∷ ns) s m =
    let (s', m', us) = read_us (ssr (t + n)) s m in us ∷ us_readings ssr (t + n) ns s' m'

unfoldable pub true_micros : ℕ → ℕ → List ℕ → List ℕ
true_micros k t [] = []
true_micros k t (n ∷ ns) = u32 ((k + (t + n)) * 1000000 / 32768) ∷ true_micros k (t + n) ns

-- If the time is read at least once in each turn of the counter, which runs at 32768 Hz, the values
-- returned are the microseconds of the true number of ticks, rounded down, modulo 2 ^ 32, in every
-- reading and for however long: neither the 15-bit counter, nor the 32-bit count of ticks, nor the
-- product of 64 bits spoils them when it overflows.
pub us_readings-eq-true_micros :
    (ssr : ℕ → ℕ)
    → IsDownCounter ssr
    → (k t : ℕ) (ns : List ℕ) (s : Clock) (m : Micro) → Spaced t ns
    → Tracks ssr k t s
    → Follows (k + t) m
    → us_readings ssr t ns s m ≡ true_micros k t ns
unfolding us_readings true_micros read_us
us_readings-eq-true_micros ssr c k t [] s m h v w = refl
us_readings-eq-true_micros ssr c k t (n ∷ ns) s m h v w = rw r.1 (
    ap₂ (λ x xs. x ∷ xs) q.1
      (us_readings-eq-true_micros ssr c k (t + n) ns (rtc_mono (ssr (t + n)) s).0
        (rtc_us 32768 (u32 (k + (t + n))) m).0 h.1 r.0 q.0))
  where
    r :
        Tracks ssr k (t + n) (rtc_mono (ssr (t + n)) s).0
        × ((rtc_mono (ssr (t + n)) s).1 ≡ u32 (k + (t + n)))
    r = mono-Tracks ssr c k t n s h.0 v

    sum : k + t + n ≡ k + (t + n)
    sum = omega arith

    q :
        Follows (k + (t + n)) (rtc_us 32768 (u32 (k + (t + n))) m).0
        × ((rtc_us 32768 (u32 (k + (t + n))) m).1 ≡ u32 ((k + (t + n)) * 1000000 / 32768))
    q = rw sum at (us-Follows (k + t) n m (omega (arith, h.0)) w)
