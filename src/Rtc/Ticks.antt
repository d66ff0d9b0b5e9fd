-- ===== src/Rtc/Ticks.antt =====
-- targets/stm32-rtc-timing/base/stm32_rtc.cpp: the ticks returned are the ticks that went by.
use lib_stm.Base.{
  ℕ, zero, suc, ◌+◌, ◌*◌, ◌%◌, ◌<◌, ◌==◌, ==_iff, ◌≡◌, refl, ap, ◌∙◌, Bool-cases, inl, inr, List,
  [], ◌∷◌, bit_and, bit_and-ones, u32, sub32, arith,
}
use mathlib.Core.Path.{ap₂}
use lib_stm.Rtc.{Clock, rtc_mono, reset_clock}

-- The counter as its manual has it with the prescaler that the code sets: it counts down by one in
-- each tick, from 32767 again after 0. `ssr t` is its value at tick `t`.
pub record IsDownCounter (ssr : ℕ → ℕ) : Type 0 where
  pub small : (t : ℕ) → ssr t < 32768
  pub down : (t : ℕ) → ssr (suc t) ≡ (ssr t + 32767) % 32768

-- `n` ticks later.
pub ssr-later : (ssr : ℕ → ℕ) → IsDownCounter ssr → (t n : ℕ) → (ssr (t + n) + n) % 32768 ≡ ssr t
ssr-later ssr c t zero = let e : t + 0 ≡ t = omega arith in rw e (omega (arith, c.small t))
ssr-later ssr c t (suc n) =
    let e : t + suc n ≡ suc (t + n) = omega arith in
    rw e (omega (arith, c.down (t + n), ssr-later ssr c t n))

-- The masked difference of two readings less than a turn apart is the number of ticks between them.
pub elapsed_lem :
    (ssr : ℕ → ℕ)
    → IsDownCounter ssr
    → (t n : ℕ) → n < 32768
    → bit_and (sub32 (ssr t) (ssr (t + n))) 32767 ≡ n
elapsed_lem ssr c t n h =
    bit_and-ones 15 (sub32 (ssr t) (ssr (t + n)))
    ∙ omega (arith, c.small t, c.small (t + n), ssr-later ssr c t n)

-- The state follows the counter: at tick `t` it was read, and the ticks are `k` ahead of `t`.
pub record Tracks (ssr : ℕ → ℕ) (k t : ℕ) (s : Clock) : Type 0 where
  pub counted : s.mono ≡ u32 (k + t)
  pub at : s.last ≡ ssr t

pub mono-Tracks :
    (ssr : ℕ → ℕ)
    → IsDownCounter ssr
    → (k t n : ℕ) (s : Clock) → n < 32768
    → Tracks ssr k t s
    → Tracks ssr k (t + n) (rtc_mono (ssr (t + n)) s).0
      × ((rtc_mono (ssr (t + n)) s).1 ≡ u32 (k + (t + n)))
unfolding rtc_mono
mono-Tracks ssr c k t n s h v = elim (Bool-cases (n == 0)) [
  | inl still ↦
      let z : n ≡ 0 = (==_iff n 0).0 still in
      let here : t + n ≡ t = omega arith in rw (e, still, here) (v, v.counted)
  | inr moved ↦ rw (e, moved) (record { counted = sum; at = refl }, sum)
]
  where
    e : bit_and (sub32 s.last (ssr (t + n))) 32767 ≡ n
    e = ap (λ l. bit_and (sub32 l (ssr (t + n))) 32767) v.at ∙ elapsed_lem ssr c t n h

    sum : u32 (s.mono + n) ≡ u32 (k + (t + n))
    sum = omega (arith, v.counted)

-- The first reading after the reset of the state starts the count somewhere, in step from then on.
pub start-Tracks :
    (ssr : ℕ → ℕ)
    → IsDownCounter ssr
    → (t : ℕ) → (k : ℕ) × Tracks ssr k t (rtc_mono (ssr t) reset_clock).0
unfolding rtc_mono
start-Tracks ssr c t = elim (Bool-cases (first == 0)) [
  | inl still ↦
      let z : first ≡ 0 = (==_iff first 0).0 still in
      (
        t * 4294967295,
        rw still (record { counted = omega arith; at = omega (arith, value, c.small t) }),
      )
  | inr moved ↦ (first + t * 4294967295, rw moved (record { counted = omega arith; at = refl }))
]
  where
    first : ℕ
    first = bit_and (sub32 0 (ssr t)) 32767

    value : first ≡ sub32 0 (ssr t) % 32768
    value = bit_and-ones 15 (sub32 0 (ssr t))

-- Readings at the ticks of a list, each less than a turn of the counter after the one before.
abbrev pub Spaced : ℕ → List ℕ → Type 0
Spaced t [] = Unit
Spaced t (n ∷ ns) = (n < 32768) × Spaced (t + n) ns

-- The ticks that the readings return, `n` ticks apart for each `n` of the list.
unfoldable pub readings : (ℕ → ℕ) → ℕ → List ℕ → Clock → List ℕ
readings ssr t [] s = []
readings ssr t (n ∷ ns) s =
    (rtc_mono (ssr (t + n)) s).1 ∷ readings ssr (t + n) ns (rtc_mono (ssr (t + n)) s).0

unfoldable pub true_ticks : ℕ → ℕ → List ℕ → List ℕ
true_ticks k t [] = []
true_ticks k t (n ∷ ns) = u32 (k + (t + n)) ∷ true_ticks k (t + n) ns

-- If the time is read often enough, at least once in each turn of the 15-bit counter, the values
-- returned are the true number of ticks, modulo 2 ^ 32, in every reading: no turn is lost or counted
-- twice.
pub readings-eq-true_ticks :
    (ssr : ℕ → ℕ)
    → IsDownCounter ssr
    → (k t : ℕ) (ns : List ℕ) (s : Clock) → Spaced t ns
    → Tracks ssr k t s
    → readings ssr t ns s ≡ true_ticks k t ns
unfolding readings true_ticks
readings-eq-true_ticks ssr c k t [] s h v = refl
readings-eq-true_ticks ssr c k t (n ∷ ns) s h v =
    let r = mono-Tracks ssr c k t n s h.0 v in
    ap₂ (λ x xs. x ∷ xs) r.1
      (readings-eq-true_ticks ssr c k (t + n) ns (rtc_mono (ssr (t + n)) s).0 h.1 r.0)
