-- ===== src/I2c/Frequency/Timing.antt =====
-- targets/stm32l/hw/I2C.cpp: the prescaler that is found, and the fields of the timing.
use lib_stm.Base.{
  ℕ, zero, suc, ◌+◌, ◌-◌, ◌*◌, ◌/◌, ◌^◌, ◌≤◌, ◌<◌, ◌==◌, ==_iff, ltb, ◌||◌, ◌≡◌, ◌⊎◌, Bool, refl,
  ap, ◌∙◌, true, false, Bool-cases, inl, inr, bit_or, bit_or_fields, bit_or-shifted, bit_or_comm,
  u32, if◌then◌else◌, Option, none, some, arith,
}
use native.Mathlib.Nat.{le-div_iff_mul-le, mul-div-le, div-le_self}
use lib_stm.I2c.Frequency.{diff, search_presc, timing, output_frequency}

-- A prescaler with which a bit takes 8 to 403 cycles.
pub record Suits (clock freq presc : ℕ) : Type 0 where
  pub least : 1 ≤ presc
  pub most : presc ≤ 16
  pub long : 8 ≤ clock / presc / freq
  pub short : clock / presc / freq ≤ 403

-- The frequency that comes of a bit time is not below the one that was asked for.
reaches : (clk freq : ℕ) → 0 < freq → 0 < clk / freq → freq ≤ clk / (clk / freq)
reaches clk freq pos bits = (le-div_iff_mul-le bits).1 (mul-div-le clk freq)

-- Four fields that do not overlap.
fields :
    (presc high low : ℕ)
    → presc < 16
    → high < 256
    → low < 256
    → bit_or
        (bit_or (bit_or (bit_or (presc * 2 ^ 28) (high * 2 ^ 8)) low) (3 * 2 ^ 20))
        (2 * 2 ^ 16)
      ≡ presc * 268435456 + 3 * 1048576 + 2 * 65536 + high * 256 + low
fields presc high low hp hh hl =
    ap (λ x. bit_or (bit_or (bit_or x low) (3 * 2 ^ 20)) (2 * 2 ^ 16)) first
    ∙ ap (λ x. bit_or (bit_or x (3 * 2 ^ 20)) (2 * 2 ^ 16)) second
    ∙ ap (λ x. bit_or x (2 * 2 ^ 16)) third
    ∙ omega (
      arith,
      again,
      bit_or-shifted 16 (presc * 4096 + 48) (high * 256 + low) 2 (omega arith),
      bit_or_comm (presc * 4096 + 48) 2,
    )
  where
    again : bit_or 2 (presc * 4096 + 48) ≡ presc * 4096 + 50
    again =
        let e : presc * 4096 + 48 ≡ (presc * 256 + 3) * 2 ^ 4 = omega arith in
        ap (bit_or 2) e ∙ bit_or_fields 4 (presc * 256 + 3) 2 (omega arith) ∙ omega arith

    first : bit_or (presc * 2 ^ 28) (high * 2 ^ 8) ≡ (presc * 1048576 + high) * 2 ^ 8
    first = omega (
      arith,
      bit_or_comm (presc * 2 ^ 28) (high * 2 ^ 8),
      bit_or_fields 28 presc (high * 2 ^ 8) (omega arith),
    )

    second :
        bit_or ((presc * 1048576 + high) * 2 ^ 8) low ≡ presc * 256 * 2 ^ 20 + (high * 256 + low)
    second = omega (
      arith,
      bit_or_comm ((presc * 1048576 + high) * 2 ^ 8) low,
      bit_or_fields 8 (presc * 1048576 + high) low (omega arith),
    )

    third :
        bit_or (presc * 256 * 2 ^ 20 + (high * 256 + low)) (3 * 2 ^ 20)
        ≡ (presc * 4096 + 48) * 2 ^ 16 + (high * 256 + low)
    third = omega (
      arith,
      bit_or-shifted 20 (presc * 256) (high * 256 + low) 3 (omega arith),
      bit_or_comm (presc * 256) 3,
      bit_or_fields 8 presc 3 (omega arith),
    )

module _ (clock freq : ℕ) (pos : 0 < freq) (slow : clock * 7 < 4294967296) where
  abbrev unfit : ℕ → Bool
  unfit presc =
      ltb 256 (u32 (clock / presc / freq * 7) / 11) || ltb (u32 (clock / presc / freq * 7) / 11) 5

  bit_time-le : (presc : ℕ) → clock / presc / freq ≤ clock
  bit_time-le presc = omega (arith, div-le_self (clock / presc) freq, div-le_self clock presc)

  fit : (presc : ℕ) → 1 ≤ presc → presc ≤ 16 → unfit presc ≡ false → Suits clock freq presc
  fit presc least most h = record {
    least = least;
    most = most;
    long = ground (arith, bit_time-le presc);
    short = ground (arith, bit_time-le presc);
  }

  not_fit : (presc : ℕ) → unfit presc ≡ true → ¬ Suits clock freq presc
  not_fit presc h s = ground (arith, bit_time-le presc, s.long, s.short)

  -- The first candidate is taken.
  first_taken :
      (presc : ℕ)
      → Suits clock freq presc
      → ltb
          (diff freq (clock / presc / (clock / presc / freq)))
          (diff 0 (clock / presc / (clock / presc / freq)))
        ≡ true
  unfolding diff
  first_taken presc s = ground (arith, reaches (clock / presc) freq pos (omega (arith, s.long)))

  -- What the search gives: a prescaler that suits, or none, and then none below it does.
  IsBest : ℕ → ℕ → ℕ × ℕ → Type 0
  IsBest n best r =
      ((0 < r.0) × Suits clock freq r.1)
      ⊎ ((r.0 ≡ 0) × (best ≡ 0) × ((k : ℕ) → 1 ≤ k → k ≤ n → ¬ Suits clock freq k))

  further :
      (n best : ℕ) (r : ℕ × ℕ)
      → (best ≡ 0 → ¬ Suits clock freq (suc n))
      → IsBest n best r
      → IsBest (suc n) best r
  unfolding IsBest
  further n best r nothing_here (inl found) = inl found
  further n best r nothing_here (inr (nothing, start, others)) = inr (
    nothing,
    start,
    λ k low high. elim (Bool-cases (k == suc n)) [
      | inl this ↦ rw ((==_iff k (suc n)).0 this) (nothing_here start)
      | inr other ↦ others k low (ground arith)
    ],
  )

  found_one :
      (n best : ℕ) (r : ℕ × ℕ) → 0 < best → IsBest n best r → (m best' : ℕ) → IsBest m best' r
  unfolding IsBest
  found_one n best r p (inl found) m best' = inl found
  found_one n best r p (inr (nothing, start, others)) m best' = absurd (omega arith)

  search_presc-IsBest :
      (n best best_presc : ℕ)
      → n ≤ 16
      → (best ≡ 0) ⊎ ((0 < best) × Suits clock freq best_presc)
      → IsBest n best (search_presc clock freq n best best_presc)
  unfolding search_presc IsBest
  search_presc-IsBest zero best best_presc h (inl e) =
      inr (e, e, λ k low high. absurd (omega arith))
  search_presc-IsBest zero best best_presc h (inr (p, s)) = inl (p, s)
  search_presc-IsBest (suc n) best best_presc h known = elim (Bool-cases (unfit (suc n))) [
    | inl u ↦ rw u (
        further n best (search_presc clock freq n best best_presc) (λ start. not_fit (suc n) u)
          (search_presc-IsBest n best best_presc (omega arith) known))
    | inr f ↦
        let s = fit (suc n) (omega arith) h f in
        rw f (elim (Bool-cases better) [
          | inl t ↦ rw t (elim (Bool-cases (res == freq)) [
            | inl exact ↦ rw exact (inl (some_res s, s))
            | inr other ↦ rw other (
                found_one n res (search_presc clock freq n res (suc n)) (some_res s)
                  (search_presc-IsBest n res (suc n) (omega arith) (inr (some_res s, s))) (suc n)
                  best)
          ])
          | inr t ↦ rw t (
              further n best (search_presc clock freq n best best_presc)
                (λ start. absurd (taken s t start))
                (search_presc-IsBest n best best_presc (omega arith) known))
        ])
  ]
    where
      res : ℕ
      res = clock / suc n / (clock / suc n / freq)

      better : Bool
      better = ltb (diff freq res) (diff best res)

      some_res : Suits clock freq (suc n) → 0 < res
      some_res s = omega (arith, reaches (clock / suc n) freq pos (omega (arith, s.long)))

      taken : Suits clock freq (suc n) → better ≡ false → best ≡ 0 → ⊥
      taken s t start =
          cc (t, first_taken (suc n) s, ap (λ (b : ℕ). ltb (diff freq res) (diff b res)) start)

  timing_lem :
      (presc : ℕ)
      → Suits clock freq presc
      → (high : ℕ) × (low : ℕ) × (1 ≤ low)
        × (low ≤ high)
        × (high ≤ 256)
        × (low + high ≡ clock / presc / freq)
        × (timing clock freq presc
            ≡ (presc - 1) * 268435456 + 3 * 1048576 + 2 * 65536 + (high - 1) * 256 + (low - 1))
  unfolding timing
  timing_lem presc s = (
    high,
    low,
    omega (arith, s.long),
    omega arith,
    omega (arith, s.short),
    omega arith,
    rw (first, second)
        (fields (presc - 1) (high - 1) (low - 1) (omega (arith, s.least, s.most))
          (omega (arith, s.short)) (omega (arith, s.short))),
  )
    where
      low : ℕ
      low = u32 (clock / presc / freq * 5) / 11

      high : ℕ
      high = clock / presc / freq - low

      first : u32 ((presc - 1) * 2 ^ 28) ≡ (presc - 1) * 2 ^ 28
      first = omega (arith, s.most)

      second : u32 ((high - 1) * 2 ^ 8) ≡ (high - 1) * 2 ^ 8
      second = omega (arith, s.short)

-- What may be written to TIMINGR: nothing if no prescaler suits, else one that suits, and the low and
-- the high period, in fields of eight bits that do not overlap.
abbrev pub IsTimed : ℕ → ℕ → Option ℕ → Type 0
IsTimed clock freq o =
    ((o ≡ none) × ((k : ℕ) → 1 ≤ k → k ≤ 16 → ¬ Suits clock freq k))
    ⊎ ((presc : ℕ) × (high : ℕ) × (low : ℕ) × Suits clock freq presc
        × (1 ≤ low)
        × (low ≤ high)
        × (high ≤ 256)
        × (low + high ≡ clock / presc / freq)
        × (o
            ≡ some
                ((presc - 1) * 268435456 + 3 * 1048576 + 2 * 65536 + (high - 1) * 256 + (low - 1))))

module _ (clock freq : ℕ) (pos : 0 < freq) (slow : clock * 7 < 4294967296) where
  of_search :
      (best presc : ℕ)
      → IsBest clock freq pos slow 16 0 (best, presc)
      → IsTimed clock freq (if best == 0 then none else some (timing clock freq presc))
  unfolding IsBest
  of_search best presc (inr (nothing, start, others)) = rw nothing (inl (refl, others))
  of_search best presc (inl (p, s)) =
      let found : (best == 0) ≡ false = ground arith in
      let t = timing_lem clock freq pos slow presc s in
      rw found (inr (presc, t.0, t.1, s, t.2, t.3, t.4, t.5, ap some t.6))

-- `OutputFrequency`, for a frequency other than 0 and a core clock below 613 MHz. If no prescaler from 1
-- to 16 makes a bit take 8 to 403 cycles, the assertion fails. Else TIMINGR gets such a prescaler,
-- and in fields of eight bits that do not overlap the low and the high period, which together are
-- the cycles of a bit, the low one not longer than the high one.
pub output_frequency-IsTimed :
    (clock freq : ℕ)
    → 0 < freq
    → clock * 7 < 4294967296
    → IsTimed clock freq (output_frequency clock freq)
unfolding output_frequency
output_frequency-IsTimed clock freq pos slow =
    of_search clock freq pos slow (search_presc clock freq 16 0 0).0
      (search_presc clock freq 16 0 0).1
      (search_presc-IsBest clock freq pos slow 16 0 0 (omega arith) (inl refl))
