-- ===== src/I2c/Frequency.antt =====
-- targets/stm32l/hw/I2C.cpp: the timing of the bus for a frequency.
pub mod Timing
use lib_stm.Base.{
  ℕ, zero, suc, ◌+◌, ◌-◌, ◌*◌, ◌/◌, ◌^◌, ◌==◌, ltb, ◌||◌, bit_or, u32, if◌then◌else◌, Option, none,
  some,
}

unfoldable pub diff : ℕ → ℕ → ℕ
diff a b = if ltb b a then a - b else b - a

-- The arguments are `SystemCoreClock` and the frequency that is asked for.
module _ (clock freq : ℕ) where
  -- The search from the prescaler `presc` down: the frequency of the best candidate, 0 for none, and
  -- its prescaler.
  unfoldable pub search_presc : ℕ → ℕ → ℕ → ℕ × ℕ
  search_presc zero best best_presc = (best, best_presc)
  search_presc (suc presc) best best_presc =
      let clk = clock / suc presc in
      let tbit = clk / freq in
      let scll = u32 (tbit * 7) / 11 in
      let res = clk / tbit in
      let skipped = search_presc presc best best_presc in
      let taken = search_presc presc res (suc presc) in
      if ltb 256 scll || ltb scll 5
      then skipped
      else if ltb (diff freq res) (diff best res)
      then (if res == freq then (res, suc presc) else taken)
      else skipped

  -- The value of TIMINGR for a prescaler.
  unfoldable pub timing : ℕ → ℕ
  timing presc =
      let tbit = clock / presc / freq in
      let scll = u32 (tbit * 5) / 11 in
      let sclh = tbit - scll in
      bit_or
        (bit_or (bit_or (bit_or (u32 ((presc - 1) * 2 ^ 28)) (u32 ((sclh - 1) * 2 ^ 8))) (scll - 1))
          (3 * 2 ^ 20))
        (2 * 2 ^ 16)

  -- What `OutputFrequency` writes to TIMINGR, or none if its assertion fails.
  unfoldable pub output_frequency : Option ℕ
  output_frequency =
      let (best, best_presc) = search_presc 16 0 0 in
      if best == 0 then none else some (timing best_presc)
