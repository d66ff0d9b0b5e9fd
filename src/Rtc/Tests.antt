-- ===== src/Rtc/Tests.antt =====
-- targets/stm32-rtc-timing/base/stm32_rtc.cpp: the time read across the end of the counter.
use lib_stm.Base.{ℕ, ◌-◌, ◌%◌, ◌≡◌, refl, [], ◌∷◌, arith}
use lib_stm.Rtc.{Clock, Micro, rtc_mono}
use lib_stm.Rtc.Ticks.{IsDownCounter, Tracks, readings, true_ticks, readings-eq-true_ticks}
use lib_stm.Rtc.Micros.{Follows, us_readings, true_micros, us_readings-eq-true_micros}

-- The counter that starts at its top.
abbrev counter : ℕ → ℕ
counter t = 32767 - t % 32768

counter-IsDownCounter : IsDownCounter counter
counter-IsDownCounter = record { small = λ t. omega arith; down = λ t. omega arith }

-- Read at tick 32000, the count close to its end at 2 ^ 32.
abbrev read_at_32000 : Clock
read_at_32000 = record { last = 767; mono = 4294967000 }

read_at_32000-Tracks : Tracks counter 4294935000 32000 read_at_32000
read_at_32000-Tracks = record { counted = omega arith; at = omega arith }

abbrev micros_at_32000 : Micro
micros_at_32000 = record { last = 4294967000; t64 = 4294967000 }

micros_at_32000-Follows : Follows 4294967000 micros_at_32000
micros_at_32000-Follows = record { exact = omega arith; low = omega arith }

readings-eq-true_ticks_example :
    readings counter 32000 (1000 ∷ 0 ∷ 32767 ∷ []) read_at_32000
    ≡ true_ticks 4294935000 32000 (1000 ∷ 0 ∷ 32767 ∷ [])
readings-eq-true_ticks_example =
    readings-eq-true_ticks counter counter-IsDownCounter 4294935000 32000 (1000 ∷ 0 ∷ 32767 ∷ [])
      read_at_32000 (omega arith, (omega arith, (omega arith, tt))) read_at_32000-Tracks

us_readings-eq-true_micros_example :
    us_readings counter 32000 (1000 ∷ 32767 ∷ []) read_at_32000 micros_at_32000
    ≡ true_micros 4294935000 32000 (1000 ∷ 32767 ∷ [])
us_readings-eq-true_micros_example =
    us_readings-eq-true_micros counter counter-IsDownCounter 4294935000 32000 (1000 ∷ 32767 ∷ [])
      read_at_32000 micros_at_32000 (omega arith, (omega arith, tt)) read_at_32000-Tracks
      micros_at_32000-Follows

-- The second reading is across the end of the counter and of the 32 bits.
wrapped_test : readings counter 32000 (1000 ∷ []) read_at_32000 ≡ 704 ∷ []
unfolding readings rtc_mono
wrapped_test = refl
