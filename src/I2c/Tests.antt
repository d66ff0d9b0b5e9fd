-- ===== src/I2c/Tests.antt =====
-- targets/stm32l/hw/I2C.cpp: a write of 600 bytes.
use lib_stm.Base.{
  ◌-◌, ◌*◌, ◌/◌, not, ◌&&◌, ◌≡◌, ◌⊎◌, refl, true, false, inl, none, some, List, [], ◌∷◌, map, arith,
}
use lib_stm.I2c.{
  Next, Cr2, Device, Bus, Answer, transfer, transfer_loop, acquire, succeeded, release, command,
}
use lib_stm.I2c.Outcome.{Progresses, IsIdle, IsDone, IsBroken, transfer_cases}
use lib_stm.I2c.Frequency.{diff, search_presc, timing, output_frequency}
use lib_stm.I2c.Frequency.Timing.{IsTimed, output_frequency-IsTimed}
use lib_stm.I2c.Plan.{Completes, plan, written, transfer-plan}

abbrev device : Device
device = record { address = 80; active = false; reloaded = false; wx = 0 }

abbrev bus : Bus
bus = record { locked = false; commands = []; resets = 0 }

abbrev good : List Cr2 → Answer
good [] = record { in_time = false; error = false; moved = 0 }
good (c ∷ cs) = record { in_time = true; error = false; moved = c.nbytes }

good-Completes : Completes good
good-Completes = record {
  in_time = λ c cs. refl;
  no_error = λ c cs. refl;
  all_moved = λ c cs. refl;
}

transfer-plan_example :
    (transfer good false Next.halt 600 4 device bus).bus.commands
    ≡ written
        (plan false 80 Next.halt
          (not (device.active && device.reloaded))
          ((600 - 1) / 255)
          (600 - (600 - 1) / 255 * 255))
        []
transfer-plan_example =
    transfer-plan good good-Completes false Next.halt 600 4 device bus (omega arith) (omega arith)

lengths_test :
    map (λ c. c.nbytes) (transfer good false Next.halt 600 4 device bus).bus.commands
    ≡ 90 ∷ 255 ∷ 255 ∷ []
unfolding transfer transfer_loop acquire command succeeded release
lengths_test = refl

-- The device does not acknowledge its second command.
abbrev refused : List Cr2 → Answer
refused [] = record { in_time = true; error = false; moved = 1 }
refused (c ∷ []) = record { in_time = true; error = false; moved = 255 }
refused (c ∷ c' ∷ cs) = record { in_time = true; error = true; moved = 0 }

refused-Progresses : Progresses refused
refused-Progresses [] h = omega arith
refused-Progresses (c ∷ []) h = omega arith
refused-Progresses (c ∷ c' ∷ cs) h = absurd (cc h)

device-IsIdle : IsIdle device bus
device-IsIdle = inl (record { active = refl; reloaded = refl; locked = refl })

transfer_cases_example :
    IsDone refused Next.halt 600 bus (transfer refused true Next.halt 600 601 device bus)
    ⊎ IsBroken bus (transfer refused true Next.halt 600 601 device bus)
transfer_cases_example =
    transfer_cases refused refused-Progresses true Next.halt 600 601 device bus device-IsIdle
      (omega arith)

-- 100 kHz at 80 MHz, and 1 kHz, which is too slow for any prescaler.
output_frequency-IsTimed_example : IsTimed 80000000 100000 (output_frequency 80000000 100000)
output_frequency-IsTimed_example =
    output_frequency-IsTimed 80000000 100000 (omega arith) (omega arith)

output_frequency_fast : output_frequency 80000000 100000 ≡ some 4029815573
unfolding output_frequency search_presc timing diff
output_frequency_fast = refl

output_frequency_slow : output_frequency 80000000 1000 ≡ none
unfolding output_frequency search_presc timing diff
output_frequency_slow = refl
