-- ===== src/Baud/Tests.antt =====
-- targets/stm32l/hw/USART.cpp: 115200 baud at 48 MHz.
use lib_stm.Base.{ℕ, ◌*◌, ◌<◌, ◌≡◌, refl, arith}
use lib_stm.Base.Masks.{modmask}
use lib_stm.Baud.{diff, clkdiv, clkdiv8, over8, baud_rate}
use lib_stm.Baud.Nearest.{IsNearest, IsChosen, divider8, baud_rate-IsChosen}

baud_rate-IsChosen_example :
    (d : ℕ) × (d8 : ℕ) × IsNearest 48000000 115200 d
    × IsNearest (48000000 * 2) 115200 d8
    × (0 < d)
    × (0 < d8)
    × IsChosen 48000000 115200 0 d d8 (baud_rate 48000000 115200 0)
baud_rate-IsChosen_example =
    baud_rate-IsChosen 48000000 115200 0 (omega arith) (omega arith) (omega arith)

-- The rate that is returned, and the divider of the double clock that BRR stands for: 832 of the 833
-- that were meant, which makes 115384 baud.
baud_test : (baud_rate 48000000 115200 0).final ≡ 115246
unfolding baud_rate clkdiv clkdiv8 over8 diff modmask
baud_test = refl

divider_test : divider8 (baud_rate 48000000 115200 0).brr ≡ 832
unfolding baud_rate clkdiv clkdiv8 over8 diff modmask
divider_test = refl
