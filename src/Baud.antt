-- ===== src/Baud.antt =====
-- targets/stm32l/hw/USART.cpp: the baud rate of a USART.
pub mod Nearest
mod Tests
use lib_stm.Base.{ℕ, ◌+◌, ◌-◌, ◌*◌, ◌/◌, ltb, Bool, bit_and, bit_or, not32, u32, if◌then◌else◌}
use lib_stm.Base.Masks.{modmask}

unfoldable pub diff : ℕ → ℕ → ℕ
diff a b = if ltb b a then a - b else b - a

-- The registers BRR and CR1, and the rate that is returned.
pub record Baud : Type 0 where
  pub brr : ℕ
  pub cr1 : ℕ
  pub final : ℕ

-- `pclk` is SystemCoreClock; USART_CR1_OVER8 is bit 15.
module _ (pclk rate : ℕ) where
  unfoldable pub clkdiv : ℕ
  clkdiv = u32 (pclk + rate / 2) / rate

  unfoldable pub clkdiv8 : ℕ
  clkdiv8 = u32 (u32 (pclk * 2) + rate / 2) / rate

  unfoldable pub over8 : Bool
  over8 = ltb (diff (u32 (pclk * 2) / clkdiv8) rate) (diff (pclk / clkdiv) rate)

  unfoldable pub baud_rate : ℕ → Baud
  baud_rate cr1 =
      if over8
      then record {
        brr = bit_or (bit_and clkdiv8 (not32 15)) (bit_and clkdiv8 15 / 2);
        cr1 = modmask cr1 32768 32768;
        final = u32 (pclk * 2) / clkdiv8;
      }
      else record { brr = clkdiv; cr1 = modmask cr1 32768 0; final = pclk / clkdiv }
