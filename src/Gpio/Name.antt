-- ===== src/Gpio/Name.antt =====
-- targets/stm32l/hw/GPIO.cpp: the names of pins and ranges of pins.
pub mod Reading
use lib_stm.Base.{
  ℕ, zero, suc, ◌+◌, ◌-◌, ◌*◌, ◌/◌, ◌%◌, ◌==◌, ltb, leb, if◌then◌else◌, Option, none, some, List,
  [], ◌∷◌, ◌++◌,
}
use mathlib.Core.Option
use lib_stm.Gpio.Pins.{Pin, get_index, index, size}

-- A number below 100.
unfoldable pub digits : ℕ → List ℕ
digits n = if ltb n 10 then (b'0' + n) ∷ [] else (b'0' + n / 10) ∷ (b'0' + n % 10) ∷ []

-- The loop that writes the first and, for a range, the last number: none if the fuel is not enough.
unfoldable pub numbers : ℕ → ℕ → ℕ → Option (List ℕ)
numbers zero n left = none
numbers (suc fuel) n left =
    let rest = numbers fuel (n + left - 1) 0 in
    if leb left 1 then some (digits n) else Option.map (λ l. digits n ++ b':' ∷ l) rest

-- `Name`: the bytes of the text, with its end mark.
unfoldable pub name : ℕ → ℕ → Pin → Option (List ℕ)
name gpioa gpiob p =
    if p.mask == 0
    then some (b'P' ∷ b'x' ∷ 0 ∷ [])
    else Option.map (λ l. (b'A' + get_index gpioa gpiob p.port) ∷ l ++ 0 ∷ [])
        (numbers 2 (index p) (size p))
