-- ===== src/Elf2dfuse/Crc.antt =====
-- `crc32_calc` of elf2dfuse/elf2dfuse.c.
pub mod Bitwise
use lib_stm.Base.{ℕ, ◌/◌, List, [], ◌∷◌, get_or, bit_and, bit_xor}
use lib_stm.Elf2dfuse.CrcTable.{crc32_table}

-- The body of the loop.
unfoldable pub crc32_step : ℕ → ℕ → ℕ
crc32_step crc b = bit_xor (get_or crc32_table (bit_and (bit_xor crc b) 0xff) 0) (crc / 256)

-- `buffer` is the list of the `length` bytes that the loop reads.
unfoldable pub crc32_calc : ℕ → List ℕ → ℕ
crc32_calc crc [] = crc
crc32_calc crc (b ∷ buffer) = crc32_calc (crc32_step crc b) buffer
