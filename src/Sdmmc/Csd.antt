-- ===== src/Sdmmc/Csd.antt =====
-- targets/stm32l/hw/SDMMC.h: the fields of CSD, the register that describes a card.
pub mod Fields
use lib_stm.Base.{
  ℕ, zero, suc, ◌+◌, ◌-◌, ◌*◌, ◌/◌, ◌%◌, ◌^◌, ◌==◌, Bool, not, bit_or, if◌then◌else◌, u32,
}
use lib_stm.Sdmmc.Identify.{Response}

-- The byte at place `i` of a word in memory, the lowest first.
abbrev pub byte : ℕ → ℕ → ℕ
byte i x = x / 2 ^ (8 * i) % 256

-- The four words of a response, the first one first.
abbrev pub response_word : Response → ℕ → ℕ
response_word r zero = r.resp1
response_word r (suc zero) = r.resp2
response_word r (suc (suc zero)) = r.resp3
response_word r (suc (suc (suc i))) = r.resp4

-- `from_be32` and `from_be16` stand for FROM_BE32 and FROM_BE16.
module _ (from_be32 from_be16 : ℕ → ℕ) where
  -- `ResultCsd`: the byte at place `i` of the structure.
  abbrev pub csd_byte : Response → ℕ → ℕ
  csd_byte r i = byte (i % 4) (from_be32 (response_word r (i / 4)))

  -- The members `csd` and `rdLen`, and those of which `CSize` and `CSizeMult` of `CSDv1` are made.
  unfoldable pub csd_version : Response → ℕ
  csd_version r = csd_byte r 0 / 64

  unfoldable pub rd_len : Response → ℕ
  rd_len r = csd_byte r 5 % 16

  unfoldable pub c_size_1 : Response → ℕ
  c_size_1 r =
      bit_or (bit_or (csd_byte r 6 % 4 * 2 ^ 10) (csd_byte r 7 * 2 ^ 2)) (csd_byte r 8 / 64)

  unfoldable pub c_size_mult : Response → ℕ
  c_size_mult r = bit_or (csd_byte r 9 % 4 * 2 ^ 1) (csd_byte r 10 / 128)

  -- `CSize` of `CSDv2`
  unfoldable pub c_size_2 : Response → ℕ
  c_size_2 r = bit_or (csd_byte r 7 % 64 * 2 ^ 16) (from_be16 (csd_byte r 8 + csd_byte r 9 * 256))

  -- `IsV2`, `BlockSize`, `BlockCount` and `CapacityMB` of `CSD`
  unfoldable pub is_v2 : Response → Bool
  is_v2 r = not (csd_version r == 0)

  unfoldable pub block_size : Response → ℕ
  block_size r = if is_v2 r then 512 else 2 ^ rd_len r

  unfoldable pub block_count : Response → ℕ
  block_count r =
      if is_v2 r
      then u32 ((c_size_2 r + 1) * 2 ^ 10)
      else u32 ((c_size_1 r + 1) * 2 ^ (c_size_mult r + 2))

  unfoldable pub capacity_mb : Response → ℕ
  capacity_mb r =
      if is_v2 r then (c_size_2 r + 1) / 2 else u32 (block_count r * 2 ^ rd_len r) / 2 ^ 20
