-- ===== src/Sdmmc/Csd/Fields.antt =====
-- targets/stm32l/hw/SDMMC.h: the fields of CSD are the bits that the card's specification names.
use lib_stm.Base.{
  ℕ, ◌+◌, ◌*◌, ◌/◌, ◌%◌, ◌^◌, ◌<◌, ◌==◌, ◌≡◌, refl, ap, ◌∙◌, true, not, bit_or, bit_or_comm,
  bit_or_fields, if◌then◌else◌, u32, arith,
}
use lib_stm.Sdmmc.Identify.{Response}
use lib_stm.Sdmmc.Csd.{
  byte, csd_byte, csd_version, rd_len, c_size_1, c_size_mult, c_size_2, is_v2, block_size,
  block_count, capacity_mb,
}

-- What FROM_BE32 and FROM_BE16 do: they turn the bytes round.
pub record TurnsBytes (from_be32 from_be16 : ℕ → ℕ) : Type 0 where
  pub byte0 : (x : ℕ) → x < 4294967296 → byte 0 (from_be32 x) ≡ byte 3 x
  pub byte1 : (x : ℕ) → x < 4294967296 → byte 1 (from_be32 x) ≡ byte 2 x
  pub byte2 : (x : ℕ) → x < 4294967296 → byte 2 (from_be32 x) ≡ byte 1 x
  pub byte3 : (x : ℕ) → x < 4294967296 → byte 3 (from_be32 x) ≡ byte 0 x
  pub half : (x : ℕ) → x < 65536 → from_be16 x ≡ x % 256 * 256 + x / 256

pub record AreWords (r : Response) : Type 0 where
  pub first : r.resp1 < 4294967296
  pub second : r.resp2 < 4294967296
  pub third : r.resp3 < 4294967296
  pub fourth : r.resp4 < 4294967296

-- The bits of the register from `low` on, `n` of them: the first word holds the highest 32 of 128.
abbrev pub register_bits : Response → ℕ → ℕ → ℕ
register_bits r low n =
    (((r.resp1 * 2 ^ 32 + r.resp2) * 2 ^ 32 + r.resp3) * 2 ^ 32 + r.resp4) / 2 ^ low % 2 ^ n

-- The higher part first.
joined : (n hi lo : ℕ) → lo < 2 ^ n → bit_or (hi * 2 ^ n) lo ≡ hi * 2 ^ n + lo
joined n hi lo h = bit_or_comm (hi * 2 ^ n) lo ∙ bit_or_fields n hi lo h ∙ omega arith

-- Three parts of 2, 8 and 2 bits.
three_parts :
    (h m l : ℕ)
    → h < 4
    → m < 256
    → l < 4
    → bit_or (bit_or (h * 2 ^ 10) (m * 2 ^ 2)) l ≡ h * 1024 + m * 4 + l
three_parts h m l hh hm hl =
    ap (λ x. bit_or x l) (joined 10 h (m * 2 ^ 2) (omega arith) ∙ sum)
    ∙ joined 2 (h * 256 + m) l hl
    ∙ omega arith
  where
    sum : h * 2 ^ 10 + m * 2 ^ 2 ≡ (h * 256 + m) * 2 ^ 2
    sum = omega arith

module _ (from_be32 from_be16 : ℕ → ℕ) (t : TurnsBytes from_be32 from_be16) (r : Response)
    (w : AreWords r) where
  version_lem : csd_version from_be32 from_be16 r ≡ register_bits r 126 2
  unfolding csd_version
  version_lem = omega (arith, t.byte0 r.resp1 w.first, w.first, w.second, w.third, w.fourth)

  rd_len_lem : rd_len from_be32 from_be16 r ≡ register_bits r 80 4
  unfolding rd_len
  rd_len_lem = omega (arith, t.byte1 r.resp2 w.second, w.first, w.second, w.third, w.fourth)

  c_size_1_lem : c_size_1 from_be32 from_be16 r ≡ register_bits r 62 12
  unfolding c_size_1
  c_size_1_lem =
      three_parts (csd_byte from_be32 from_be16 r 6 % 4) (csd_byte from_be32 from_be16 r 7)
        (csd_byte from_be32 from_be16 r 8 / 64) (omega arith) (omega arith) (omega arith)
      ∙ omega (
        arith,
        t.byte2 r.resp2 w.second,
        t.byte3 r.resp2 w.second,
        t.byte0 r.resp3 w.third,
        w.first,
        w.second,
        w.third,
        w.fourth,
      )

  c_size_mult_lem : c_size_mult from_be32 from_be16 r ≡ register_bits r 47 3
  unfolding c_size_mult
  c_size_mult_lem =
      joined 1 (csd_byte from_be32 from_be16 r 9 % 4) (csd_byte from_be32 from_be16 r 10 / 128)
        (omega arith)
      ∙ omega (
        arith,
        t.byte1 r.resp3 w.third,
        t.byte2 r.resp3 w.third,
        w.first,
        w.second,
        w.third,
        w.fourth,
      )

  c_size_2_lem : c_size_2 from_be32 from_be16 r ≡ register_bits r 48 22
  unfolding c_size_2
  c_size_2_lem =
      joined 16 (csd_byte from_be32 from_be16 r 7 % 64) (from_be16 low) (omega (arith, swapped))
      ∙ omega (
        arith,
        swapped,
        t.byte3 r.resp2 w.second,
        t.byte0 r.resp3 w.third,
        t.byte1 r.resp3 w.third,
        w.first,
        w.second,
        w.third,
        w.fourth,
      )
    where
      low : ℕ
      low = csd_byte from_be32 from_be16 r 8 + csd_byte from_be32 from_be16 r 9 * 256

      swapped : from_be16 low ≡ low % 256 * 256 + low / 256
      swapped = t.half low (omega arith)

-- For every value of the register, FROM_BE32 and FROM_BE16 turning bytes round: the version of the
-- structure, the size of a block and the number of blocks are those that the bits 127 to 126, 83 to 80,
-- 73 to 62, 49 to 47 and 69 to 48 of the register stand for in the card's specification, the number of
-- blocks modulo 2 ^ 32; and the capacity of a card of the second version is that of its blocks.
pub csd-fields :
    (from_be32 from_be16 : ℕ → ℕ)
    → TurnsBytes from_be32 from_be16
    → (r : Response) → AreWords r
    → (block_size from_be32 from_be16 r
        ≡ (if not (register_bits r 126 2 == 0) then 512 else 2 ^ register_bits r 80 4))
      × (block_count from_be32 from_be16 r ≡ (
          if not (register_bits r 126 2 == 0)
          then u32 ((register_bits r 48 22 + 1) * 2 ^ 10)
          else u32 ((register_bits r 62 12 + 1) * 2 ^ (register_bits r 47 3 + 2))))
      × (is_v2 from_be32 from_be16 r ≡ true
          → capacity_mb from_be32 from_be16 r ≡ (register_bits r 48 22 + 1) * 2 ^ 10 * 512 / 2 ^ 20)
unfolding block_size block_count capacity_mb is_v2
csd-fields from_be32 from_be16 t r w =
    rw
      (
        version_lem from_be32 from_be16 t r w,
        rd_len_lem from_be32 from_be16 t r w,
        c_size_1_lem from_be32 from_be16 t r w,
        c_size_mult_lem from_be32 from_be16 t r w,
        c_size_2_lem from_be32 from_be16 t r w,
      )
      (refl, refl, λ e. rw e (omega arith))
