-- ===== src/Elf2dfuse/Crc/Bitwise.antt =====
-- elf2dfuse/elf2dfuse.c: the table-driven checksum against the CRC-32 computed bit by bit.
use lib_stm.Base.{
  ℕ, zero, suc, ◌+◌, ◌*◌, ◌/◌, ◌%◌, ◌^◌, ◌<◌, ◌==◌, ==_iff, if◌then◌else◌, ◌≡◌, refl, sym, ap, ◌∙◌,
  ◌⊎◌, inl, inr, true, List, [], ◌∷◌, get_or, bit_and, bit_xor, bit_and-ones, arith,
}
use mathlib.Core.Path.{ap₂, ◌≡⟨◌⟩◌, ◌∎}
use native.Mathlib.Nat.{pow-suc}
use lib_stm.Base.Xor.{
  bit_xor_step, bit_xor_assoc, bit_xor_fields, bit_xor-lt, bit_xor-zero, bit_xor_regroup,
  bit_xor_comm,
}
use lib_stm.Base.Table.{all_below, all_below_sound}
use lib_stm.Elf2dfuse.Crc.{crc32_step, crc32_calc}
use lib_stm.Elf2dfuse.CrcTable.{crc32_table}

-- One bit of the reflected CRC-32: shift right, and subtract the polynomial if a one falls out.
abbrev pub shift_bit : ℕ → ℕ
shift_bit c = if c % 2 == 1 then bit_xor (c / 2) 0xedb88320 else c / 2

unfoldable pub shift_bits : ℕ → ℕ → ℕ
shift_bits zero c = c
shift_bits (suc n) c = shift_bits n (shift_bit c)

-- The checksum by its definition: each byte is added to the low end, and eight bits are shifted out.
unfoldable pub crc32_bitwise : ℕ → List ℕ → ℕ
crc32_bitwise crc [] = crc
crc32_bitwise crc (b ∷ bs) = crc32_bitwise (shift_bits 8 (bit_xor crc b)) bs

abbrev pub Bytes : List ℕ → Type 0
Bytes [] = Unit
Bytes (b ∷ bs) = (b < 256) × Bytes bs

parity : (n : ℕ) → (n % 2 ≡ 0) ⊎ (n % 2 ≡ 1)
parity n = omega arith

shift_bit_masked : (c : ℕ) → shift_bit c ≡ bit_xor (c / 2) (c % 2 * 0xedb88320)
shift_bit_masked c = elim (parity c) [ inl even ↦ rw (even, bit_xor-zero) | inr odd ↦ rw odd ]

abbrev mask_of : ℕ → ℕ
mask_of d = d * 0xedb88320

masks_xor : (a b : ℕ) → mask_of ((a + b) % 2) ≡ bit_xor (mask_of (a % 2)) (mask_of (b % 2))
masks_xor a b = elim (parity a) [
  | inl e ↦ elim (parity b) [
    | inl f ↦ let g : (a + b) % 2 ≡ 0 = omega arith in rw (e, f, g)
    | inr f ↦ let g : (a + b) % 2 ≡ 1 = omega arith in rw (e, f, g)
  ]
  | inr e ↦ elim (parity b) [
    | inl f ↦ let g : (a + b) % 2 ≡ 1 = omega arith in rw (e, f, g)
    | inr f ↦ let g : (a + b) % 2 ≡ 0 = omega arith in rw (e, f, g)
  ]
]

shift_bit-xor : (a b : ℕ) → shift_bit (bit_xor a b) ≡ bit_xor (shift_bit a) (shift_bit b)
shift_bit-xor a b =
    shift_bit (bit_xor a b)
    ≡⟨ shift_bit_masked (bit_xor a b) ⟩ bit_xor (bit_xor a b / 2) (mask_of (bit_xor a b % 2))
    ≡⟨ ap (λ t. bit_xor t (mask_of (bit_xor a b % 2))) half ⟩
      bit_xor (bit_xor (a / 2) (b / 2)) (mask_of (bit_xor a b % 2))
    ≡⟨ ap (λ t. bit_xor (bit_xor (a / 2) (b / 2)) t) (ap mask_of digit ∙ masks_xor a b) ⟩
      bit_xor (bit_xor (a / 2) (b / 2)) (bit_xor (mask_of (a % 2)) (mask_of (b % 2)))
    ≡⟨ bit_xor_regroup (a / 2) (b / 2) (mask_of (a % 2)) (mask_of (b % 2)) ⟩
      bit_xor (bit_xor (a / 2) (mask_of (a % 2))) (bit_xor (b / 2) (mask_of (b % 2)))
    ≡⟨ ap₂ bit_xor (sym (shift_bit_masked a)) (sym (shift_bit_masked b)) ⟩
      bit_xor (shift_bit a) (shift_bit b) ∎
  where
    half : bit_xor a b / 2 ≡ bit_xor (a / 2) (b / 2)
    half = omega (arith, bit_xor_step a b)

    digit : bit_xor a b % 2 ≡ (a + b) % 2
    digit = omega (arith, bit_xor_step a b)

shift_bits-xor :
    (n a b : ℕ) → shift_bits n (bit_xor a b) ≡ bit_xor (shift_bits n a) (shift_bits n b)
unfolding shift_bits
shift_bits-xor zero a b = refl
shift_bits-xor (suc n) a b =
    ap (shift_bits n) (shift_bit-xor a b) ∙ shift_bits-xor n (shift_bit a) (shift_bit b)

shift_bit_even : (m : ℕ) → shift_bit (2 * m) ≡ m
shift_bit_even m = let e : 2 * m % 2 ≡ 0 = omega arith in rw e (omega arith)

shift_bits_even : (n q : ℕ) → shift_bits n (q * 2 ^ n) ≡ q
unfolding shift_bits
shift_bits_even zero q = omega arith
shift_bits_even (suc n) q =
    ap (shift_bits n) (ap shift_bit twice ∙ shift_bit_even (q * 2 ^ n)) ∙ shift_bits_even n q
  where
    twice : q * 2 ^ suc n ≡ 2 * (q * 2 ^ n)
    twice = omega (arith, ap (λ (t : ℕ). q * t) (pow-suc 2 n))

-- Each entry of the table is its index with eight bits shifted out.
crc32_table_entries : all_below (λ r. shift_bits 8 r == get_or crc32_table r 0) 256 ≡ true
unfolding all_below shift_bits
crc32_table_entries = refl

table_lem : (r : ℕ) → r < 256 → shift_bits 8 r ≡ get_or crc32_table r 0
table_lem r h = (==_iff _ _).0 (all_below_sound _ 256 r h crc32_table_entries)

-- One step of the table-driven loop shifts eight bits out of the checksum with the byte added.
step_lem : (crc b : ℕ) → b < 256 → crc32_step crc b ≡ shift_bits 8 (bit_xor crc b)
unfolding crc32_step
step_lem crc b h =
    bit_xor (get_or crc32_table (bit_and (bit_xor crc b) 0xff) 0) q
    ≡⟨ ap (λ t. bit_xor (get_or crc32_table t 0) q) (bit_and-ones 8 (bit_xor crc b) ∙ low) ⟩
      bit_xor (get_or crc32_table r 0) q
    ≡⟨ bit_xor_comm (get_or crc32_table r 0) q ⟩ bit_xor q (get_or crc32_table r 0)
    ≡⟨ ap₂ bit_xor (sym (shift_bits_even 8 q)) (sym (table_lem r small)) ⟩
      bit_xor (shift_bits 8 (q * 2 ^ 8)) (shift_bits 8 r)
    ≡⟨ sym (shift_bits-xor 8 (q * 2 ^ 8) r) ⟩ shift_bits 8 (bit_xor (q * 2 ^ 8) r)
    ≡⟨ ap (shift_bits 8) (sym whole) ⟩ shift_bits 8 (bit_xor crc b) ∎
  where
    q : ℕ
    q = crc / 256

    r : ℕ
    r = bit_xor (crc % 256) b

    small : r < 256
    small = bit_xor-lt 8 (crc % 256) b (omega arith) h

    cut : crc ≡ bit_xor (q * 2 ^ 8) (crc % 256)
    cut = omega (arith, bit_xor_fields 8 q (crc % 256) (omega arith))

    whole : bit_xor crc b ≡ bit_xor (q * 2 ^ 8) r
    whole = ap (λ t. bit_xor t b) cut ∙ bit_xor_assoc (q * 2 ^ 8) (crc % 256) b

    low : bit_xor crc b % 256 ≡ r
    low = omega (arith, whole, bit_xor_fields 8 q r small, small)

-- On bytes, `crc32_calc` with its table of 256 entries is the CRC-32 computed bit by bit, from any
-- starting value.
pub crc32_calc-eq-bitwise :
    (crc : ℕ) (buffer : List ℕ) → Bytes buffer → crc32_calc crc buffer ≡ crc32_bitwise crc buffer
unfolding crc32_calc crc32_bitwise
crc32_calc-eq-bitwise crc [] h = refl
crc32_calc-eq-bitwise crc (b ∷ buffer) h =
    ap (λ t. crc32_calc t buffer) (step_lem crc b h.0)
    ∙ crc32_calc-eq-bitwise (shift_bits 8 (bit_xor crc b)) buffer h.1
