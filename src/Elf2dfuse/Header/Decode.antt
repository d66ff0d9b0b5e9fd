-- ===== src/Elf2dfuse/Header/Decode.antt =====
-- elf2dfuse/elf2dfuse.c: what `read_uint8`, `read_uint16` and `read_uint32` read back.
use lib_stm.Base.{
  ℕ, zero, suc, ◌+◌, ◌*◌, ◌/◌, ◌%◌, ◌^◌, ◌<◌, ◌≡◌, sym, ap, ◌∙◌, List, [], ◌∷◌, ◌++◌, length,
  get_elem?, drop, some, u8, u16, bit_or, bit_or_fields, arith,
}
use mathlib.Core.Path.{ap₂}
use lib_stm.Elf2dfuse.Stdio.{File, M, shl32, fgetc, read_uint8, read_uint16, read_uint32}
use native.Mathlib.Nat.{add_assoc}
use native.Mathlib.Numerals.{add-one}
use lib_stm.Elf2dfuse.Image.{le16, le32}

drop-cons :
    (xs : List ℕ) (i : ℕ) (c : ℕ) (rest : List ℕ)
    → drop i xs ≡ c ∷ rest
    → (get_elem? xs i ≡ some c) × (drop (i + 1) xs ≡ rest)
drop-cons [] zero c rest h = cc
drop-cons [] (suc i) c rest h = cc
drop-cons (x ∷ xs) zero c rest h = ground arith
drop-cons (x ∷ xs) (suc i) c rest h =
    let r = drop-cons xs i c rest h in (r.0, rw add-one (rw add-one at r.1))

-- The unread part of the file.
abbrev pub unread : File → List ℕ
unread f = drop f.pos f.bytes

abbrev pub skip : ℕ → File → File
skip n f = record f { pos = f.pos + n }

-- Wherever the bytes `bs` are next in a file, `m` reads them as `a` and stops behind them.
abbrev pub Reads : {A : Type 0} → M A → List ℕ → A → Type 0
Reads m bs a =
    (f : File) (rest : List ℕ)
    → unread f ≡ bs ++ rest
    → (m f ≡ (a, skip (length bs) f)) × (unread (skip (length bs) f) ≡ rest)

pub fgetc-Reads : (c : ℕ) → Reads fgetc (c ∷ []) c
unfolding fgetc
fgetc-Reads c f rest h = let r = drop-cons f.bytes f.pos c rest h in (rw (r.0, fgetc), r.1)

-- The bytes of a number are its number again.
word16 : (x : ℕ) → x < 65536 → u16 (bit_or (u16 (u8 x)) (shl32 (u8 (x / 2 ^ 8)) 8)) ≡ x
word16 x h = omega (arith, bit_or_fields 8 (x / 256) (x % 256) (omega arith), ap₂ bit_or low high)
  where
    low : u16 (u8 x) ≡ x % 256
    low = omega arith

    high : shl32 (u8 (x / 2 ^ 8)) 8 ≡ x / 256 * 2 ^ 8
    high = omega arith

word32 :
    (x : ℕ)
    → x < 4294967296
    → bit_or
        (bit_or (bit_or (u8 x) (shl32 (u8 (x / 2 ^ 8)) 8)) (shl32 (u8 (x / 2 ^ 16)) 16))
        (shl32 (u8 (x / 2 ^ 24)) 24)
      ≡ x
word32 x h = ap₂ bit_or (ap₂ bit_or (ap (bit_or (u8 x)) b1 ∙ two) b2 ∙ three) b3 ∙ four
  where
    b1 : shl32 (u8 (x / 2 ^ 8)) 8 ≡ x / 256 % 256 * 2 ^ 8
    b1 = omega arith

    b2 : shl32 (u8 (x / 2 ^ 16)) 16 ≡ x / 65536 % 256 * 2 ^ 16
    b2 = omega arith

    b3 : shl32 (u8 (x / 2 ^ 24)) 24 ≡ x / 16777216 * 2 ^ 24
    b3 = omega arith

    two : bit_or (u8 x) (x / 256 % 256 * 2 ^ 8) ≡ x % 65536
    two = omega (arith, bit_or_fields 8 (x / 256 % 256) (u8 x) (omega arith))

    three : bit_or (x % 65536) (x / 65536 % 256 * 2 ^ 16) ≡ x % 16777216
    three = omega (arith, bit_or_fields 16 (x / 65536 % 256) (x % 65536) (omega arith))

    four : bit_or (x % 16777216) (x / 16777216 * 2 ^ 24) ≡ x
    four = omega (arith, bit_or_fields 24 (x / 16777216) (x % 16777216) (omega arith))

pub read_uint8-Reads : (c : ℕ) → c < 256 → Reads read_uint8 (c ∷ []) c
unfolding read_uint8
read_uint8-Reads c h f rest e =
    let r = fgetc-Reads c f rest e in let small : u8 c ≡ c = omega arith in (rw (r.0, small), r.1)

pub read_uint16-Reads : (x : ℕ) → x < 65536 → Reads read_uint16 (le16 x) x
unfolding read_uint16 le16
read_uint16-Reads x h f rest e =
    let r = fgetc-Reads (u8 x) f _ e in
    let s = fgetc-Reads (u8 (x / 2 ^ 8)) (skip 1 f) rest r.1 in
    (rw (r.0, s.0, word16 x h, add_assoc), rw add_assoc at s.1)

pub read_uint32-Reads : (x : ℕ) → x < 4294967296 → Reads read_uint32 (le32 x) x
unfolding read_uint32 le32
read_uint32-Reads x h f rest e =
    let r = fgetc-Reads (u8 x) f _ e in
    let s = fgetc-Reads (u8 (x / 2 ^ 8)) (skip 1 f) _ r.1 in
    let t = fgetc-Reads (u8 (x / 2 ^ 16)) (skip 1 (skip 1 f)) _ s.1 in
    let u = fgetc-Reads (u8 (x / 2 ^ 24)) (skip 1 (skip 1 (skip 1 f))) rest t.1 in
    (
      rw (r.0, s.0, t.0, u.0, word32 x h) (ap (λ p. (x, record f { pos = p })) four),
      ap (λ p. drop p f.bytes) (sym four) ∙ u.1,
    )
  where
    four : f.pos + 1 + 1 + 1 + 1 ≡ f.pos + 4
    four = omega arith
