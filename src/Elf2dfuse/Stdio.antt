-- ===== src/Elf2dfuse/Stdio.antt =====
-- Reading: the C library's streams as elf2dfuse uses them, and `read_uint8` to `read_uint32` of
-- elf2dfuse/elf2dfuse.c.
use lib_stm.Base.{ℕ, ◌+◌, ◌*◌, ◌^◌, List, none, some, get_elem?, u8, u16, u32, bit_or}

-- A stream opened for reading: the file's bytes and the position of the next one.
pub record File : Type 0 where
  pub bytes : List ℕ
  pub pos : ℕ

-- A function of the source that takes `FILE *fp`.
abbrev pub M : Type 0 → Type 0
M A = File → A × File

infixl 5 ◌>>=◌ ◌>>◌
abbrev pub ◌>>=◌ : {A B : Type 0} → M A → (A → M B) → M B
◌>>=◌ m k f = let (a, f') = m f in k a f'

abbrev pub ◌>>◌ : {B : Type 0} → M (Unit {0}) → M B → M B
m >> k = m >>= λ _. k

abbrev pub pure : {A : Type 0} → A → M A
pure a f = (a, f)

-- `EOF` as the bit pattern of the int -1.
abbrev pub eof : ℕ
eof = 4294967295

-- At the end of the file the position stays.
unfoldable pub fgetc : M ℕ
fgetc f = elim (get_elem? f.bytes f.pos) [
  | some c ↦ (c, record f { pos = f.pos + 1 })
  | none ↦ (eof, f)
]

unfoldable pub fseek : ℕ → M (Unit {0})
fseek offset f = (tt, record f { pos = offset })

-- `x << k` on an int.
abbrev pub shl32 : ℕ → ℕ → ℕ
shl32 x k = u32 (x * 2 ^ k)

unfoldable pub read_uint8 : M ℕ
unfolding fgetc
read_uint8 = do c ← fgetc; pure (u8 c)

unfoldable pub read_uint16 : M ℕ
unfolding fgetc
read_uint16 = do c0 ← fgetc; c1 ← fgetc; pure (u16 (bit_or (u16 c0) (shl32 c1 8)))

unfoldable pub read_uint32 : M ℕ
unfolding fgetc
read_uint32 = do
  c0 ← fgetc
  c1 ← fgetc
  c2 ← fgetc
  c3 ← fgetc
  pure (bit_or (bit_or (bit_or c0 (shl32 c1 8)) (shl32 c2 16)) (shl32 c3 24))
