-- ===== src/Elf2dfuse/Image.antt =====
-- elf2dfuse/elf2dfuse.c, the second half of `main`: the sizes, and the DfuSe image that is written.
pub mod Emit
pub mod Elements
pub mod Layout
pub mod Complete
pub mod Spin
use lib_stm.Base.{
  ℕ, zero, suc, ◌+◌, ◌-◌, ◌/◌, ◌^◌, ◌==◌, ltb, if◌then◌else◌, Bool, List, [], ◌∷◌, ◌++◌, set,
  replicate, bit_and, u8, u16, u32, sub32, not32,
}
use lib_stm.Elf2dfuse.Crc.{crc32_calc}
use lib_stm.Elf2dfuse.Stdio.{File}
use lib_stm.Elf2dfuse.Header.{Ehdr, read_eh, check_eh}
use lib_stm.Elf2dfuse.Sections.{Blob, read_phs, load_sections}

-- What a run of the tool comes to: it returns, refuses the header, reads through a null pointer, or
-- is still in a loop when the fuel is used up.
pub data Outcome {ℓ} (A : Type ℓ) : Type ℓ where
  ok : A → Outcome A
  bad_header : Outcome A
  null_pointer : Outcome A
  spin : Outcome A

infixl 5 ◌>>=◌
abbrev pub ◌>>=◌ {ℓ κ} : {A : Type ℓ} {B : Type κ} → Outcome A → (A → Outcome B) → Outcome B
ok a >>= k = k a
bad_header >>= k = bad_header
null_pointer >>= k = null_pointer
spin >>= k = spin

-- The inner loop of both passes: the size of the element that starts here, and the blobs behind it.
unfoldable pub element : ℕ → ℕ → List Blob → ℕ × List Blob
element phy_addr element_size [] = (element_size, [])
element phy_addr element_size (blob ∷ next) =
    if phy_addr == blob.address
    then element (u32 (phy_addr + blob.count)) (u32 (element_size + blob.count)) next
    else (element_size, blob ∷ next)

abbrev pub element_alignment : ℕ
element_alignment = 2048

unfoldable pub padded : ℕ → ℕ
padded element_size =
    bit_and (u32 (u32 (element_size + element_alignment) + (4294967296 - 1)))
      (not32 (element_alignment - 1))

pub record Totals : Type 0 where
  pub file_size : ℕ
  pub target_size : ℕ
  pub image_elements : ℕ

-- The counting pass. The fuel is the number of rounds of the outer loop.
unfoldable pub count_elements : ℕ → List Blob → Totals → Outcome Totals
count_elements fuel [] t = ok t
count_elements zero (blob ∷ next) t = spin
count_elements (suc fuel) (blob ∷ next) t =
    let (element_size, rest) = element blob.address 0 (blob ∷ next) in
    let padded_size = padded element_size in
    count_elements fuel rest (record {
      file_size = u32 (u32 (t.file_size + 8) + padded_size);
      target_size = u32 (u32 (t.target_size + 8) + padded_size);
      image_elements = u32 (t.image_elements + 1);
    })

-- `file_size` starts with the 11 bytes of the DfuSe prefix and the 274 of the target prefix.
abbrev pub no_elements : Totals
no_elements = record { file_size = 11 + 274; target_size = 0; image_elements = 0 }

-- The output file, and the checksum of what was written so far.
pub record Output : Type 0 where
  pub written : List ℕ
  pub crc32 : ℕ

-- `crc32_calc` and `fwrite` of one block, as `main` pairs them.
unfoldable pub emit : List ℕ → Output → Output
emit block o = record { written = o.written ++ block; crc32 = crc32_calc o.crc32 block }

-- A 32-bit value as `main` stores it, byte by byte.
unfoldable pub le32 : ℕ → List ℕ
le32 x = u8 x ∷ u8 (x / 2 ^ 8) ∷ u8 (x / 2 ^ 16) ∷ u8 (x / 2 ^ 24) ∷ []

unfoldable pub le16 : ℕ → List ℕ
le16 x = u8 x ∷ u8 (x / 2 ^ 8) ∷ []

unfoldable pub dfu_prefix : ℕ → List ℕ
dfu_prefix file_size = b'D' ∷ b'f' ∷ b'u' ∷ b'S' ∷ b'e' ∷ 0x01 ∷ (le32 file_size ++ (1 ∷ []))

-- The scratchpad of 274 bytes: `Target`, zeros up to byte 266, and the two sizes.
unfoldable pub target_prefix : ℕ → ℕ → List ℕ
target_prefix target_size image_elements =
    b'T'
    ∷ b'a'
    ∷ b'r'
    ∷ b'g'
    ∷ b'e'
    ∷ b't'
    ∷ (replicate 260 0 ++ (le32 target_size ++ le32 image_elements))

-- `while (element_size)`: the blobs of one element. A null `blob` is read through.
unfoldable pub write_blobs : ℕ → ℕ → List Blob → Output → Outcome (ℕ × List Blob × Output)
write_blobs element_size padded_size [] o =
    if element_size == 0 then ok (padded_size, [], o) else null_pointer
write_blobs element_size padded_size (blob ∷ next) o =
    let rest =
      write_blobs (sub32 element_size blob.count) (sub32 padded_size blob.count) next
        (emit blob.content o) in
    if element_size == 0 then ok (padded_size, blob ∷ next, o) else rest

-- `while (padded_size)`: blocks of at most 274 bytes 0xFF.
unfoldable pub write_padding : ℕ → ℕ → Output → Outcome Output
write_padding zero padded_size o = if padded_size == 0 then ok o else spin
write_padding (suc fuel) padded_size o =
    let i : ℕ = if ltb 274 padded_size then 274 else padded_size in
    let rest = write_padding fuel (padded_size - i) (emit (replicate i 0xff) o) in
    if padded_size == 0 then ok o else rest

-- The loop over the blob list. The fuel bounds its rounds; `pad_fuel` those of the padding.
unfoldable pub write_elements : ℕ → ℕ → List Blob → Output → Outcome Output
write_elements fuel pad_fuel [] o = ok o
write_elements zero pad_fuel (blob ∷ next) o = spin
write_elements (suc fuel) pad_fuel (blob ∷ next) o =
    let (element_size, _) = element blob.address 0 (blob ∷ next) in
    let padded_size = padded element_size in
    write_blobs element_size padded_size (blob ∷ next)
      (emit (le32 blob.address ++ le32 padded_size) o)
    >>= λ (padding, rest, o').
        write_padding pad_fuel padding o' >>= λ o''. write_elements fuel pad_fuel rest o''

-- The 12 bytes of the suffix in front of its checksum.
unfoldable pub suffix_head : ℕ → ℕ → List ℕ
suffix_head vid pid =
    0xff ∷ 0xff ∷ (le16 pid ++ (le16 vid ++ (0x1a ∷ 0x01 ∷ b'U' ∷ b'F' ∷ b'D' ∷ 16 ∷ [])))

-- The checksum is over all that stands in front of it.
unfoldable pub finish : ℕ → ℕ → Output → List ℕ
finish vid pid o =
    let crc32 = crc32_calc o.crc32 (suffix_head vid pid) in
    o.written ++ (suffix_head vid pid ++ le32 crc32)

unfoldable pub write_image : ℕ → ℕ → ℕ → ℕ → List Blob → Outcome (List ℕ)
write_image fuel pad_fuel vid pid pm_list = count_elements fuel pm_list no_elements >>= λ t.
    write_elements fuel pad_fuel pm_list (
      emit (target_prefix t.target_size t.image_elements)
        (emit (dfu_prefix t.file_size) (record { written = []; crc32 = 0xffffffff })))
    >>= λ o. ok (finish vid pid o)

-- `main` with both files open: the bytes of the output file.
unfoldable pub convert : (ℕ → ℕ) → ℕ → ℕ → ℕ → ℕ → File → Outcome (List ℕ)
convert heap fuel pad_fuel vid pid elf =
    let (eh, f) = read_eh elf in
    if check_eh eh
    then bad_header
    else (let (phs, f') = read_phs eh eh.e_phnum 0 f in
        let (pm_list, _) = load_sections heap eh phs eh.e_shnum 0 [] f' in
        write_image fuel pad_fuel vid pid pm_list)
