-- ===== src/Elf2dfuse/Sections.antt =====
-- elf2dfuse/elf2dfuse.c: the program headers, `find_blob`, and the loop over the sections in `main`.
pub mod Order
pub mod Address
use lib_stm.Base.{
  ℕ, zero, suc, ◌+◌, ◌==◌, ltb, leb, if◌then◌else◌, Bool, not, ◌&&◌, ◌||◌, List, [], ◌∷◌, Option,
  none, some, get_elem?, bit_and, u32, sub32,
}
use lib_stm.Elf2dfuse.Stdio.{M, ◌>>=◌, ◌>>◌, pure, fseek}
use lib_stm.Elf2dfuse.Header.{Ehdr, Shdr, Phdr, read_sh, read_ph}

pub record Blob : Type 0 where
  pub address : ℕ
  pub count : ℕ
  pub content : List ℕ

-- The new blob goes behind every blob whose address is not above its own. The caller fills the
-- buffer of the new blob right after the call; here it comes with its content.
unfoldable pub find_blob : ℕ → ℕ → List ℕ → List Blob → List Blob
find_blob address count content [] =
    record { address = address; count = count; content = content } ∷ []
find_blob address count content (current ∷ next) =
    if ltb address current.address
    then record { address = address; count = count; content = content } ∷ current ∷ next
    else current ∷ find_blob address count content next

-- `malloc(count)` filled by `fread`: past the end of the file a byte keeps what the allocator left
-- in it, which `heap` gives.
unfoldable pub fread_byte : ℕ → M ℕ
fread_byte old f = elim (get_elem? f.bytes f.pos) [
  | some c ↦ (c, record f { pos = f.pos + 1 })
  | none ↦ (old, f)
]

unfoldable pub fread : (ℕ → ℕ) → ℕ → ℕ → M (List ℕ)
fread heap i zero f = ([], f)
fread heap i (suc n) f =
    let (c, f') = fread_byte (heap i) f in
    let (rest, f'') = fread heap (i + 1) n f' in (c ∷ rest, f'')

-- The loop over the program headers; `n` is the number of rounds left, `i` the next one.
unfoldable pub read_phs : Ehdr → ℕ → ℕ → M (List Phdr)
read_phs eh zero i = pure []
read_phs eh (suc n) i = do ph ← read_ph eh i; rest ← read_phs eh n (i + 1); pure (ph ∷ rest)

-- The section's address lies in the segment, and the segment is in the file.
unfoldable pub in_segment : Shdr → Phdr → Bool
in_segment sh ph =
    leb ph.p_vaddr sh.sh_addr
    && ltb sh.sh_addr (u32 (ph.p_vaddr + ph.p_memsz))
    && not (ph.p_filesz == 0)

-- The loop over `j`: the physical address by the first segment that fits.
unfoldable pub find_phy_addr : Shdr → List Phdr → Option ℕ
find_phy_addr sh [] = none
find_phy_addr sh (ph ∷ phs) =
    if in_segment sh ph
    then some (u32 (ph.p_paddr + sub32 sh.sh_addr ph.p_vaddr))
    else find_phy_addr sh phs

unfoldable pub is_loadable_type : ℕ → Bool
is_loadable_type t = t == 1 || t == 14 || t == 15 || t == 16 || t == 0x70000001

-- One round of the loop over the sections.
unfoldable pub load_section : (ℕ → ℕ) → List Phdr → Shdr → List Blob → M (List Blob)
load_section heap phs sh pm_list =
    if bit_and sh.sh_flags 6 == 0
    then pure pm_list
    else if is_loadable_type sh.sh_type
    then elim (find_phy_addr sh phs) [
      | none ↦ pure pm_list
      | some phy_addr ↦ (do
        fseek sh.sh_offset
        content ← fread heap 0 sh.sh_size
        pure (find_blob phy_addr sh.sh_size content pm_list))
    ]
    else pure pm_list

unfoldable pub load_sections : (ℕ → ℕ) → Ehdr → List Phdr → ℕ → ℕ → List Blob → M (List Blob)
load_sections heap eh phs zero i pm_list = pure pm_list
load_sections heap eh phs (suc n) i pm_list = do
  sh ← read_sh eh i
  pm_list' ← load_section heap phs sh pm_list
  load_sections heap eh phs n (i + 1) pm_list'
