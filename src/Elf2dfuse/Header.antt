-- ===== src/Elf2dfuse/Header.antt =====
-- The ELF headers of elf2dfuse/elf2dfuse.c: `readEh`, `checkEh`, `readSh` and `readPh`.
pub mod Decode
pub mod RoundTrip
pub mod Check
use lib_stm.Base.{
  ℕ, ◌+◌, ◌*◌, ◌==◌, Bool, true, false, not, ◌&&◌, ◌||◌, List, [], ◌∷◌, take, zero, suc, u32,
}
use lib_stm.Elf2dfuse.Stdio.{M, ◌>>=◌, ◌>>◌, pure, fseek, read_uint8, read_uint16, read_uint32}

pub record Ehdr : Type 0 where
  pub e_ident : List ℕ
  pub e_type : ℕ
  pub e_machine : ℕ
  pub e_version : ℕ
  pub e_entry : ℕ
  pub e_phoff : ℕ
  pub e_shoff : ℕ
  pub e_flags : ℕ
  pub e_ehsize : ℕ
  pub e_phentsize : ℕ
  pub e_phnum : ℕ
  pub e_shentsize : ℕ
  pub e_shnum : ℕ
  pub e_shstrndx : ℕ

pub record Shdr : Type 0 where
  pub sh_name : ℕ
  pub sh_type : ℕ
  pub sh_flags : ℕ
  pub sh_addr : ℕ
  pub sh_offset : ℕ
  pub sh_size : ℕ
  pub sh_link : ℕ
  pub sh_info : ℕ
  pub sh_addralign : ℕ
  pub sh_entsize : ℕ

pub record Phdr : Type 0 where
  pub p_type : ℕ
  pub p_offset : ℕ
  pub p_vaddr : ℕ
  pub p_paddr : ℕ
  pub p_filesz : ℕ
  pub p_memsz : ℕ
  pub p_flags : ℕ
  pub p_align : ℕ

-- The loop over `eh.e_ident`.
unfoldable pub read_ident : ℕ → M (List ℕ)
read_ident zero = pure []
read_ident (suc n) = do c ← read_uint8; rest ← read_ident n; pure (c ∷ rest)

unfoldable pub read_eh : M Ehdr
read_eh = do
  e_ident ← read_ident 16
  e_type ← read_uint16
  e_machine ← read_uint16
  e_version ← read_uint32
  e_entry ← read_uint32
  e_phoff ← read_uint32
  e_shoff ← read_uint32
  e_flags ← read_uint32
  e_ehsize ← read_uint16
  e_phentsize ← read_uint16
  e_phnum ← read_uint16
  e_shentsize ← read_uint16
  e_shnum ← read_uint16
  e_shstrndx ← read_uint16
  pure record {
    e_ident = e_ident;
    e_type = e_type;
    e_machine = e_machine;
    e_version = e_version;
    e_entry = e_entry;
    e_phoff = e_phoff;
    e_shoff = e_shoff;
    e_flags = e_flags;
    e_ehsize = e_ehsize;
    e_phentsize = e_phentsize;
    e_phnum = e_phnum;
    e_shentsize = e_shentsize;
    e_shnum = e_shnum;
    e_shstrndx = e_shstrndx;
  }

abbrev pub ref_ident : List ℕ
ref_ident = 0x7f ∷ b'E' ∷ b'L' ∷ b'F' ∷ 1 ∷ 1 ∷ 1 ∷ []

-- Equality of two blocks of bytes, `!memcmp`.
unfoldable pub same_bytes : List ℕ → List ℕ → Bool
same_bytes [] [] = true
same_bytes [] (_ ∷ _) = false
same_bytes (_ ∷ _) [] = false
same_bytes (x ∷ xs) (y ∷ ys) = x == y && same_bytes xs ys

-- `true` is the error that the source returns as 1.
unfoldable pub check_eh : Ehdr → Bool
unfolding same_bytes
check_eh eh =
    not (same_bytes (take 7 eh.e_ident) ref_ident)
    || not (eh.e_type == 2)
    || not (eh.e_machine == 40)
    || not (eh.e_version == 1)

unfoldable pub read_sh : Ehdr → ℕ → M Shdr
read_sh eh num = do
  fseek (u32 (num * eh.e_shentsize + eh.e_shoff))
  sh_name ← read_uint32
  sh_type ← read_uint32
  sh_flags ← read_uint32
  sh_addr ← read_uint32
  sh_offset ← read_uint32
  sh_size ← read_uint32
  sh_link ← read_uint32
  sh_info ← read_uint32
  sh_addralign ← read_uint32
  sh_entsize ← read_uint32
  pure record {
    sh_name = sh_name;
    sh_type = sh_type;
    sh_flags = sh_flags;
    sh_addr = sh_addr;
    sh_offset = sh_offset;
    sh_size = sh_size;
    sh_link = sh_link;
    sh_info = sh_info;
    sh_addralign = sh_addralign;
    sh_entsize = sh_entsize;
  }

unfoldable pub read_ph : Ehdr → ℕ → M Phdr
read_ph eh num = do
  fseek (u32 (num * eh.e_phentsize + eh.e_phoff))
  p_type ← read_uint32
  p_offset ← read_uint32
  p_vaddr ← read_uint32
  p_paddr ← read_uint32
  p_filesz ← read_uint32
  p_memsz ← read_uint32
  p_flags ← read_uint32
  p_align ← read_uint32
  pure record {
    p_type = p_type;
    p_offset = p_offset;
    p_vaddr = p_vaddr;
    p_paddr = p_paddr;
    p_filesz = p_filesz;
    p_memsz = p_memsz;
    p_flags = p_flags;
    p_align = p_align;
  }
