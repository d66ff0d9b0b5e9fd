-- ===== src/Elf2dfuse/Sections/Order.antt =====
-- elf2dfuse/elf2dfuse.c: the blob list is sorted by address, and holds what was read.
use lib_stm.Base.{
  ℕ, zero, suc, ◌+◌, ◌≤◌, ltb, ◌==◌, ◌≡◌, refl, ap, Bool-cases, Option-cases, inl, inr, true, false,
  List, [], ◌∷◌, length, bit_and, arith,
}
use mathlib.Core.List.{Perm}
use mathlib.Core.List.Perm
use lib_stm.Elf2dfuse.Stdio.{File}
use lib_stm.Elf2dfuse.Header.{Ehdr, Shdr, Phdr, read_sh}
use lib_stm.Elf2dfuse.Sections.{
  Blob, find_blob, fread_byte, fread, find_phy_addr, is_loadable_type, load_section, load_sections,
}

abbrev blob : ℕ → ℕ → List ℕ → Blob
blob address count content = record { address = address; count = count; content = content }

-- All addresses from `a` on.
abbrev pub From : ℕ → List Blob → Type 0
From a [] = Unit
From a (b ∷ bs) = (a ≤ b.address) × From a bs

abbrev pub IsSorted : List Blob → Type 0
IsSorted [] = Unit
IsSorted (b ∷ bs) = From b.address bs × IsSorted bs

-- Every buffer has the length that its count says.
abbrev pub IsRead : List Blob → Type 0
IsRead [] = Unit
IsRead (b ∷ bs) = (length b.content ≡ b.count) × IsRead bs

From-le : (a a' : ℕ) (bs : List Blob) → a ≤ a' → From a' bs → From a bs
From-le a a' [] h f = tt
From-le a a' (b ∷ bs) h f = (omega arith, From-le a a' bs h f.1)

find_blob-From :
    (a address count : ℕ) (content : List ℕ) (bs : List Blob)
    → a ≤ address
    → From a bs
    → From a (find_blob address count content bs)
unfolding find_blob
find_blob-From a address count content [] h f = (h, tt)
find_blob-From a address count content (b ∷ bs) h f = elim (Bool-cases (ltb address b.address)) [
  | inl here ↦ rw here (h, f)
  | inr on ↦ rw on (f.0, find_blob-From a address count content bs h f.1)
]

-- `find_blob` keeps the list sorted by address, and adds just the new blob to it.
pub find_blob-IsSorted :
    (address count : ℕ) (content : List ℕ) (bs : List Blob)
    → IsSorted bs
    → IsSorted (find_blob address count content bs)
      × Perm (find_blob address count content bs) (blob address count content ∷ bs)
unfolding find_blob
find_blob-IsSorted address count content [] s = ((tt, tt), Perm.refl _)
find_blob-IsSorted address count content (b ∷ bs) s = elim (Bool-cases (ltb address b.address)) [
  | inl here ↦
      rw here
        (((le_of_ltb here, From-le address b.address bs (le_of_ltb here) s.0), s), Perm.refl _)
  | inr on ↦
      let rest = find_blob-IsSorted address count content bs s.1 in
      rw on (
        (find_blob-From b.address address count content bs (le_of_not_ltb on) s.0, rest.0),
        Perm.trans (Perm.cons b rest.1) (Perm.swap (blob address count content) b bs),
      )
]
  where
    le_of_ltb : ltb address b.address ≡ true → address ≤ b.address
    le_of_ltb h = ground arith

    le_of_not_ltb : ltb address b.address ≡ false → b.address ≤ address
    le_of_not_ltb h = ground arith

find_blob-IsRead :
    (address count : ℕ) (content : List ℕ) (bs : List Blob)
    → length content ≡ count
    → IsRead bs
    → IsRead (find_blob address count content bs)
unfolding find_blob
find_blob-IsRead address count content [] h r = (h, tt)
find_blob-IsRead address count content (b ∷ bs) h r = elim (Bool-cases (ltb address b.address)) [
  | inl here ↦ rw here (h, r)
  | inr on ↦ rw on (r.0, find_blob-IsRead address count content bs h r.1)
]

length-fread : (heap : ℕ → ℕ) (i n : ℕ) (f : File) → length (fread heap i n f).0 ≡ n
unfolding fread
length-fread heap i zero f = refl
length-fread heap i (suc n) f = ap suc (length-fread heap (i + 1) n (fread_byte (heap i) f).1)

abbrev pub Good : List Blob → Type 0
Good bs = IsSorted bs × IsRead bs

load_section-Good :
    (heap : ℕ → ℕ) (phs : List Phdr) (sh : Shdr) (bs : List Blob) (f : File)
    → Good bs
    → Good (load_section heap phs sh bs f).0
unfolding load_section
load_section-Good heap phs sh bs f g = elim (Bool-cases (bit_and sh.sh_flags 6 == 0)) [
  | inl skip ↦ rw skip g
  | inr on ↦ rw on (elim (Bool-cases (is_loadable_type sh.sh_type)) [
    | inl kind ↦ rw kind (elim (Option-cases (find_phy_addr sh phs)) [
      | inl e ↦ rw e g
      | inr (a, e) ↦ rw e (
        (find_blob-IsSorted a sh.sh_size _ bs g.0).0,
        find_blob-IsRead a sh.sh_size _ bs (length-fread heap 0 sh.sh_size _) g.1,
      )
    ])
    | inr kind ↦ rw kind g
  ])
]

-- From any file and headers, the blob list that the section loop builds is sorted by physical
-- address, and each buffer in it has as many bytes as its count says.
pub load_sections-Good :
    (heap : ℕ → ℕ) (eh : Ehdr) (phs : List Phdr) (n i : ℕ) (bs : List Blob) (f : File)
    → Good bs
    → Good (load_sections heap eh phs n i bs f).0
unfolding load_sections
load_sections-Good heap eh phs zero i bs f g = g
load_sections-Good heap eh phs (suc n) i bs f g =
    load_sections-Good heap eh phs n (i + 1) _ _
      (load_section-Good heap phs (read_sh eh i f).0 bs (read_sh eh i f).1 g)
