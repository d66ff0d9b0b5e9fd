-- ===== src/Elf2dfuse/Sections/Address.antt =====
-- elf2dfuse/elf2dfuse.c: the physical address of a section.
use lib_stm.Base.{
  ℕ, ◌+◌, ◌≤◌, ◌<◌, ◌≡◌, refl, ap, Bool-cases, inl, inr, true, List, Option, [], ◌∷◌, ◌++◌, none,
  some, u32, sub32, arith,
}
use lib_stm.Elf2dfuse.Header.{Shdr, Phdr}
use lib_stm.Elf2dfuse.Sections.{in_segment, find_phy_addr}

-- The section starts inside the memory of the segment, which has bytes in the file.
pub record Covers (ph : Phdr) (sh : Shdr) : Type 0 where
  pub above : ph.p_vaddr ≤ sh.sh_addr
  pub below : sh.sh_addr < ph.p_vaddr + ph.p_memsz
  pub in_file : 0 < ph.p_filesz

-- Segments that end in the 32-bit address space, in both kinds of address.
pub record Fits (ph : Phdr) : Type 0 where
  pub virtual_end : ph.p_vaddr + ph.p_memsz < 4294967296
  pub physical_end : ph.p_paddr + ph.p_memsz < 4294967296

abbrev pub AllFit : List Phdr → Type 0
AllFit [] = Unit
AllFit (ph ∷ phs) = Fits ph × AllFit phs

abbrev pub NoneCovers : List Phdr → Shdr → Type 0
NoneCovers [] sh = Unit
NoneCovers (ph ∷ phs) sh = (¬ Covers ph sh) × NoneCovers phs sh

in_segment-Covers : (sh : Shdr) (ph : Phdr) → Fits ph → in_segment sh ph ≡ true → Covers ph sh
unfolding in_segment
in_segment-Covers sh ph f h = ground arith

Covers-in_segment : (sh : Shdr) (ph : Phdr) → Fits ph → Covers ph sh → in_segment sh ph ≡ true
unfolding in_segment
Covers-in_segment sh ph f c = ground arith

-- The segment that gave an address: the first of those that cover the section.
pub record Found (sh : Shdr) (phs : List Phdr) (phy_addr : ℕ) : Type 0 where
  pub before : List Phdr
  pub segment : Phdr
  pub after : List Phdr
  pub split : phs ≡ before ++ segment ∷ after
  pub covers : Covers segment sh
  pub first : NoneCovers before sh
  pub translated : phy_addr + segment.p_vaddr ≡ segment.p_paddr + sh.sh_addr

-- What the search over the program headers says of a section.
abbrev pub Located : Shdr → List Phdr → Option ℕ → Type 0
Located sh phs none = NoneCovers phs sh
Located sh phs (some phy_addr) = Found sh phs phy_addr

Located-later :
    (sh : Shdr) (ph : Phdr) (phs : List Phdr)
    → ¬ Covers ph sh
    → (o : Option ℕ) → Located sh phs o
    → Located sh (ph ∷ phs) o
Located-later sh ph phs out none l = (out, l)
Located-later sh ph phs out (some a) r = record {
  before = ph ∷ r.before;
  segment = r.segment;
  after = r.after;
  split = ap (λ l. ph ∷ l) r.split;
  covers = r.covers;
  first = (out, r.first);
  translated = r.translated;
}

moved :
    (sh : Shdr) (ph : Phdr)
    → Fits ph
    → Covers ph sh
    → u32 (ph.p_paddr + sub32 sh.sh_addr ph.p_vaddr) + ph.p_vaddr ≡ ph.p_paddr + sh.sh_addr
moved sh ph f c = omega arith

-- With segments that fit in the 32-bit address space, a section is moved by the first segment that
-- covers it, from its virtual to its physical place, and gets no address just when none covers it.
pub find_phy_addr-Located :
    (sh : Shdr) (phs : List Phdr) → AllFit phs → Located sh phs (find_phy_addr sh phs)
unfolding find_phy_addr
find_phy_addr-Located sh [] f = tt
find_phy_addr-Located sh (ph ∷ phs) f = elim (Bool-cases (in_segment sh ph)) [
  | inl hit ↦
      let c = in_segment-Covers sh ph f.0 hit in
      rw hit (record {
        before = [];
        segment = ph;
        after = phs;
        split = refl;
        covers = c;
        first = tt;
        translated = moved sh ph f.0 c;
      })
  | inr miss ↦ rw miss (
      Located-later sh ph phs (λ c. cc (miss, Covers-in_segment sh ph f.0 c)) (find_phy_addr sh phs)
        (find_phy_addr-Located sh phs f.1))
]
