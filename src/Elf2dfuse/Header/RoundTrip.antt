-- ===== src/Elf2dfuse/Header/RoundTrip.antt =====
-- elf2dfuse/elf2dfuse.c: `readEh` reads the ELF header that stands at the start of the file.
use lib_stm.Base.{
  ℕ, suc, ◌+◌, ◌<◌, ◌≡◌, refl, sym, ap, ◌∙◌, List, [], ◌∷◌, ◌++◌, length, drop, arith,
}
use mathlib.Core.List.{append_assoc}
use lib_stm.Elf2dfuse.Stdio.{File}
use lib_stm.Elf2dfuse.Header.{Ehdr, read_ident, read_eh}
use lib_stm.Elf2dfuse.Header.Decode.{
  Reads, skip, read_uint8-Reads, read_uint16-Reads, read_uint32-Reads,
}
use lib_stm.Elf2dfuse.Image.{le16, le32}

-- The layout of the header in the ELF specification, little-endian, 52 bytes.
unfoldable pub fields : Ehdr → List ℕ
fields eh =
    le16 eh.e_type
    ++ (le16 eh.e_machine
        ++ (le32 eh.e_version
            ++ (le32 eh.e_entry
                ++ (le32 eh.e_phoff
                    ++ (le32 eh.e_shoff
                        ++ (le32 eh.e_flags
                            ++ (le16 eh.e_ehsize
                                ++ (le16 eh.e_phentsize
                                    ++ (le16 eh.e_phnum
                                        ++ (le16 eh.e_shentsize
                                            ++ (le16 eh.e_shnum ++ le16 eh.e_shstrndx)))))))))))

unfoldable pub encode_eh : Ehdr → List ℕ
encode_eh eh = eh.e_ident ++ fields eh

abbrev pub Bytes : List ℕ → Type 0
Bytes [] = Unit
Bytes (c ∷ cs) = (c < 256) × Bytes cs

-- The ranges of the header's fields.
pub record IsEhdr (eh : Ehdr) : Type 0 where
  pub ident_bytes : Bytes eh.e_ident
  pub ident_length : length eh.e_ident ≡ 16
  pub type_16 : eh.e_type < 65536
  pub machine_16 : eh.e_machine < 65536
  pub version_32 : eh.e_version < 4294967296
  pub entry_32 : eh.e_entry < 4294967296
  pub phoff_32 : eh.e_phoff < 4294967296
  pub shoff_32 : eh.e_shoff < 4294967296
  pub flags_32 : eh.e_flags < 4294967296
  pub ehsize_16 : eh.e_ehsize < 65536
  pub phentsize_16 : eh.e_phentsize < 65536
  pub phnum_16 : eh.e_phnum < 65536
  pub shentsize_16 : eh.e_shentsize < 65536
  pub shnum_16 : eh.e_shnum < 65536
  pub shstrndx_16 : eh.e_shstrndx < 65536

pub read_ident-Reads : (cs : List ℕ) → Bytes cs → Reads (read_ident (length cs)) cs cs
unfolding read_ident
read_ident-Reads [] b f rest h =
    (ap (λ p. ([], record f { pos = p })) zero_more, ap (λ p. drop p f.bytes) (sym zero_more) ∙ h)
  where
    zero_more : f.pos ≡ f.pos + 0
    zero_more = omega arith
read_ident-Reads (c ∷ cs) b f rest h =
    let r = read_uint8-Reads c b.0 f (cs ++ rest) h in
    let s = read_ident-Reads cs b.1 (skip 1 f) rest r.1 in
    (
      rw (r.0, s.0) (ap (λ p. (c ∷ cs, record f { pos = p })) regroup),
      ap (λ p. drop p f.bytes) (sym regroup) ∙ s.1,
    )
  where
    regroup : f.pos + 1 + length cs ≡ f.pos + suc (length cs)
    regroup = omega arith

ident_lem :
    (cs rest : List ℕ)
    → Bytes cs
    → length cs ≡ 16
    → (read_ident 16 (record { bytes = cs ++ rest; pos = 0 })
        ≡ (cs, record { bytes = cs ++ rest; pos = 16 }))
      × (drop 16 (cs ++ rest) ≡ rest)
ident_lem cs rest b h =
    let r = read_ident-Reads cs b (record { bytes = cs ++ rest; pos = 0 }) rest refl in
    let start : 0 + length cs ≡ 16 = omega arith in (rw h at (rw start at r.0), rw start at r.1)

-- At the start of any file that begins with the 52 bytes of a header, `readEh` reads that header.
pub read_eh-encode_eh :
    (eh : Ehdr) (rest : List ℕ)
    → IsEhdr eh
    → read_eh (record { bytes = encode_eh eh ++ rest; pos = 0 })
      ≡ (eh, record { bytes = encode_eh eh ++ rest; pos = 52 })
unfolding read_eh encode_eh fields le16 le32
read_eh-encode_eh eh rest v =
    let r = ident_lem eh.e_ident (fields eh ++ rest) v.ident_bytes v.ident_length in
    let r0 = read_uint16-Reads eh.e_type v.type_16 (at 16) _ r.1 in
    let r1 = read_uint16-Reads eh.e_machine v.machine_16 (at 18) _ r0.1 in
    let r2 = read_uint32-Reads eh.e_version v.version_32 (at 20) _ r1.1 in
    let r3 = read_uint32-Reads eh.e_entry v.entry_32 (at 24) _ r2.1 in
    let r4 = read_uint32-Reads eh.e_phoff v.phoff_32 (at 28) _ r3.1 in
    let r5 = read_uint32-Reads eh.e_shoff v.shoff_32 (at 32) _ r4.1 in
    let r6 = read_uint32-Reads eh.e_flags v.flags_32 (at 36) _ r5.1 in
    let r7 = read_uint16-Reads eh.e_ehsize v.ehsize_16 (at 40) _ r6.1 in
    let r8 = read_uint16-Reads eh.e_phentsize v.phentsize_16 (at 42) _ r7.1 in
    let r9 = read_uint16-Reads eh.e_phnum v.phnum_16 (at 44) _ r8.1 in
    let r10 = read_uint16-Reads eh.e_shentsize v.shentsize_16 (at 46) _ r9.1 in
    let r11 = read_uint16-Reads eh.e_shnum v.shnum_16 (at 48) _ r10.1 in
    let r12 = read_uint16-Reads eh.e_shstrndx v.shstrndx_16 (at 50) _ r11.1 in
    rw (
      append_assoc, r.0, r0.0, r1.0, r2.0, r3.0, r4.0, r5.0, r6.0, r7.0, r8.0, r9.0, r10.0, r11.0,
      r12.0,
    )
  where
    at : ℕ → File
    at n = record { bytes = eh.e_ident ++ (fields eh ++ rest); pos = n }
