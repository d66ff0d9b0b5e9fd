-- ===== src/Elf2dfuse/Tests.antt =====
-- elf2dfuse/elf2dfuse.c: the tool on a small file, and on blob lists written out.
use lib_stm.Base.{ℕ, ◌+◌, ◌<◌, ◌≡◌, refl, List, [], ◌∷◌, ◌++◌, some, length, ◌-◌, arith}
use lib_stm.Elf2dfuse.Stdio.{File, fgetc, fseek, read_uint8, read_uint16, read_uint32}
use lib_stm.Elf2dfuse.Header.{Ehdr, Shdr, Phdr, read_ident, read_eh, read_sh, read_ph}
use lib_stm.Elf2dfuse.Header.Check.{IsArmExecutable}
use lib_stm.Elf2dfuse.Header.RoundTrip.{fields, encode_eh, IsEhdr, read_eh-encode_eh}
use lib_stm.Elf2dfuse.Crc.{crc32_step, crc32_calc}
use lib_stm.Elf2dfuse.Crc.Bitwise.{crc32_bitwise, crc32_calc-eq-bitwise}
use lib_stm.Elf2dfuse.Sections.{
  Blob, find_blob, fread_byte, fread, read_phs, in_segment, find_phy_addr, is_loadable_type,
  load_section, load_sections,
}
use lib_stm.Elf2dfuse.Sections.Order.{IsSorted, Good, load_sections-Good}
use lib_stm.Elf2dfuse.Sections.Address.{Located, find_phy_addr-Located}
use lib_stm.Elf2dfuse.Image.{ok, spin, padded, write_image, convert, le16, le32}
use lib_stm.Elf2dfuse.Image.Elements.{total}
use lib_stm.Elf2dfuse.Image.Layout.{space}
use lib_stm.Elf2dfuse.Image.Complete.{IsImage, write_image_complete}
use lib_stm.Elf2dfuse.Image.Spin.{write_image_spins}
use lib_stm.Elf2dfuse.Convert.{blobs, vid_of, convert_complete}

-- An executable with one segment and one section of four bytes.
abbrev eh : Ehdr
eh = record {
  e_ident = 0x7f ∷ b'E' ∷ b'L' ∷ b'F' ∷ 1 ∷ 1 ∷ 1 ∷ 0 ∷ 0 ∷ 0 ∷ 0 ∷ 0 ∷ 0 ∷ 0 ∷ 0 ∷ 0 ∷ [];
  e_type = 2;
  e_machine = 40;
  e_version = 1;
  e_entry = 134217729;
  e_phoff = 52;
  e_shoff = 84;
  e_flags = 0;
  e_ehsize = 52;
  e_phentsize = 32;
  e_phnum = 1;
  e_shentsize = 40;
  e_shnum = 1;
  e_shstrndx = 0;
}

abbrev segment : Phdr
segment = record {
  p_type = 1;
  p_offset = 124;
  p_vaddr = 536870912;
  p_paddr = 134217728;
  p_filesz = 4;
  p_memsz = 4;
  p_flags = 5;
  p_align = 4;
}

abbrev section : Shdr
section = record {
  sh_name = 0;
  sh_type = 1;
  sh_flags = 6;
  sh_addr = 536870912;
  sh_offset = 124;
  sh_size = 4;
  sh_link = 0;
  sh_info = 0;
  sh_addralign = 4;
  sh_entsize = 0;
}

abbrev words : List ℕ → List ℕ
words [] = []
words (w ∷ ws) = le32 w ++ words ws

abbrev tail : List ℕ
tail =
    words (1 ∷ 124 ∷ 536870912 ∷ 134217728 ∷ 4 ∷ 4 ∷ 5 ∷ 4 ∷ [])
    ++ (words (0 ∷ 1 ∷ 6 ∷ 536870912 ∷ 124 ∷ 4 ∷ 0 ∷ 0 ∷ 4 ∷ 0 ∷ []) ++ (10 ∷ 20 ∷ 30 ∷ 40 ∷ []))

abbrev elf : File
elf = record { bytes = encode_eh eh ++ tail; pos = 0 }

abbrev heap : ℕ → ℕ
heap i = 0

abbrev the_blob : Blob
the_blob = record { address = 134217728; count = 4; content = 10 ∷ 20 ∷ 30 ∷ 40 ∷ [] }

abbrev empty_blob : Blob
empty_blob = record { address = 134217728; count = 0; content = [] }

elf-blobs : blobs heap elf ≡ the_blob ∷ []
unfolding encode_eh fields le16 le32 read_eh read_ident read_uint8 read_uint16 read_uint32 fgetc
    fseek read_phs read_ph read_sh load_sections load_section is_loadable_type find_phy_addr
    in_segment fread fread_byte find_blob
elf-blobs = refl

eh_ranges : IsEhdr eh
eh_ranges = record {
  ident_bytes = ground arith;
  ident_length = refl;
  type_16 = omega arith;
  machine_16 = omega arith;
  version_32 = omega arith;
  entry_32 = omega arith;
  phoff_32 = omega arith;
  shoff_32 = omega arith;
  flags_32 = omega arith;
  ehsize_16 = omega arith;
  phentsize_16 = omega arith;
  phnum_16 = omega arith;
  shentsize_16 = omega arith;
  shnum_16 = omega arith;
  shstrndx_16 = omega arith;
}

eh-IsArm : IsArmExecutable eh
eh-IsArm = record { ident = refl; executable = refl; arm = refl; current = refl }

elf-header : (read_eh elf).0 ≡ eh
unfolding encode_eh fields le16 le32 read_eh read_ident read_uint8 read_uint16 read_uint32 fgetc
elf-header = refl

elf-IsArm : IsArmExecutable (read_eh elf).0
elf-IsArm = rw elf-header eh-IsArm

elf_not_empty : (0 < 4) × Unit {0}
elf_not_empty = (omega arith, tt)

elf_fits : space (blobs heap elf) + 285 < 4294967296
unfolding total
elf_fits = rw elf-blobs (omega arith)

convert_complete_example :
    (image : List ℕ) × (convert heap (length (blobs heap elf)) 8 0x0483 0xdf11 elf ≡ ok image)
    × IsImage 0x0483 0xdf11 (blobs heap elf) image
    × IsSorted (blobs heap elf)
convert_complete_example =
    convert_complete heap 0x0483 0xdf11 elf elf-IsArm (rw elf-blobs elf_not_empty) elf_fits

vid_test : vid_of 3 0 ≡ 0x0483
unfolding vid_of
vid_test = refl

blob_fits : space (the_blob ∷ []) + 285 < 4294967296
unfolding total
blob_fits = omega arith

write_image_complete_example :
    (image : List ℕ) × (write_image 1 8 0x0483 0xdf11 (the_blob ∷ []) ≡ ok image)
    × IsImage 0x0483 0xdf11 (the_blob ∷ []) image
write_image_complete_example =
    write_image_complete 0x0483 0xdf11 (the_blob ∷ []) (omega arith, refl, tt) blob_fits

write_image_spins_example : write_image 100 8 0x0483 0xdf11 (empty_blob ∷ []) ≡ spin
write_image_spins_example =
    write_image_spins 100 8 0x0483 0xdf11 empty_blob [] (omega arith) refl tt

crc32_calc-eq-bitwise_example :
    crc32_calc 0xffffffff (0x31 ∷ 0x32 ∷ []) ≡ crc32_bitwise 0xffffffff (0x31 ∷ 0x32 ∷ [])
crc32_calc-eq-bitwise_example =
    crc32_calc-eq-bitwise 0xffffffff (0x31 ∷ 0x32 ∷ []) (omega arith, (omega arith, tt))

-- The check value of the CRC-32 without its final complement, on the digits 1 to 9.
crc32_check :
    crc32_calc 0xffffffff (0x31 ∷ 0x32 ∷ 0x33 ∷ 0x34 ∷ 0x35 ∷ 0x36 ∷ 0x37 ∷ 0x38 ∷ 0x39 ∷ [])
    ≡ 4294967295 - 0xcbf43926
unfolding crc32_calc crc32_step
crc32_check = refl

load_sections-Good_example : Good (load_sections heap eh (segment ∷ []) 1 0 [] elf).0
load_sections-Good_example = load_sections-Good heap eh (segment ∷ []) 1 0 [] elf (tt, tt)

find_phy_addr-Located_example :
    Located section (segment ∷ []) (find_phy_addr section (segment ∷ []))
find_phy_addr-Located_example =
    find_phy_addr-Located section (segment ∷ [])
      (record { virtual_end = omega arith; physical_end = omega arith }, tt)

-- The section is moved from its virtual to its physical address.
phy_addr_test : find_phy_addr section (segment ∷ []) ≡ some 134217728
unfolding find_phy_addr in_segment
phy_addr_test = refl

read_eh-encode_eh_example :
    read_eh (record { bytes = encode_eh eh ++ tail; pos = 0 })
    ≡ (eh, record { bytes = encode_eh eh ++ tail; pos = 52 })
read_eh-encode_eh_example = read_eh-encode_eh eh tail eh_ranges

padded_test : padded 2049 ≡ 4096
unfolding padded
padded_test = refl
