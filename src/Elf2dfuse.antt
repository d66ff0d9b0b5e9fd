-- ===== src/Elf2dfuse.antt =====
-- elf2dfuse/elf2dfuse.c: from the section table of an ELF file to a DfuSe image.
pub mod Stdio
pub mod Header
pub mod CrcTable
pub mod Crc
pub mod Sections
pub mod Image
pub mod Convert
mod Tests
