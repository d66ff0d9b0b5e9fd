-- ===== src/Elf2dfuse/Convert.antt =====
-- elf2dfuse/elf2dfuse.c: `main` from the opened ELF file to the bytes of the DfuSe file.
use lib_stm.Base.{
  arith, ◌≤◌, Bool, true, false, not, ◌||◌, ltb, Option, none, some, if◌then◌else◌, u16, ℕ, ◌+◌,
  ◌<◌, ◌≡◌, Bool-cases, inl, inr, List, [], ◌∷◌, length,
}
use lib_stm.Elf2dfuse.Stdio.{File}
use lib_stm.Elf2dfuse.Header.{read_eh, check_eh}
use lib_stm.Elf2dfuse.Header.Check.{IsArmExecutable, check_eh_iff}
use lib_stm.Elf2dfuse.Sections.{Blob, read_phs, load_sections}
use lib_stm.Elf2dfuse.Sections.Order.{IsSorted, IsRead, load_sections-Good}
use lib_stm.Elf2dfuse.Image.{Outcome, ok, bad_header, null_pointer, spin, convert}
use lib_stm.Elf2dfuse.Image.Elements.{Filled}
use lib_stm.Elf2dfuse.Image.Layout.{space}
use lib_stm.Elf2dfuse.Image.Complete.{IsImage, write_image_complete}

-- The numbers that the image names if the command line gives none.
abbrev usb_vendor_id : ℕ
usb_vendor_id = 0x0483

abbrev usb_product_id : ℕ
usb_product_id = 0xdf11

unfoldable pub vid_of : ℕ → ℕ → ℕ
vid_of argc arg = if ltb 3 argc then u16 arg else usb_vendor_id

unfoldable pub pid_of : ℕ → ℕ → ℕ
pid_of argc arg = if ltb 4 argc then u16 arg else usb_product_id

-- `main`: the number of arguments, the values of `strtoul` for the two numbers, the input file if it
-- can be opened, and whether the output file can. The results are the exit status, where -1 is 255,
-- and the bytes of the output file, if it was opened.
unfoldable pub run_tool :
    (ℕ → ℕ) → ℕ → ℕ → ℕ → ℕ → ℕ → Option File → Bool → Outcome (ℕ × Option (List ℕ))
run_tool heap fuel pad_fuel argc vid_arg pid_arg none writable = ok (255, none)
run_tool heap fuel pad_fuel argc vid_arg pid_arg (some elf) writable =
    if ltb argc 3 || not writable
    then ok (255, none)
    else status (convert heap fuel pad_fuel (vid_of argc vid_arg) (pid_of argc pid_arg) elf)
  where
    status : Outcome (List ℕ) → Outcome (ℕ × Option (List ℕ))
    status (ok image) = ok (0, some image)
    status bad_header = ok (255, some [])
    status null_pointer = null_pointer
    status spin = spin

-- The blob list that `main` builds from a file.
abbrev pub blobs : (ℕ → ℕ) → File → List Blob
blobs heap elf =
    let (eh, f) = read_eh elf in
    let (phs, f') = read_phs eh eh.e_phnum 0 f in (load_sections heap eh phs eh.e_shnum 0 [] f').0

-- No section that was taken is empty.
abbrev pub NoneEmpty : List Blob → Type 0
NoneEmpty [] = Unit
NoneEmpty (b ∷ bs) = (0 < b.count) × NoneEmpty bs

Filled-of_read : (bs : List Blob) → NoneEmpty bs → IsRead bs → Filled bs
Filled-of_read [] n r = tt
Filled-of_read (b ∷ bs) n r = (n.0, r.0, Filled-of_read bs n.1 r.1)

-- Whatever the fuel, a file that is no 32-bit little-endian ARM executable is refused.
pub convert_refuses :
    (heap : ℕ → ℕ) (fuel pad_fuel vid pid : ℕ) (elf : File)
    → ¬ IsArmExecutable (read_eh elf).0
    → convert heap fuel pad_fuel vid pid elf ≡ bad_header
unfolding convert
convert_refuses heap fuel pad_fuel vid pid elf h = elim (Bool-cases (check_eh (read_eh elf).0)) [
  | inl e ↦ rw e
  | inr e ↦ absurd (h ((check_eh_iff (read_eh elf).0).0 e))
]

-- From a 32-bit little-endian ARM executable, if no section that is taken is empty and the sections
-- fit in 32 bits, the tool ends, with a round for each section taken, and writes the DfuSe file of
-- these sections, which are sorted by physical address.
pub convert_complete :
    (heap : ℕ → ℕ) (vid pid : ℕ) (elf : File)
    → IsArmExecutable (read_eh elf).0
    → NoneEmpty (blobs heap elf)
    → space (blobs heap elf) + 285 < 4294967296
    → (image : List ℕ) × (convert heap (length (blobs heap elf)) 8 vid pid elf ≡ ok image)
      × IsImage vid pid (blobs heap elf) image
      × IsSorted (blobs heap elf)
unfolding convert
convert_complete heap vid pid elf a n h =
    let eh = (read_eh elf).0 in
    let (phs, f') = read_phs eh eh.e_phnum 0 (read_eh elf).1 in
    let good = load_sections-Good heap eh phs eh.e_shnum 0 [] f' (tt, tt) in
    let filled = Filled-of_read (blobs heap elf) n good.1 in
    let w = write_image_complete vid pid (blobs heap elf) filled h in
    (w.0, rw ((check_eh_iff eh).1 a) (w.1), w.2, good.0)

-- With at least two arguments, and an input and an output that can be opened, the tool exits with
-- status 0 and the DfuSe file of the sections, on the same conditions on the input: a 32-bit
-- little-endian ARM executable, no section that is taken is empty, and the sections fit in 32 bits.
pub run_tool_complete :
    (heap : ℕ → ℕ) (argc vid_arg pid_arg : ℕ) (elf : File)
    → 3 ≤ argc
    → IsArmExecutable (read_eh elf).0
    → NoneEmpty (blobs heap elf)
    → space (blobs heap elf) + 285 < 4294967296
    → (image : List ℕ) × (run_tool heap
          (length (blobs heap elf))
          8
          argc
          vid_arg
          pid_arg
          (some elf)
          true
        ≡ ok (0, some image))
      × IsImage (vid_of argc vid_arg) (pid_of argc pid_arg) (blobs heap elf) image
unfolding run_tool
run_tool_complete heap argc vid_arg pid_arg elf e a n h =
    let c = convert_complete heap (vid_of argc vid_arg) (pid_of argc pid_arg) elf a n h in
    let enough : ltb argc 3 ≡ false = ground arith in (c.0, rw (enough, c.1), c.2)
