-- ===== src/Elf2dfuse/Image/Complete.antt =====
-- elf2dfuse/elf2dfuse.c: the whole DfuSe file that `main` writes from the blob list.
use lib_stm.Base.{ℕ, ◌+◌, ◌<◌, ◌≡◌, refl, sym, ◌∙◌, List, [], ◌++◌, length, length-append, arith}
use mathlib.Core.List.{append_assoc}
use native.Mathlib.Nat.{zero-add}
use lib_stm.Elf2dfuse.Crc.{crc32_calc}
use lib_stm.Elf2dfuse.Sections.{Blob}
use lib_stm.Elf2dfuse.Image.{
  Output, ok, emit, le32, le16, dfu_prefix, target_prefix, suffix_head, finish, no_elements,
  count_elements, write_elements, write_image,
}
use lib_stm.Elf2dfuse.Image.Emit.{emit-emit, crc32_calc-append}
use lib_stm.Elf2dfuse.Image.Elements.{Filled}
use lib_stm.Elf2dfuse.Image.Layout.{space, Body, Passes, passes}

-- A DfuSe file of the blobs: the two prefixes with the true sizes, the image elements, the suffix,
-- and the checksum of all that stands in front of it.
pub record IsImage (vid pid : ℕ) (bs : List Blob) (image : List ℕ) : Type 0 where
  pub front : List ℕ
  pub body : List ℕ
  pub elements : ℕ
  pub is_body : Body bs elements body
  pub front_lem :
      front
      ≡ dfu_prefix (285 + length body)
        ++ (target_prefix (length body) elements ++ (body ++ suffix_head vid pid))
  pub image_lem : image ≡ front ++ le32 (crc32_calc 0xffffffff front)
  pub size_lem : length image ≡ 285 + length body + 16

finish_lem :
    (vid pid : ℕ) (front : List ℕ)
    → finish vid pid (emit front (record { written = []; crc32 = 0xffffffff }))
      ≡ (front ++ suffix_head vid pid)
        ++ le32 (crc32_calc 0xffffffff (front ++ suffix_head vid pid))
unfolding finish emit
finish_lem vid pid front = simp (append_assoc, crc32_calc-append)

abbrev nothing : Output
nothing = record { written = []; crc32 = 0xffffffff }

-- The prefixes as the counted sizes make them.
abbrev prefixes : ℕ → ℕ → List ℕ
prefixes size n = dfu_prefix (285 + size) ++ target_prefix size n

length-prefixes : (size n : ℕ) → length (prefixes size n) ≡ 285
unfolding dfu_prefix target_prefix le32
length-prefixes size n = refl

length-suffix_head : (vid pid : ℕ) → length (suffix_head vid pid) ≡ 12
unfolding suffix_head le16
length-suffix_head vid pid = refl

length-le32 : (x : ℕ) → length (le32 x) ≡ 4
unfolding le32
length-le32 x = refl

IsImage-of :
    (vid pid : ℕ) (bs : List Blob) (n : ℕ) (body : List ℕ)
    → Body bs n body
    → IsImage vid pid bs (finish vid pid (emit body (emit (prefixes (length body) n) nothing)))
IsImage-of vid pid bs n body b = record {
  front = (prefixes (length body) n ++ body) ++ suffix_head vid pid;
  body = body;
  elements = n;
  is_body = b;
  front_lem = simp append_assoc;
  image_lem = rw emit-emit (finish_lem vid pid (prefixes (length body) n ++ body));
  size_lem =
      rw (emit-emit, finish_lem)
        (omega (
          arith,
          length-append ((prefixes (length body) n ++ body) ++ suffix_head vid pid) (
              le32 (
                crc32_calc 0xffffffff ((prefixes (length body) n ++ body) ++ suffix_head vid pid))),
          length-le32
              (crc32_calc 0xffffffff ((prefixes (length body) n ++ body) ++ suffix_head vid pid)),
          length-append (prefixes (length body) n ++ body) (suffix_head vid pid),
          length-append (prefixes (length body) n) body,
          length-prefixes (length body) n,
          length-suffix_head vid pid,
        ));
}

write_image_step :
    (vid pid fuel : ℕ) (bs : List Blob) (size n : ℕ) (o : Output)
    → count_elements fuel bs no_elements
      ≡ ok (record { file_size = 285 + size; target_size = 0 + size; image_elements = 0 + n })
    → write_elements fuel 8 bs (emit (prefixes size n) nothing) ≡ ok o
    → write_image fuel 8 vid pid bs ≡ ok (finish vid pid o)
unfolding write_image
write_image_step vid pid fuel bs size n o c w = rw (c, zero-add size, zero-add n, emit-emit, w)

-- The counting pass gives the same sizes whatever is written before the elements.
from_Passes :
    (vid pid : ℕ) (bs : List Blob) (o : Output) (q : Passes (length bs) bs no_elements o)
    → Passes (length bs) bs no_elements (emit (prefixes (length q.body) q.elements) nothing)
    → (image : List ℕ) × (write_image (length bs) 8 vid pid bs ≡ ok image)
      × IsImage vid pid bs image
from_Passes vid pid bs o q p = (
  finish vid pid (emit p.body (emit (prefixes (length q.body) q.elements) nothing)),
  write_image_step vid pid (length bs) bs (length q.body) q.elements _ q.counted p.wrote,
  rw (same_size, same_count) (IsImage-of vid pid bs p.elements p.body p.is_body),
)
  where
    same_size : length q.body ≡ length p.body
    same_size = ground (arith, sym q.counted ∙ p.counted)

    same_count : q.elements ≡ p.elements
    same_count = ground (arith, sym q.counted ∙ p.counted)

-- For blobs that all hold a byte and fit in 32 bits the tool ends, with a round for each blob and
-- eight for each padding, and writes the DfuSe file of these blobs: its `DFUImageSize` is its length
-- less the suffix, its target size is that of its elements, and its checksum is that of the rest.
pub write_image_complete :
    (vid pid : ℕ) (bs : List Blob)
    → Filled bs
    → space bs + 285 < 4294967296
    → (image : List ℕ) × (write_image (length bs) 8 vid pid bs ≡ ok image)
      × IsImage vid pid bs image
write_image_complete vid pid bs f h =
    let q = passes (length bs) bs no_elements nothing (omega arith) f (omega arith) (omega arith) in
    from_Passes vid pid bs nothing q
      (passes (length bs) bs no_elements _ (omega arith) f (omega arith) (omega arith))
