-- ===== src/Elf2dfuse/Image/Layout.antt =====
-- elf2dfuse/elf2dfuse.c: the two passes of `main` agree, so the sizes in the image are its own.
use lib_stm.Base.{
  ℕ, zero, suc, ◌+◌, ◌-◌, ◌*◌, ◌%◌, ◌≤◌, ◌<◌, ◌≡◌, refl, ap, ◌∙◌, List, [], ◌∷◌, ◌++◌, length,
  length-append, length-replicate, replicate, u32, arith,
}
use lib_stm.Elf2dfuse.Sections.{Blob}
use lib_stm.Elf2dfuse.Image.{
  Output, Totals, ok, emit, le32, padded, count_elements, write_blobs, write_elements,
}
use lib_stm.Elf2dfuse.Image.Emit.{emit-emit, emit-nil, write_padding_lem}
use lib_stm.Elf2dfuse.Image.Elements.{
  total, contents, Contiguous, Filled, Filled-left, Filled-right, total-append, length-contents,
  padded_lem, write_blobs_lem, First, First-element,
}

-- Room in 32 bits for the blobs, and for a prefix and a padding with each of them.
abbrev pub space : List Blob → ℕ
space bs = total bs + 2056 * length bs

-- What an element is written as.
unfoldable pub element_bytes : List Blob → ℕ → List ℕ
element_bytes taken address =
    (le32 address ++ le32 (padded (total taken)))
    ++ (contents taken ++ replicate (padded (total taken) - total taken) 0xff)

length-element_bytes :
    (taken : List Blob) (address : ℕ)
    → Filled taken
    → total taken + 2048 < 4294967296
    → length (element_bytes taken address) ≡ 8 + padded (total taken)
unfolding element_bytes le32
length-element_bytes taken address f h = omega (
  arith,
  length-append (contents taken) (replicate (padded (total taken) - total taken) 0xff),
  length-replicate {A = ℕ} (padded (total taken) - total taken) 0xff,
  length-contents taken f,
  padded_lem (total taken) h,
)

-- One round of the writing loop.
write_step :
    (fuel : ℕ) (b : Blob) (next : List Blob) (o : Output) (s : First b next)
    → Filled (b ∷ next)
    → total (b ∷ s.taken) + 2048 < 4294967296
    → write_elements (suc fuel) 8 (b ∷ next) o
      ≡ write_elements fuel 8 s.rest (emit (element_bytes (b ∷ s.taken) b.address) o)
unfolding write_elements element_bytes
write_step fuel b next o s f h = rw (
  s.found,
  s.whole,
  ap (λ p. write_blobs size p (b ∷ (s.taken ++ s.rest)) start) split,
  write_blobs_lem (b ∷ s.taken) s.rest pad start filled (omega (arith, bounds)),
  write_padding_lem 8 pad (emit (contents (b ∷ s.taken)) start) (omega (arith, bounds)),
  emit-emit (contents (b ∷ s.taken)) (replicate pad 0xff) start,
  emit-emit,
)
  where
    size : ℕ
    size = total (b ∷ s.taken)

    pad : ℕ
    pad = padded size - size

    start : Output
    start = emit (le32 b.address ++ le32 (padded size)) o

    bounds : (padded size % 2048 ≡ 0) × (size ≤ padded size) × (padded size < size + 2048)
    bounds = padded_lem size h

    split : padded size ≡ size + pad
    split = omega (arith, bounds)

    filled : Filled (b ∷ s.taken)
    filled = Filled-left (b ∷ s.taken) s.rest (f.0, f.1, rw s.whole at f.2)

total-cons : (b : Blob) (bs : List Blob) → total (b ∷ bs) ≡ b.count + total bs
unfolding total
total-cons b bs = refl

-- One round of the counting loop.
count_step :
    (fuel : ℕ) (b : Blob) (next : List Blob) (t : Totals) (s : First b next)
    → total (b ∷ s.taken) + 2048 < 4294967296
    → t.file_size + 8 + padded (total (b ∷ s.taken)) < 4294967296
    → t.target_size + 8 + padded (total (b ∷ s.taken)) < 4294967296
    → t.image_elements + 1 < 4294967296
    → count_elements (suc fuel) (b ∷ next) t
      ≡ count_elements fuel s.rest (record {
        file_size = t.file_size + (8 + padded (total (b ∷ s.taken)));
        target_size = t.target_size + (8 + padded (total (b ∷ s.taken)));
        image_elements = t.image_elements + 1;
      })
unfolding count_elements
count_step fuel b next t s h hf ht hi =
    ap (λ r. count_elements fuel r.1 (after r.0)) s.found
    ∙ ap (count_elements fuel s.rest) (ground arith)
  where
    after : ℕ → Totals
    after size = record {
      file_size = u32 (u32 (t.file_size + 8) + padded size);
      target_size = u32 (u32 (t.target_size + 8) + padded size);
      image_elements = u32 (t.image_elements + 1);
    }

-- The image elements of a list: contiguous blobs in a row, each group with its address, its padded
-- size, its contents and its padding. The number is that of the groups.
pub data Body : List Blob → ℕ → List ℕ → Type 0 where
  none_left : Body [] 0 []
  group :
      (b : Blob) (taken rest bs : List Blob) (n : ℕ) (body : List ℕ)
      → bs ≡ (b ∷ taken) ++ rest
      → Contiguous b.address (b ∷ taken)
      → Body rest n body
      → Body bs (n + 1) (element_bytes (b ∷ taken) b.address ++ body)

-- What the two passes come to on one list.
pub record Passes (fuel : ℕ) (bs : List Blob) (t : Totals) (o : Output) : Type 0 where
  pub body : List ℕ
  pub elements : ℕ
  pub wrote : write_elements fuel 8 bs o ≡ ok (emit body o)
  pub counted :
      count_elements fuel bs t
      ≡ ok (record {
        file_size = t.file_size + length body;
        target_size = t.target_size + length body;
        image_elements = t.image_elements + elements;
      })
  pub is_body : Body bs elements body
  pub few : elements ≤ length bs
  pub fits : length body ≤ space bs

-- The sizes of a list that is cut behind its first element.
record Cut (b : Blob) (next : List Blob) (s : First b next) : Type 0 where
  blobs : length next ≡ length s.taken + length s.rest
  sizes : total (b ∷ next) ≡ total (b ∷ s.taken) + total s.rest
  padding : padded (total (b ∷ s.taken)) ≤ total (b ∷ s.taken) + 2047

cut_lem :
    (b : Blob) (next : List Blob) (s : First b next)
    → total (b ∷ next) + 2048 < 4294967296
    → Cut b next s
unfolding total
cut_lem b next s h = omega (
  arith,
  ap length s.whole,
  length-append s.taken s.rest,
  ap total s.whole,
  total-append s.taken s.rest,
  padded_lem (b.count + total s.taken),
)

abbrev counted_once : Totals → ℕ → Totals
counted_once t size = record {
  file_size = t.file_size + (8 + padded size);
  target_size = t.target_size + (8 + padded size);
  image_elements = t.image_elements + 1;
}

-- The first round of both loops, then the others.
module _ (fuel : ℕ) (b : Blob) (next : List Blob) (t : Totals) (o : Output) (s : First b next)
    (f : Filled (b ∷ next)) (ht : t.target_size ≤ t.file_size)
    (h : t.image_elements + space (b ∷ next) + t.file_size < 4294967296) (c : Cut b next s) where
  Filled-taken : Filled (b ∷ s.taken)
  Filled-taken = Filled-left (b ∷ s.taken) s.rest (f.0, f.1, rw s.whole at f.2)

  length-head : length (element_bytes (b ∷ s.taken) b.address) ≡ 8 + padded (total (b ∷ s.taken))
  length-head =
      length-element_bytes (b ∷ s.taken) b.address Filled-taken (omega (arith, c.sizes, h))

  Passes-cons :
      Passes fuel s.rest
        (counted_once t (total (b ∷ s.taken)))
        (emit (element_bytes (b ∷ s.taken) b.address) o)
      → Passes (suc fuel) (b ∷ next) t o
  Passes-cons p = record {
    body = element_bytes (b ∷ s.taken) b.address ++ p.body;
    elements = p.elements + 1;
    wrote =
        write_step fuel b next o s f (omega (arith, c.sizes, h))
        ∙ p.wrote
        ∙ ap ok (emit-emit _ _ o);
    counted =
        count_step fuel b next t s (omega (arith, c.sizes, h))
          (omega (arith, c.sizes, c.padding, h)) (omega (arith, c.sizes, c.padding, h, ht))
          (omega (arith, h))
        ∙ p.counted
        ∙ ap ok (ground (arith, lengths));
    is_body =
        group b s.taken s.rest (b ∷ next) p.elements p.body (ap (λ l. b ∷ l) s.whole) s.joined
          p.is_body;
    few = omega (arith, c.blobs, p.few);
    fits = omega (arith, c.blobs, c.sizes, c.padding, lengths, p.fits);
  }
    where
      lengths :
          length (element_bytes (b ∷ s.taken) b.address ++ p.body)
          ≡ 8 + padded (total (b ∷ s.taken)) + length p.body
      lengths =
          length-append (element_bytes (b ∷ s.taken) b.address) p.body
          ∙ ap (λ n. n + length p.body) length-head

-- With a round for each blob both passes end, and the sizes counted are those written.
pub passes :
    (fuel : ℕ) (bs : List Blob) (t : Totals) (o : Output)
    → length bs ≤ fuel
    → Filled bs
    → t.target_size ≤ t.file_size
    → t.image_elements + space bs + t.file_size < 4294967296
    → Passes fuel bs t o
unfolding write_elements count_elements
passes fuel [] t o hl f ht h = record {
  body = [];
  elements = 0;
  wrote = rw emit-nil;
  counted = ap ok (ground arith);
  is_body = none_left;
  few = omega arith;
  fits = omega arith;
}
passes zero (b ∷ next) t o hl f ht h = absurd (omega arith)
passes (suc fuel) (b ∷ next) t o hl f ht h =
    let s = First-element b next (omega (arith, total-cons b next)) in
    let c = cut_lem b next s (omega arith) in
    Passes-cons fuel b next t o s f ht h c (
      passes fuel s.rest (counted_once t (total (b ∷ s.taken)))
        (emit (element_bytes (b ∷ s.taken) b.address) o) (omega (arith, c.blobs))
        (Filled-right s.taken s.rest (rw s.whole at f.2)) (omega arith)
        (omega (arith, c.blobs, c.sizes, c.padding)))
