-- ===== src/Elf2dfuse/Image/Elements.antt =====
-- elf2dfuse/elf2dfuse.c: what an element of the image is made of.
use lib_stm.Base.{
  ℕ, ◌+◌, ◌%◌, ◌==◌, ◌≤◌, ◌<◌, ◌≡◌, refl, ap, true, List, [], ◌∷◌, ◌++◌, length, length-append,
  Bool-cases, inl, inr, ==_iff, u32, sub32, bit_and, bit_and-round_down, arith,
}
use native.Mathlib.Nat.{zero-add}
use lib_stm.Elf2dfuse.Sections.{Blob}
use lib_stm.Elf2dfuse.Image.{Output, ok, emit, element, padded, write_blobs}
use lib_stm.Elf2dfuse.Image.Emit.{emit-emit, emit-nil}

-- The sum of the counts, and the contents in a row.
unfoldable pub total : List Blob → ℕ
total [] = 0
total (b ∷ bs) = b.count + total bs

unfoldable pub contents : List Blob → List ℕ
contents [] = []
contents (b ∷ bs) = b.content ++ contents bs

-- Every blob holds at least a byte, and as many as its count says.
abbrev pub Filled : List Blob → Type 0
Filled [] = Unit
Filled (b ∷ bs) = (0 < b.count) × (length b.content ≡ b.count) × Filled bs

pub Filled-left : (xs ys : List Blob) → Filled (xs ++ ys) → Filled xs
Filled-left [] ys f = tt
Filled-left (x ∷ xs) ys f = (f.0, f.1, Filled-left xs ys f.2)

pub Filled-right : (xs ys : List Blob) → Filled (xs ++ ys) → Filled ys
Filled-right [] ys f = f
Filled-right (x ∷ xs) ys f = Filled-right xs ys f.2

pub total-append : (xs ys : List Blob) → total (xs ++ ys) ≡ total xs + total ys
unfolding total
total-append [] ys = omega arith
total-append (x ∷ xs) ys = omega (arith, total-append xs ys)

pub length-contents : (bs : List Blob) → Filled bs → length (contents bs) ≡ total bs
unfolding contents total
length-contents [] f = refl
length-contents (b ∷ bs) f =
    omega (arith, length-append b.content (contents bs), length-contents bs f.2)

-- Each blob starts where the one before it ends.
abbrev pub Contiguous : ℕ → List Blob → Type 0
Contiguous phy [] = Unit
Contiguous phy (b ∷ bs) = (phy ≡ b.address) × Contiguous (u32 (phy + b.count)) bs

-- The blobs that `element` passes over: the element itself.
pub record Split (phy size : ℕ) (bs : List Blob) (result : ℕ × List Blob) : Type 0 where
  pub taken : List Blob
  pub whole : bs ≡ taken ++ result.1
  pub size_lem : result.0 ≡ size + total taken
  pub joined : Contiguous phy taken

-- `element` cuts the list in two, and adds up the counts of the first part.
pub element-Split :
    (phy size : ℕ) (bs : List Blob)
    → size + total bs < 4294967296
    → Split phy size bs (element phy size bs)
unfolding element total
element-Split phy size [] h = record {
  taken = [];
  whole = refl;
  size_lem = omega arith;
  joined = tt;
}
element-Split phy size (b ∷ bs) h = elim (Bool-cases (phy == b.address)) [
  | inl same ↦
      let e : u32 (size + b.count) ≡ size + b.count = omega arith in
      let s = element-Split (u32 (phy + b.count)) (size + b.count) bs (omega arith) in
      rw (same, e)
        (record {
          taken = b ∷ s.taken;
          whole = ap (λ t. b ∷ t) s.whole;
          size_lem = omega (arith, s.size_lem);
          joined = ((==_iff phy b.address).0 same, s.joined);
        })
  | inr other ↦ rw other (record { taken = []; whole = refl; size_lem = omega arith; joined = tt })
]

-- The element size is padded up to the next multiple of 2048, by less than 2048.
pub padded_lem :
    (n : ℕ) → n + 2048 < 4294967296 → (padded n % 2048 ≡ 0) × (n ≤ padded n) × (padded n < n + 2048)
unfolding padded
padded_lem n h = omega (arith, e, bit_and-round_down (n + 2047) (omega arith))
  where
    e : bit_and (u32 (u32 (n + 2048) + 4294967295)) 4294965248 ≡ bit_and (n + 2047) 4294965248
    e = ap (λ t. bit_and t 4294965248) (omega arith)

-- The data loop writes just the blobs of the element, and counts the padding down.
pub write_blobs_lem :
    (taken rest : List Blob) (pad : ℕ) (o : Output)
    → Filled taken
    → total taken + pad < 4294967296
    → write_blobs (total taken) (total taken + pad) (taken ++ rest) o
      ≡ ok (pad, rest, emit (contents taken) o)
unfolding write_blobs total contents
write_blobs_lem [] [] pad o f h = rw (emit-nil o, zero-add)
write_blobs_lem [] (b ∷ bs) pad o f h = rw (emit-nil o, zero-add)
write_blobs_lem (b ∷ bs) rest pad o f h = elim (Bool-cases (b.count + total bs == 0)) [
  | inl none_left ↦ absurd (omega (arith, (==_iff (b.count + total bs) 0).0 none_left))
  | inr more ↦
      let e : sub32 (b.count + total bs) b.count ≡ total bs = omega arith in
      let e' : sub32 (b.count + total bs + pad) b.count ≡ total bs + pad = omega arith in
      rw (more, e, e', write_blobs_lem bs rest pad (emit b.content o) f.2 (omega arith), emit-emit)
]

-- The element that starts at the head of the list holds the head at least.
pub record First (b : Blob) (next : List Blob) : Type 0 where
  pub taken : List Blob
  pub rest : List Blob
  pub whole : next ≡ taken ++ rest
  pub found : element b.address 0 (b ∷ next) ≡ (total (b ∷ taken), rest)
  pub joined : Contiguous b.address (b ∷ taken)

pub First-element : (b : Blob) (next : List Blob) → b.count + total next < 4294967296 → First b next
unfolding element total
First-element b next h =
    let e : u32 (0 + b.count) ≡ b.count = omega arith in
    let s = element-Split (u32 (b.address + b.count)) b.count next h in
    record {
      taken = s.taken;
      rest = (element (u32 (b.address + b.count)) b.count next).1;
      whole = s.whole;
      found =
          rw (eq_refl b.address, e)
            (λ i. (s.size_lem i, (element (u32 (b.address + b.count)) b.count next).1));
      joined = (refl, s.joined);
    }
  where
    eq_refl : (n : ℕ) → (n == n) ≡ true
    eq_refl n = ground arith
