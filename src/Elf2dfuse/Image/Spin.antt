-- ===== src/Elf2dfuse/Image/Spin.antt =====
-- elf2dfuse/elf2dfuse.c: a section of size 0 that starts an element keeps `main` in its loop.
use lib_stm.Base.{ℕ, zero, suc, ◌⊎◌, inl, inr, ◌≡◌, ◌≢◌, refl, List, [], ◌∷◌, arith, ◌<◌}
use lib_stm.Elf2dfuse.Sections.{Blob}
use lib_stm.Elf2dfuse.Image.{
  Output, ok, spin, element, padded, Totals, no_elements, count_elements, write_image,
  write_elements, write_blobs, write_padding,
}

-- The next blob, if there is one, lies elsewhere.
abbrev pub Apart : Blob → List Blob → Type 0
Apart b [] = Unit
Apart b (c ∷ cs) = b.address ≢ c.address

empty_element :
    (b : Blob) (next : List Blob)
    → b.address < 4294967296
    → b.count ≡ 0
    → Apart b next
    → element b.address 0 (b ∷ next) ≡ (0, next)
unfolding element
empty_element b [] hb h a = ground arith
empty_element b (c ∷ cs) hb h a = ground arith

padded-zero : padded 0 ≡ 0
unfolding padded
padded-zero = refl

write_padding-zero : (fuel : ℕ) (o : Output) → write_padding fuel 0 o ≡ ok o
unfolding write_padding
write_padding-zero zero o = refl
write_padding-zero (suc fuel) o = refl

write_blobs-zero :
    (pad : ℕ) (bs : List Blob) (o : Output) → write_blobs 0 pad bs o ≡ ok (pad, bs, o)
unfolding write_blobs
write_blobs-zero pad [] o = refl
write_blobs-zero pad (b ∷ bs) o = refl

-- The writing loop never passes such a blob.
write_elements_spins :
    (fuel pad_fuel : ℕ) (b : Blob) (next : List Blob) (o : Output)
    → b.address < 4294967296
    → b.count ≡ 0
    → Apart b next
    → write_elements fuel pad_fuel (b ∷ next) o ≡ spin
unfolding write_elements
write_elements_spins zero pad_fuel b next o hb h a = refl
write_elements_spins (suc fuel) pad_fuel b next o hb h a =
    rw (empty_element b next hb h a, padded-zero, write_blobs-zero, write_padding-zero)
      (write_elements_spins fuel pad_fuel b next _ hb h a)

count_elements-cases :
    (fuel : ℕ) (bs : List Blob) (t : Totals)
    → ((t' : Totals) × (count_elements fuel bs t ≡ ok t')) ⊎ (count_elements fuel bs t ≡ spin)
unfolding count_elements
count_elements-cases fuel [] t = inl (t, refl)
count_elements-cases zero (b ∷ bs) t = inr refl
count_elements-cases (suc fuel) (b ∷ bs) t = count_elements-cases fuel _ _

-- If the first blob is an empty section and the next one, if any, lies at another address, the tool
-- never ends: whatever the fuel, it is still in its loops when the fuel runs out.
pub write_image_spins :
    (fuel pad_fuel vid pid : ℕ) (b : Blob) (next : List Blob)
    → b.address < 4294967296
    → b.count ≡ 0
    → Apart b next
    → write_image fuel pad_fuel vid pid (b ∷ next) ≡ spin
unfolding write_image
write_image_spins fuel pad_fuel vid pid b next hb h a =
    elim (count_elements-cases fuel (b ∷ next) no_elements) [
      | inl (t, e) ↦ rw (e, write_elements_spins fuel pad_fuel b next _ hb h a)
      | inr e ↦ rw e
    ]
