-- ===== src/Elf2dfuse/Image/Emit.antt =====
-- elf2dfuse/elf2dfuse.c: blocks written one after the other, and the padding loop.
use lib_stm.Base.{
  ℕ, zero, suc, ◌+◌, ◌-◌, ◌*◌, ◌==◌, ◌≤◌, ltb, ◌≡◌, refl, true, List, [], ◌∷◌, ◌++◌, replicate,
  Bool-cases, inl, inr, ==_iff, arith,
}
use mathlib.Core.List.{append_assoc, append-nil}
use native.Mathlib.Nat.{zero-add, suc-add}
use lib_stm.Elf2dfuse.Crc.{crc32_step, crc32_calc}
use lib_stm.Elf2dfuse.Image.{Output, ok, emit, write_padding}

pub crc32_calc-append :
    (crc : ℕ) (xs ys : List ℕ) → crc32_calc crc (xs ++ ys) ≡ crc32_calc (crc32_calc crc xs) ys
unfolding crc32_calc
crc32_calc-append crc [] ys = refl
crc32_calc-append crc (x ∷ xs) ys = crc32_calc-append (crc32_step crc x) xs ys

pub emit-emit : (xs ys : List ℕ) (o : Output) → emit ys (emit xs o) ≡ emit (xs ++ ys) o
unfolding emit
emit-emit xs ys o = simp (append_assoc, crc32_calc-append)

pub emit-nil : (o : Output) → emit [] o ≡ o
unfolding emit crc32_calc
emit-nil o = simp append-nil

pub replicate-add : (m n k : ℕ) → replicate m k ++ replicate n k ≡ replicate (m + n) k
replicate-add zero n k = rw zero-add
replicate-add (suc m) n k = rw (replicate-add m n k, suc-add)

-- With a round for every 274 bytes the padding loop ends, and writes `n` bytes 0xFF.
pub write_padding_lem :
    (fuel n : ℕ) (o : Output)
    → n ≤ fuel * 274
    → write_padding fuel n o ≡ ok (emit (replicate n 0xff) o)
unfolding write_padding
write_padding_lem zero n o h = let e : n ≡ 0 = omega arith in rw (e, emit-nil o)
write_padding_lem (suc fuel) n o h = elim (Bool-cases (n == 0)) [
  | inl done ↦ let e : n ≡ 0 = (==_iff n 0).0 done in rw (e, emit-nil o)
  | inr more ↦ rw more (elim (Bool-cases (ltb 274 n)) [
    | inl big ↦ rw (
      big,
      write_padding_lem fuel (n - 274) (emit (replicate 274 0xff) o) (omega arith),
      emit-emit (replicate 274 0xff) (replicate (n - 274) 0xff) o,
      replicate-add,
      (add-sub n big),
    )
    | inr small ↦
        let e : n - n ≡ 0 = omega arith in
        rw (small, e, write_padding_lem fuel 0 (emit (replicate n 0xff) o) (omega arith), emit-nil)
  ])
]
  where
    add-sub : (n : ℕ) → ltb 274 n ≡ true → 274 + (n - 274) ≡ n
    add-sub n h = ground arith
