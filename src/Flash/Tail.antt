-- ===== src/Flash/Tail.antt =====
-- targets/stm32l/hw/FLASH.cpp: the words that are stored, byte by byte.
use lib_stm.Base.{
  ℕ, zero, suc, ◌+◌, ◌-◌, ◌*◌, ◌/◌, ◌%◌, ◌^◌, ◌≤◌, ◌<◌, ◌==◌, ltb, true, false, not, ◌&&◌, ◌≡◌, ◌≢◌,
  refl, ap, ◌∙◌, Bool-cases, inl, inr, bit_or, bit_or-shifted, bit_or-ones, if◌then◌else◌, arith,
}
use lib_stm.Flash.{ones_from, masked}

-- The byte at place `k` of a word.
abbrev pub byte : ℕ → ℕ → ℕ
byte zero w = w % 256
byte (suc k) w = byte k (w / 256)

-- The word at index `i` has the data up to `len` bytes, and ones behind.
pub IsWanted : ℕ → (ℕ → ℕ) → ℕ → ℕ → Type 0
IsWanted len src i w =
    (k : ℕ) → k < 4 → byte k w ≡ (if ltb (4 * i + k) len then byte k (src i) else 255)

ones_from_1 : (w : ℕ) → w < 4294967296 → ones_from 1 w ≡ w % 256 + 4294967040
unfolding ones_from
ones_from_1 w h =
    ap (λ x. bit_or x 4294967040) split
    ∙ bit_or-shifted 8 (w / 256) (w % 256) 16777215 (omega arith)
    ∙ omega (arith, bit_or-ones 24 (w / 256) (omega arith))
  where
    split : w ≡ w / 256 * 2 ^ 8 + w % 256
    split = omega arith

ones_from_2 : (w : ℕ) → w < 4294967296 → ones_from 2 w ≡ w % 65536 + 4294901760
unfolding ones_from
ones_from_2 w h =
    ap (λ x. bit_or x 4294901760) split
    ∙ bit_or-shifted 16 (w / 65536) (w % 65536) 65535 (omega arith)
    ∙ omega (arith, bit_or-ones 16 (w / 65536) (omega arith))
  where
    split : w ≡ w / 65536 * 2 ^ 16 + w % 65536
    split = omega arith

ones_from_3 : (w : ℕ) → w < 4294967296 → ones_from 3 w ≡ w % 16777216 + 4278190080
unfolding ones_from
ones_from_3 w h =
    ap (λ x. bit_or x 4278190080) split
    ∙ bit_or-shifted 24 (w / 16777216) (w % 16777216) 255 (omega arith)
    ∙ omega (arith, bit_or-ones 8 (w / 16777216) (omega arith))
  where
    split : w ≡ w / 16777216 * 2 ^ 24 + w % 16777216
    split = omega arith

-- The bytes of a word that is masked behind its first `n` ones.
ones_from-byte :
    (n k w : ℕ)
    → 0 < n
    → n < 4
    → k < 4
    → w < 4294967296
    → byte k (ones_from n w) ≡ (if ltb k n then byte k w else 255)
ones_from-byte zero k w h h' hk hw = absurd (omega arith)
ones_from-byte (suc zero) zero w h h' hk hw = omega (arith, ones_from_1 w hw)
ones_from-byte (suc zero) (suc zero) w h h' hk hw = omega (arith, ones_from_1 w hw)
ones_from-byte (suc zero) (suc (suc zero)) w h h' hk hw = omega (arith, ones_from_1 w hw)
ones_from-byte (suc zero) (suc (suc (suc zero))) w h h' hk hw = omega (arith, ones_from_1 w hw)
ones_from-byte (suc (suc zero)) zero w h h' hk hw = omega (arith, ones_from_2 w hw)
ones_from-byte (suc (suc zero)) (suc zero) w h h' hk hw = omega (arith, ones_from_2 w hw)
ones_from-byte (suc (suc zero)) (suc (suc zero)) w h h' hk hw = omega (arith, ones_from_2 w hw)
ones_from-byte (suc (suc zero)) (suc (suc (suc zero))) w h h' hk hw =
    omega (arith, ones_from_2 w hw)
ones_from-byte (suc (suc (suc zero))) zero w h h' hk hw = omega (arith, ones_from_3 w hw)
ones_from-byte (suc (suc (suc zero))) (suc zero) w h h' hk hw = omega (arith, ones_from_3 w hw)
ones_from-byte (suc (suc (suc zero))) (suc (suc zero)) w h h' hk hw =
    omega (arith, ones_from_3 w hw)
ones_from-byte (suc (suc (suc zero))) (suc (suc (suc zero))) w h h' hk hw =
    omega (arith, ones_from_3 w hw)
ones_from-byte n (suc (suc (suc (suc k)))) w h h' hk hw = absurd (omega arith)
ones_from-byte (suc (suc (suc (suc n)))) k w h h' hk hw = absurd (omega arith)

whole : (len : ℕ) (src : ℕ → ℕ) (i : ℕ) → 4 * i + 4 ≤ len → IsWanted len src i (src i)
unfolding IsWanted
whole len src i h k hk = let t : ltb (4 * i + k) len ≡ true = ground arith in rw t refl

cut :
    (len : ℕ) (src : ℕ → ℕ) (i n : ℕ)
    → 0 < n
    → n < 4
    → src i < 4294967296
    → len ≡ 4 * i + n
    → IsWanted len src i (ones_from n (src i))
unfolding IsWanted
cut len src i n h h' hw e k hk =
    let t : ltb (4 * i + k) len ≡ ltb k n = ground (arith, e) in
    rw t (ones_from-byte n k (src i) h h' hk hw)

behind : (len : ℕ) (src : ℕ → ℕ) (i : ℕ) → len ≤ 4 * i → IsWanted len src i 4294967295
unfolding IsWanted
behind len src i h k hk = let t : ltb (4 * i + k) len ≡ false = ground arith in rw t (all_ones k hk)
  where
    all_ones : (k : ℕ) → k < 4 → byte k 4294967295 ≡ 255
    all_ones zero hk = refl
    all_ones (suc zero) hk = refl
    all_ones (suc (suc zero)) hk = refl
    all_ones (suc (suc (suc zero))) hk = refl
    all_ones (suc (suc (suc (suc k)))) hk = absurd (omega arith)

-- Both words of each round, a last part of 4 bytes excepted.
pub masked-Wanted :
    (len : ℕ) (src : ℕ → ℕ) (i dwords : ℕ)
    → ((j : ℕ) → src j < 4294967296)
    → len % 8 ≢ 4
    → 0 < dwords
    → i + 2 * dwords ≡ 2 * ((len + 7) / 8)
    → IsWanted len src i (masked dwords len (src i) (src (i + 1))).0
      × IsWanted len src (i + 1) (masked dwords len (src i) (src (i + 1))).1
unfolding masked
masked-Wanted len src i dwords small no_half more at =
    elim (Bool-cases ((dwords == 1) && not (len % 8 == 0))) [
      | inl last ↦ elim (Bool-cases (ltb 4 (len % 8))) [
        | inl long ↦
            rw (last, long)
              (
                whole len src i (ground arith),
                cut len src (i + 1) (len % 8 - 4) (ground arith) (omega arith) (small (i + 1))
                    (ground arith),
              )
        | inr short ↦
            rw (last, short)
              (
                cut len src i (len % 8) (ground arith) (ground arith) (small i) (ground arith),
                behind len src (i + 1) (ground arith),
              )
      ]
      | inr full ↦ rw full (whole len src i (ground arith), whole len src (i + 1) (ground arith))
    ]
