-- ===== src/Flash/Tests.antt =====
-- targets/stm32l/hw/FLASH.cpp: eleven bytes are written, and pages erased.
use lib_stm.Base.{
  ℕ, ◌+◌, ◌*◌, ◌-◌, ◌/◌, ◌%◌, ◌==◌, ==_iff, ◌≡◌, ◌↔◌, refl, Bool, true, false, if◌then◌else◌,
  bit_and, arith,
}
use lib_stm.Base.Table.{all_below, all_below_sound, all_below_complete}
use lib_stm.Flash.{
  Flash, write, write_loop, masked, ones_from, store, unlock, lock, start_programming,
  end_programming,
}
use lib_stm.Flash.Written.{IsWritten, write-Written}
use lib_stm.Flash.Erase.{IsErased, IsPaged, erase, erase-Erased}

-- Bits of a cell can only be cleared.
abbrev cell : ℕ → ℕ → ℕ
cell old new = if old == 4294967295 then new else bit_and old new

abbrev erased : Flash
erased = record { locked = true; pg = false; per = false; page = 0; mem = λ a. 4294967295 }

abbrev data_words : ℕ → ℕ
data_words i = 305419896

write-Written_example :
    IsWritten cell 100 data_words 11 erased (write cell 100 data_words 11 erased)
write-Written_example =
    write-Written cell 100 data_words 11 erased (λ j. omega arith) (omega arith) refl

last_word_test : (write cell 100 data_words 11 erased).0.mem 102 ≡ 4281620088
unfolding write write_loop masked ones_from store unlock lock start_programming end_programming
last_word_test = refl

abbrev wipe : ℕ → (ℕ → ℕ) → ℕ → ℕ
wipe n mem a = if a / 512 == n then 4294967295 else mem a

abbrev all_ones : (ℕ → ℕ) → ℕ → Bool
all_ones mem n = all_below (λ k. mem (n * 512 + k) == 4294967295) 512

wipe-IsPaged : IsPaged wipe all_ones
wipe-IsPaged = record { elsewhere = λ n mem a h. ground arith; tested = tested }
  where
    tested :
        (mem : ℕ → ℕ) (n : ℕ)
        → (all_ones mem n ≡ true) ↔ ((a : ℕ) → a / 512 ≡ n → mem a ≡ 4294967295)
    tested mem n = (
      λ h a e.
          let at : n * 512 + a % 512 ≡ a = omega arith in
          rw at at (
            (==_iff (mem (n * 512 + a % 512)) 4294967295).0 (
              all_below_sound (λ k. mem (n * 512 + k) == 4294967295) 512 (a % 512) (omega arith)
                h)),
      λ h.
          all_below_complete (λ k. mem (n * 512 + k) == 4294967295) 512
            (λ k small. (==_iff (mem (n * 512 + k)) 4294967295).1 (h (n * 512 + k) (omega arith))),
    )

erase-Erased_example :
    IsErased wipe 1 ((3000 + 4000 - 1) / 2048 + 1 - 1) erased (erase wipe all_ones 3000 4000 erased)
erase-Erased_example =
    erase-Erased wipe all_ones wipe-IsPaged 3000 4000 erased (omega arith) (omega arith)
