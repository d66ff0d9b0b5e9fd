-- ===== src/Flash.antt =====
-- targets/stm32l/hw/FLASH.cpp: writes to the flash memory and the erasure of its pages.
pub mod Tail
pub mod Written
pub mod Erase
mod Tests
use lib_stm.Base.{
  ℕ, zero, suc, ◌+◌, ◌-◌, ◌*◌, ◌/◌, ◌%◌, ◌^◌, ◌==◌, leb, ltb, Bool, true, false, not, ◌&&◌, bit_or,
  if◌then◌else◌, u32,
}

-- The controller, and the memory by the index of its 32-bit words: whether the control register is
-- locked, and its bits PG and PER with the page number.
pub record Flash : Type 0 where
  pub locked : Bool
  pub pg : Bool
  pub per : Bool
  pub page : ℕ
  pub mem : ℕ → ℕ

unfoldable pub unlock : Flash → Flash
unlock f = record f { locked = false }

unfoldable pub lock : Flash → Flash
lock f = record f { locked = true }

-- `MODMASK(CR, FLASH_CR_PMASK, FLASH_CR_PG)` and `CR &= ~FLASH_CR_PG`: a locked register keeps its
-- value.
unfoldable pub start_programming : Flash → Flash
start_programming f = if f.locked then f else record f { pg = true; per = false; page = 0 }

unfoldable pub end_programming : Flash → Flash
end_programming f = if f.locked then f else record f { pg = false }

-- A word with ones in all bytes from byte `n` on: `w | ~0u << (n << 3)`.
unfoldable pub ones_from : ℕ → ℕ → ℕ
ones_from n w = bit_or w (4294967295 * 2 ^ (n * 8) % 4294967296)

-- The words that are stored of two words of data, where `dwords` are left: the last ones are masked
-- behind the data.
unfoldable pub masked : ℕ → ℕ → ℕ → ℕ → ℕ × ℕ
masked dwords len w1 w2 =
    if (dwords == 1) && not (len % 8 == 0)
    then (if ltb 4 (len % 8)
        then (w1, ones_from (len % 8 - 4) w2)
        else (ones_from (len % 8) w1, 4294967295))
    else (w1, w2)

-- `cell old new` is what a word holds when `new` has been written over `old` by the controller, which
-- takes effect only in the programming mode.
module _ (cell : ℕ → ℕ → ℕ) where
  unfoldable pub store : ℕ → ℕ → Flash → Flash
  store p w f =
      if not f.locked && f.pg
      then record f { mem = λ a. if a == p then cell (f.mem a) w else f.mem a }
      else f

  -- `WriteDouble`, to the word at index `p` and the next one.
  unfoldable pub write_double : ℕ → ℕ → ℕ → Flash → Flash × Bool
  write_double p lo hi f =
      let f' =
        lock (end_programming (store (p + 1) hi (store p lo (start_programming (unlock f))))) in
      (f', (f'.mem p == lo) && (f'.mem (p + 1) == hi))

  -- The loop of `Write`, with the number of double words left: `src` is the data by its words.
  unfoldable pub write_loop : ℕ → ℕ → (ℕ → ℕ) → ℕ → ℕ → Flash → Flash × ℕ
  write_loop len p src i zero f = (f, 0)
  write_loop len p src i (suc dwords) f =
      let (w1, w2) = masked (suc dwords) len (src i) (src (i + 1)) in
      let f' = store (p + i + 1) w2 (store (p + i) w1 f) in
      let rest = write_loop len p src (i + 2) dwords f' in
      if (f'.mem (p + i) == w1) && (f'.mem (p + i + 1) == w2) then rest else (f', suc dwords)

  -- `Write` of `len` bytes.
  unfoldable pub write : ℕ → (ℕ → ℕ) → ℕ → Flash → Flash × Bool
  write p src len f =
      let (f', dwords) = write_loop len p src 0 ((len + 7) / 8) (start_programming (unlock f)) in
      if len == 0 then (f, true) else (lock (end_programming f'), dwords == 0)
