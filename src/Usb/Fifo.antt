-- ===== src/Usb/Fifo.antt =====
-- targets/stm32-otgfs/usb/Device.cpp, `AllocateFifo`: the division of the FIFO memory.
use lib_stm.Base.{ℕ, zero, suc, ◌+◌, ◌-◌, ◌*◌, ◌≤◌, ◌<◌, ◌≡◌, refl, List, [], ◌∷◌, length, arith}

-- A part of the memory, in words, as a setup register names it.
pub record Region : Type 0 where
  pub start : ℕ
  pub depth : ℕ

abbrev pub rx_words : ℕ
rx_words = 64

abbrev pub tx_words : ℕ
tx_words = 32

-- The loop over the IN endpoints from 1 on: `n` rounds, with the next free word `ptr`.
unfoldable pub tx_fifos : ℕ → ℕ → List Region
tx_fifos zero ptr = []
tx_fifos (suc n) ptr = record { start = ptr; depth = tx_words } ∷ tx_fifos n (ptr + tx_words)

-- The region of the receive FIFO, of IN endpoint 0, and of the others in order.
unfoldable pub allocate_fifo_regions : ℕ → List Region
allocate_fifo_regions in_endpoints =
    record { start = 0; depth = rx_words }
    ∷ record { start = rx_words; depth = tx_words }
    ∷ tx_fifos (in_endpoints - 1) (rx_words + tx_words)

-- Each region starts where the one before it ends, from `a` up to `b`.
abbrev pub Packed : ℕ → ℕ → List Region → Type 0
Packed a b [] = a ≡ b
Packed a b (r ∷ rs) = (r.start ≡ a) × Packed (a + r.depth) b rs

tx_fifos-Packed :
    (n ptr : ℕ) → Packed ptr (ptr + 32 * n) (tx_fifos n ptr) × (length (tx_fifos n ptr) ≡ n)
unfolding tx_fifos
tx_fifos-Packed zero ptr = (omega arith, refl)
tx_fifos-Packed (suc n) ptr =
    let r = tx_fifos-Packed n (ptr + 32) in
    let e : ptr + 32 + 32 * n ≡ ptr + 32 * suc n = omega arith in
    ((refl, rw e at r.0), omega (arith, r.1))

-- The receive FIFO and one transmit FIFO for each IN endpoint fill the memory from its start without
-- gap or overlap, and with up to eight IN endpoints they stay in the 320 words that it has.
pub allocate_fifo_regions-Packed :
    (in_endpoints : ℕ)
    → 0 < in_endpoints
    → in_endpoints ≤ 8
    → Packed 0 (64 + 32 * in_endpoints) (allocate_fifo_regions in_endpoints)
      × (length (allocate_fifo_regions in_endpoints) ≡ in_endpoints + 1)
      × (64 + 32 * in_endpoints ≤ 320)
unfolding allocate_fifo_regions
allocate_fifo_regions-Packed in_endpoints h k =
    let r = tx_fifos-Packed (in_endpoints - 1) 96 in
    let e : 96 + 32 * (in_endpoints - 1) ≡ 64 + 32 * in_endpoints = omega arith in
    ((refl, (refl, rw e at r.0)), omega (arith, r.1), omega arith)
