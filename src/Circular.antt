-- ===== src/Circular.antt =====
-- targets/stm32l/io/DMAReceiverCircular.cpp and DMAReceiverCircular.h: reading from a ring that the
-- DMA channel fills.
pub mod Unread
pub mod Ring
mod Tests
use lib_stm.Base.{ℕ, zero, suc, ◌+◌, ◌-◌, ◌==◌, ltb, min, if◌then◌else◌, ◌||◌, List, [], ◌∷◌, ◌++◌}

-- The members and the registers of the channel. Addresses are numbers; `base` is CMAR, and `cndtr`
-- the number of bytes before the channel starts again.
pub record Receiver : Type 0 where
  pub base : ℕ
  pub end : ℕ
  pub r : ℕ
  pub cndtr : ℕ

-- The constructor, on a buffer of `size` bytes at `pointer`.
unfoldable pub receiver : ℕ → ℕ → Receiver
receiver pointer size = record { base = pointer; end = pointer + size; r = pointer; cndtr = size }

unfoldable pub try_add_buffer : ℕ → ℕ → ℕ
try_add_buffer offset size = if offset == 0 then size else 0

-- The bytes that `memcpy` copies: `n` of them from address `p` on.
unfoldable pub copy : (ℕ → ℕ) → ℕ → ℕ → List ℕ
copy memory p zero = []
copy memory p (suc n) = memory p ∷ copy memory (suc p) n

-- The part up to the end of the ring, for a write position `w` before `r`: the bytes copied, the room
-- left in the buffer, and the new `r`.
unfoldable pub copy_to_end : (ℕ → ℕ) → ℕ → ℕ → Receiver → List ℕ × ℕ × ℕ
copy_to_end memory w room s =
    if ltb w s.r
    then (let block = min (s.end - s.r) room in
        (copy memory s.r block, room - block, if s.r + block == s.end then s.base else s.r + block))
    else ([], room, s.r)

-- `GetWritePointer` with `room` bytes in the buffer: the bytes stored in it, and the new state.
unfoldable pub get_write_pointer : (ℕ → ℕ) → ℕ → Receiver → List ℕ × Receiver
get_write_pointer memory room s =
    let w = s.end - s.cndtr in
    let (front, room', r) = copy_to_end memory w room s in
    let block = min (w - r) room' in
    if w == s.r || room == 0
    then ([], s)
    else if ltb r w
    then (front ++ copy memory r block, record s { r = r + block })
    else (front, record s { r = r })
