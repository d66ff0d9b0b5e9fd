-- ===== src/Usart.antt =====
-- targets/stm32l/io/USARTInterrupt.cpp and USARTInterrupt.h: interrupt-driven transfers.
pub mod Slots
pub mod Queue
pub mod Receive
mod Tests
use lib_stm.Base.{
  ℕ, suc, ◌+◌, ◌==◌, if◌then◌else◌, Bool, true, false, not, ◌&&◌, List, [], ◌∷◌, ◌++◌,
}

-- `struct Buf`. A `char *` is its address, and NULL is 0.
pub record Buf : Type 0 where
  pub p : ℕ
  pub e : ℕ
  pub p2 : ℕ
  pub e2 : ℕ

abbrev pub empty_buf : Buf
empty_buf = record { p = 0; e = 0; p2 = 0; e2 = 0 }

abbrev pub Memory : Type 0
Memory = ℕ → ℕ

abbrev pub store : Memory → ℕ → ℕ → Memory
store m a v b = if a == b then v else m b

-- The pointers after one byte: `p` has moved on, and the second buffer takes over at the end.
unfoldable pub advance : Buf → ℕ → Buf
advance b p =
    if p == b.e && not (b.p2 == 0)
    then record { p = b.p2; e = b.e2; p2 = 0; e2 = 0 }
    else record b { p = p }

-- `Buf::Write`: a byte that finds no room is dropped.
unfoldable pub write : Buf → Memory → ℕ → Buf × Memory
write b m v = if b.p == b.e then (b, m) else (advance b (suc b.p), store m b.p v)

-- `Buf::ReadInto`: the byte for the register, and the new pointers.
unfoldable pub read_into : Buf → Memory → ℕ × Buf
read_into b m = (m b.p, advance b (suc b.p))

-- The object, the interrupt enables of the peripheral, the memory, and the bytes written to TDR.
pub record Usart : Type 0 where
  pub tx : Buf
  pub rx : Buf
  pub txeie : Bool
  pub rxneie : Bool
  pub irq_enabled : Bool
  pub memory : Memory
  pub sent : List ℕ

unfoldable pub rx_interrupt : ℕ → Usart → Usart
rx_interrupt rdr s =
    let (rx, memory) = write s.rx s.memory rdr in record s { rx = rx; memory = memory }

unfoldable pub tx_interrupt : Usart → Usart
tx_interrupt s =
    if s.tx.p == s.tx.e
    then record s { txeie = false }
    else (let (byte, tx) = read_into s.tx s.memory in
        record s { tx = tx; sent = s.sent ++ byte ∷ [] })

-- `Handler`, with the two flags of ISR and the value of RDR at its start.
unfoldable pub handler : Bool → Bool → ℕ → Usart → Usart
handler rxne txe rdr s = if rxne then rx_interrupt rdr s else if txe then tx_interrupt s else s

-- The choice that `AddBuffer` makes: the new pointers, and whether the buffer was taken.
unfoldable pub add : Buf → ℕ → ℕ → Bool × Buf
add b p e =
    if b.p == b.e
    then (true, record b { p = p; e = e })
    else if b.p2 == 0
    then (true, record b { p2 = p; e2 = e })
    else if b.e2 == p
    then (true, record b { e2 = e })
    else (false, b)

unfoldable pub add_buffer : Bool → ℕ → ℕ → Usart → Bool × Usart
add_buffer true p e s =
    let (taken, tx) = add s.tx p e in
    if taken
    then (true, record s { tx = tx; txeie = true; irq_enabled = true })
    else (false, record s { irq_enabled = true })
add_buffer false p e s =
    let (taken, rx) = add s.rx p e in
    if taken
    then (true, record s { rx = rx; rxneie = true; irq_enabled = true })
    else (false, record s { irq_enabled = true })

unfoldable pub reset_tx : Usart → Usart
reset_tx s = record s { tx = empty_buf; irq_enabled = true }

unfoldable pub reset_rx : Usart → Usart
reset_rx s = record s { rx = empty_buf; irq_enabled = true }
