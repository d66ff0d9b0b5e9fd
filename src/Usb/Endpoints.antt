-- ===== src/Usb/Endpoints.antt =====
-- targets/stm32-otgfs/usb/DeviceEndpoints.cpp and DeviceEndpoints.h: the data endpoints.
-- The assertions at the starts of the operations, that no transfer is running, are left out.
pub mod Send
pub mod Receive
pub mod Sent
pub mod Timeout
mod Tests
use lib_stm.Base.{
  ℕ, zero, suc, ◌+◌, ◌-◌, ◌*◌, ◌/◌, ◌%◌, ◌^◌, ◌==◌, ltb, leb, min, if◌then◌else◌, Bool, true, false,
  List, [], ◌∷◌, ◌++◌, length, take, drop, u8,
}

-- `DeviceInEndpoint`: `tx_ptr` counts words of memory. `pushed` holds the words written to the FIFO,
-- `requested` the sizes given to `TransmitPacket`, and `empty_enabled` the bit that `InterruptEmpty`
-- sets.
pub record InEndpoint : Type 0 where
  pub tx_ptr : ℕ
  pub tx_words : ℕ
  pub transfer_complete : Bool
  pub endpoint_disabled : Bool
  pub empty_enabled : Bool
  pub requested : List ℕ
  pub pushed : List ℕ

-- The words that `TxFifoWrite` copies: `n` of them, from word `p` of the memory on.
unfoldable pub words : (ℕ → ℕ) → ℕ → ℕ → List ℕ
words memory p zero = []
words memory p (suc n) = memory p ∷ words memory (suc p) n

-- `SendPacket` up to its wait; the data are `size` bytes from word `p` on, and a transfer has at most
-- `max` bytes.
unfoldable pub send_packet : ℕ → ℕ → ℕ → InEndpoint → InEndpoint
send_packet max p size e =
    let cut : ℕ = if ltb max size then max else size in
    let tx_words = (cut + 3) / 4 in
    record e {
      tx_ptr = p;
      tx_words = tx_words;
      transfer_complete = false;
      endpoint_disabled = false;
      requested = e.requested ++ cut ∷ [];
      empty_enabled = if tx_words == 0 then e.empty_enabled else true;
    }

-- `SendPacket` behind its wait: the number of words that went out.
unfoldable pub send_result : Bool → ℕ → InEndpoint → ℕ × InEndpoint
send_result in_time p e = (e.tx_ptr - p, if in_time then e else record e { tx_words = 0 })

-- The part of `HandleInterrupts` for TXFE, with `room` words free in the FIFO.
unfoldable pub fifo_empty : (ℕ → ℕ) → ℕ → InEndpoint → InEndpoint
fifo_empty memory room e =
    let batch = min e.tx_words room in
    let e' = record e {
      tx_ptr = e.tx_ptr + batch;
      tx_words = e.tx_words - batch;
      pushed = e.pushed ++ words memory e.tx_ptr batch;
    } in
    if e'.tx_words == 0 then record e' { empty_enabled = false } else e'

unfoldable pub handle_in_interrupts : Bool → Bool → Bool → (ℕ → ℕ) → ℕ → InEndpoint → InEndpoint
handle_in_interrupts txfe xfrc epdisd memory room e =
    let e1 = if txfe then fifo_empty memory room e else e in
    let e2 = if xfrc then record e1 { transfer_complete = true } else e1 in
    if epdisd then record e2 { endpoint_disabled = true } else e2

-- `DeviceOutEndpoint`: the buffer with its bytes, and the number of words read from the FIFO.
pub record OutEndpoint : Type 0 where
  pub packet_buffer : List ℕ
  pub transfer_complete : Bool
  pub endpoint_disabled : Bool
  pub fifo_read : ℕ

-- A word in memory, little-endian.
abbrev pub word_bytes : ℕ → List ℕ
word_bytes w = u8 w ∷ u8 (w / 2 ^ 8) ∷ u8 (w / 2 ^ 16) ∷ u8 (w / 2 ^ 24) ∷ []

-- The bytes of `n` words from the FIFO; `fifo i` is what its read number `i` gives.
unfoldable pub read_words : (ℕ → ℕ) → ℕ → ℕ → List ℕ
read_words fifo i zero = []
read_words fifo i (suc n) = word_bytes (fifo i) ++ read_words fifo (suc i) n

-- `ReceivePacket` up to its wait, and its result.
unfoldable pub receive_packet : List ℕ → OutEndpoint → OutEndpoint
receive_packet buffer e = record e {
  packet_buffer = buffer;
  transfer_complete = false;
  endpoint_disabled = false;
}

unfoldable pub receive_result : OutEndpoint → ℕ
receive_result e = if e.transfer_complete then length e.packet_buffer else 0

-- The buffer when all the words fit, and when they do not.
unfoldable pub filled_buffer : (ℕ → ℕ) → ℕ → ℕ → List ℕ → List ℕ
filled_buffer fifo i n buffer =
    if leb (n * 4) (length buffer)
    then read_words fifo i n ++ drop (n * 4) buffer
    else (let to_read = length buffer / 4 in
        read_words fifo i to_read
        ++ (if length buffer % 4 == 0
            then []
            else take (length buffer % 4) (word_bytes (fifo (i + to_read)))))

-- The reads from the FIFO, in the order of the source.
unfoldable pub reads : ℕ → List ℕ → ℕ
reads n buffer =
    if leb (n * 4) (length buffer)
    then n
    else (let to_read = length buffer / 4 in
        let rest = n - to_read in
        if length buffer % 4 == 0 then to_read + rest else to_read + 1 + (rest - 1))

unfoldable pub packet_received : (ℕ → ℕ) → ℕ → OutEndpoint → OutEndpoint
packet_received fifo size e =
    let n = (size + 3) / 4 in
    record e {
      packet_buffer = take size (filled_buffer fifo e.fifo_read n e.packet_buffer);
      fifo_read = e.fifo_read + reads n e.packet_buffer;
      transfer_complete = true;
    }

unfoldable pub handle_out_interrupts : Bool → Bool → OutEndpoint → OutEndpoint
handle_out_interrupts xfrc epdisd e =
    let e1 = if xfrc then record e { transfer_complete = true } else e in
    if epdisd then record e1 { endpoint_disabled = true } else e1
