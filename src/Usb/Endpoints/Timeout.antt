-- ===== src/Usb/Endpoints/Timeout.antt =====
-- targets/stm32-otgfs/usb/DeviceEndpoints.cpp: the ends of SendPacket and ReceivePacket.
-- A wait with a time limit ends at once when its flag is set, and else with the time; a wait without
-- limit is `none` as long as its flag is not set.
use lib_stm.Base.{
  ℕ, ◌+◌, ◌-◌, ◌/◌, ◌<◌, ◌==◌, min, if◌then◌else◌, ◌≡◌, ◌⊎◌, inl, inr, refl, ap, ◌∙◌, Bool, ◌||◌,
  Bool-cases, true, false, Option, none, some, List, [], ◌∷◌, ◌++◌, length,
}
use lib_stm.Usb.Endpoints.{
  InEndpoint, OutEndpoint, words, send_packet, send_result, receive_packet, receive_result,
  packet_received, handle_out_interrupts,
}
use lib_stm.Usb.Endpoints.Receive.{packet_received_lem}
use lib_stm.Usb.Endpoints.Send.{Interrupt, interrupts, send_packet-Carried}
use lib_stm.Usb.Endpoints.Sent.{run-Sent, interrupts-Sent, interrupts-idle}
use lib_stm.Usb.Registers.{Registers, reset}

-- The endpoints with their registers.
pub record InPort : Type 0 where
  pub endpoint : InEndpoint
  pub registers : Registers

pub record OutPort : Type 0 where
  pub endpoint : OutEndpoint
  pub registers : Registers

-- `SendPacket` from its wait on, for data from word `start` on; `meanwhile` is what the interrupts do
-- during its second wait, for the endpoint to be disabled. `ep->Reset` is that of the registers.
unfoldable pub send_end : (InEndpoint → InEndpoint) → ℕ → InPort → Option (ℕ × InPort)
send_end meanwhile start p =
    if p.endpoint.transfer_complete
    then some (
      (send_result true start p.endpoint).0,
      record p { endpoint = (send_result true start p.endpoint).1 },
    )
    else (let e = meanwhile p.endpoint in
        if e.endpoint_disabled
        then some (
          (send_result false start e).0,
          record { endpoint = (send_result false start e).1; registers = reset p.registers },
        )
        else none)

-- `ReceivePacket` from its wait on, in the same way.
unfoldable pub receive_end : (OutEndpoint → OutEndpoint) → OutPort → Option (ℕ × OutPort)
receive_end meanwhile p =
    if p.endpoint.transfer_complete
    then some (receive_result p.endpoint, p)
    else (let e = meanwhile p.endpoint in
        if e.endpoint_disabled
        then some (receive_result e, record { endpoint = e; registers = reset p.registers })
        else none)

-- A packet of `size` bytes on the way through the interrupt handler: `HandleRx` passes it to the endpoint, but
-- not if it is empty, and then the endpoint has its interrupt XFRC.
unfoldable pub delivered : (ℕ → ℕ) → ℕ → OutEndpoint → OutEndpoint
delivered fifo size e =
    handle_out_interrupts true false (if size == 0 then e else packet_received fifo size e)

-- Interrupts without XFRC; each element says whether EPDISD is set.
unfoldable pub quiet : List Bool → OutEndpoint → OutEndpoint
quiet [] e = e
quiet (epdisd ∷ rest) e = quiet rest (handle_out_interrupts false epdisd e)

unfoldable pub any : List Bool → Bool
any [] = false
any (b ∷ bs) = b || any bs

-- While no packet comes, the transfer goes on, with its buffer.
quiet-Waiting :
    (flags : List Bool) (e : OutEndpoint)
    → e.transfer_complete ≡ false
    → ((quiet flags e).transfer_complete ≡ false)
      × ((quiet flags e).packet_buffer ≡ e.packet_buffer)
      × ((quiet flags e).endpoint_disabled ≡ (e.endpoint_disabled || any flags))
unfolding quiet handle_out_interrupts any
quiet-Waiting [] e h = (h, refl, or_none e.endpoint_disabled)
  where
    or_none : (b : Bool) → b ≡ (b || false)
    or_none true = refl
    or_none false = refl
quiet-Waiting (true ∷ rest) e h =
    let (w, b, d) = quiet-Waiting rest (record e { endpoint_disabled = true }) h in
    (w, b, d ∙ or_true e.endpoint_disabled)
  where
    or_true : (b : Bool) → true ≡ (b || true)
    or_true true = refl
    or_true false = refl
quiet-Waiting (false ∷ rest) e h = quiet-Waiting rest e h

-- What is returned for a packet.
abbrev pub received : ℕ → List ℕ → ℕ
received size buffer = if size == 0 then length buffer else min size (length buffer)

length-delivered :
    (fifo : ℕ → ℕ) (size : ℕ) (buffer : List ℕ) (d : OutEndpoint)
    → d.packet_buffer ≡ buffer
    → length (delivered fifo size d).packet_buffer ≡ received size buffer
unfolding delivered handle_out_interrupts
length-delivered fifo size buffer d same = elim (Bool-cases (size == 0)) [
  | inl empty ↦ rw (empty, same) refl
  | inr some_bytes ↦
      let (_, _, n) = packet_received_lem fifo size d in
      rw some_bytes (n ∙ ap (λ b. min size (length b)) same)
]

-- `ReceivePacket` into a buffer, after any interrupts without XFRC. If the time is over then, the
-- endpoint is reset, and the call goes on waiting unless an interrupt, before or after that, says that
-- the endpoint is disabled. Then it returns 0, with nothing written to the buffer. If a packet of
-- `size` bytes comes in time, it ends at once; if it comes after the time, but before the endpoint is
-- disabled, it is not lost either. In both cases it returns the length to which the buffer was cut. For
-- a packet with bytes this is the smaller one of the lengths of the packet and of the buffer. But
-- for a packet without bytes it is the whole length of the buffer, into which nothing was written.
pub receive_end_cases :
    (buffer : List ℕ) (flags later : List Bool) (fifo : ℕ → ℕ) (size : ℕ) (e : OutEndpoint)
    (r : Registers)
    → let waiting = quiet flags (receive_packet buffer e) in
      let late = quiet later waiting in
      let after = quiet (true ∷ []) (delivered fifo size late) in
      let done : OutPort = record { endpoint = delivered fifo size waiting; registers = r } in
      (receive_end (quiet later) (record { endpoint = waiting; registers = r }) ≡ (
        if any flags || any later
        then some (0, record { endpoint = late; registers = reset r })
        else none))
      × (late.packet_buffer ≡ buffer)
      × (receive_end (quiet later) done ≡ some (received size buffer, done))
      × (length done.endpoint.packet_buffer ≡ received size buffer)
      × (receive_end
            (λ d. quiet (true ∷ []) (delivered fifo size (quiet later d)))
            (record { endpoint = waiting; registers = r })
          ≡ some (received size buffer, record { endpoint = after; registers = reset r }))
      × ((delivered fifo 0 waiting).packet_buffer ≡ buffer)
unfolding receive_packet receive_end receive_result delivered quiet handle_out_interrupts
receive_end_cases buffer flags later fifo size e r =
    let waiting = quiet flags (receive_packet buffer e) in
    let w = quiet-Waiting flags (receive_packet buffer e) refl in
    let l = quiet-Waiting later waiting w.0 in
    let after = quiet (true ∷ []) (delivered fifo size (quiet later waiting)) in
    let disabled = l.2 ∙ ap (λ b. b || any later) w.2 in
    let cut = length-delivered fifo size buffer waiting w.1 in
    let late_cut = length-delivered fifo size buffer (quiet later waiting) (l.1 ∙ w.1) in
    (
      rw (w.0, disabled, l.0) refl,
      l.1 ∙ w.1,
      ap (λ n. some (n, record { endpoint = delivered fifo size waiting; registers = r })) cut,
      cut,
      rw w.0 (ap (λ n. some (n, record { endpoint = after; registers = reset r })) late_cut),
      w.1,
    )

-- `SendPacket` of `size` bytes from word `start` on, with any interrupts before its wait ends, and any
-- more while it waits for the endpoint to be disabled. If the transfer is complete in time, it ends with that. If the time
-- is over, it waits for the endpoint to be disabled; then the words that are left are dropped, and no
-- interrupt that comes later pushes any of them. In both cases the number returned is that of the words
-- pushed to the FIFO, which are the first ones of the data, smaller than the number of all by those
-- that are left. While words are left in the first wait, the FIFO-empty interrupt stays enabled.
pub send_end_cases :
    (memory : ℕ → ℕ) (max start size : ℕ) (is meanwhile later : List Interrupt) (e : InEndpoint)
    (r : Registers)
    → let f = interrupts memory is (send_packet max start size e) in
      let g = interrupts memory meanwhile f in
      let total = (min max size + 3) / 4 in
      let end =
        send_end (interrupts memory meanwhile) start (record { endpoint = f; registers = r }) in
      (0 < f.tx_words → f.empty_enabled ≡ true)
      × (((f.transfer_complete ≡ true)
            × ((sent : ℕ) × (end ≡ some (sent, record { endpoint = f; registers = r }))
                × (f.pushed ≡ e.pushed ++ words memory start sent)
                × (sent + f.tx_words ≡ total)))
          ⊎ (((f.transfer_complete ≡ false) × (g.endpoint_disabled ≡ false) × (end ≡ none))
              ⊎ ((f.transfer_complete ≡ false)
                  × (g.endpoint_disabled ≡ true)
                  × ((sent : ℕ) × (q : InEndpoint) × (end
                        ≡ some (sent, record { endpoint = q; registers = reset r }))
                      × (q.pushed ≡ e.pushed ++ words memory start sent)
                      × (sent + g.tx_words ≡ total)
                      × ((interrupts memory later q).pushed ≡ q.pushed)))))
unfolding send_end send_result interrupts reset
send_end_cases memory max start size is meanwhile later e r =
    let f = interrupts memory is (send_packet max start size e) in
    let g = interrupts memory meanwhile f in
    let s = run-Sent memory max start size is e in
    let t = interrupts-Sent memory start _ e.pushed meanwhile f s in
    (
      (send_packet-Carried memory max start size is e).1,
      elim (Bool-cases f.transfer_complete) [
        | inl done ↦ inl (done, (f.tx_ptr - start, rw done refl, s.order, s.whole))
        | inr over ↦ elim (Bool-cases g.endpoint_disabled) [
          | inl off ↦ inr (
              inr (
                over,
                off,
                (
                  g.tx_ptr - start,
                  record g { tx_words = 0 },
                  rw (over, off) refl,
                  t.order,
                  t.whole,
                  interrupts-idle memory later (record g { tx_words = 0 }) refl,
                ),
              ))
          | inr on ↦ inr (inl (over, on, rw (over, on) refl))
        ]
      ],
    )
