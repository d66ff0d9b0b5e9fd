-- ===== src/Usb/Endpoints/Sent.antt =====
-- targets/stm32-otgfs/usb/DeviceEndpoints.cpp: how far a transfer of SendPacket has come.
use lib_stm.Base.{
  ℕ, ◌+◌, ◌-◌, ◌/◌, ◌≤◌, ◌==◌, ltb, min, if◌then◌else◌, ◌≡◌, inl, inr, sym, ap, ◌∙◌, Bool,
  Bool-cases, true, false, List, [], ◌∷◌, ◌++◌, arith,
}
use mathlib.Core.List.{append_assoc, append-nil}
use lib_stm.Usb.Endpoints.{InEndpoint, words, send_packet, fifo_empty, handle_in_interrupts}
use lib_stm.Usb.Endpoints.Send.{Interrupt, interrupt, interrupts, words-append}

-- Of `total` words from word `start` on, those before `tx_ptr` are pushed, behind what was pushed before.
pub record Sent (memory : ℕ → ℕ) (start total : ℕ) (before : List ℕ) (e : InEndpoint) : Type 0 where
  pub from : start ≤ e.tx_ptr
  pub order : e.pushed ≡ before ++ words memory start (e.tx_ptr - start)
  pub whole : e.tx_ptr - start + e.tx_words ≡ total

fifo_empty-Sent :
    (memory : ℕ → ℕ) (start total room : ℕ) (before : List ℕ) (e : InEndpoint)
    → Sent memory start total before e
    → Sent memory start total before (fifo_empty memory room e)
unfolding fifo_empty
fifo_empty-Sent memory start total room before e s =
    elim (Bool-cases (e.tx_words - min e.tx_words room == 0)) [
      | inl done ↦ rw done (record { from = omega (arith, s.from); order = more; whole = rest })
      | inr left ↦ rw left (record { from = omega (arith, s.from); order = more; whole = rest })
    ]
  where
    batch : ℕ
    batch = min e.tx_words room

    rest : e.tx_ptr + batch - start + (e.tx_words - batch) ≡ total
    rest = omega (arith, s.from, s.whole)

    next : start + (e.tx_ptr - start) ≡ e.tx_ptr
    next = omega (arith, s.from)

    count : e.tx_ptr - start + batch ≡ e.tx_ptr + batch - start
    count = omega (arith, s.from)

    more :
        e.pushed ++ words memory e.tx_ptr batch
        ≡ before ++ words memory start (e.tx_ptr + batch - start)
    more =
        ap (λ l. l ++ words memory e.tx_ptr batch) s.order
        ∙ append_assoc before _ _
        ∙ ap (λ q. before ++ (words memory start (e.tx_ptr - start) ++ words memory q batch))
            (sym next)
        ∙ ap (λ l. before ++ l) (words-append memory start (e.tx_ptr - start) batch)
        ∙ ap (λ n. before ++ words memory start n) count

pub interrupts-Sent :
    (memory : ℕ → ℕ) (start total : ℕ) (before : List ℕ) (is : List Interrupt) (e : InEndpoint)
    → Sent memory start total before e
    → Sent memory start total before (interrupts memory is e)
unfolding interrupts handle_in_interrupts
interrupts-Sent memory start total before [] e s = s
interrupts-Sent memory start total before (i ∷ is) e s =
    interrupts-Sent memory start total before is (interrupt memory i e)
      (disabled i.epdisd _ (completed i.xfrc _ (pushed i.txfe)))
  where
    pushed :
        (b : Bool) → Sent memory start total before (if b then fifo_empty memory i.room e else e)
    pushed true = fifo_empty-Sent memory start total i.room before e s
    pushed false = s

    completed :
        (b : Bool) (d : InEndpoint)
        → Sent memory start total before d
        → Sent memory start total before (if b then record d { transfer_complete = true } else d)
    completed true d c = record { from = c.from; order = c.order; whole = c.whole }
    completed false d c = c

    disabled :
        (b : Bool) (d : InEndpoint)
        → Sent memory start total before d
        → Sent memory start total before (if b then record d { endpoint_disabled = true } else d)
    disabled true d c = record { from = c.from; order = c.order; whole = c.whole }
    disabled false d c = c

send_packet-Sent :
    (memory : ℕ → ℕ) (max start size : ℕ) (e : InEndpoint)
    → Sent memory start ((min max size + 3) / 4) e.pushed (send_packet max start size e)
unfolding send_packet words
send_packet-Sent memory max start size e = record {
  from = omega arith;
  order = rw none_yet (sym (append-nil e.pushed));
  whole = omega (arith, shorter max size);
}
  where
    none_yet : start - start ≡ 0
    none_yet = omega arith

    shorter : (m n : ℕ) → (if ltb m n then m else n) ≡ min m n
    shorter m n = ground arith

pub run-Sent :
    (memory : ℕ → ℕ) (max start size : ℕ) (is : List Interrupt) (e : InEndpoint)
    → Sent memory start
        ((min max size + 3) / 4)
        e.pushed
        (interrupts memory is (send_packet max start size e))
run-Sent memory max start size is e =
    interrupts-Sent memory start _ e.pushed is _ (send_packet-Sent memory max start size e)

-- With no words left, no interrupt pushes any.
pub interrupts-idle :
    (memory : ℕ → ℕ) (is : List Interrupt) (e : InEndpoint)
    → e.tx_words ≡ 0
    → (interrupts memory is e).pushed ≡ e.pushed
unfolding words
interrupts-idle memory is e none_left =
    let s = interrupts-Sent memory e.tx_ptr 0 e.pushed is e (record {
      from = omega arith;
      order = rw none_yet (sym (append-nil e.pushed));
      whole = omega (arith, none_left);
    }) in
    let no_more : (interrupts memory is e).tx_ptr - e.tx_ptr ≡ 0 = omega (arith, s.whole) in
    s.order ∙ ap (λ n. e.pushed ++ words memory e.tx_ptr n) no_more ∙ append-nil e.pushed
  where
    none_yet : e.tx_ptr - e.tx_ptr ≡ 0
    none_yet = omega arith
