-- ===== src/Usb/Endpoints/Send.antt =====
-- targets/stm32-otgfs/usb/DeviceEndpoints.cpp: a packet goes out word by word, in order.
use lib_stm.Base.{
  ℕ, zero, suc, ◌+◌, ◌-◌, ◌/◌, ◌≤◌, ◌<◌, ◌==◌, ==_iff, ltb, min, if◌then◌else◌, ◌≡◌, refl, ap, ◌∙◌,
  Bool, true, false, Bool-cases, inl, inr, List, [], ◌∷◌, ◌++◌, arith,
}
use mathlib.Core.List.{append_assoc}
use native.Mathlib.Nat.{zero-add, add-zero}
use lib_stm.Usb.Endpoints.{InEndpoint, words, send_packet, fifo_empty, handle_in_interrupts}

pub words-append :
    (memory : ℕ → ℕ) (p m n : ℕ)
    → words memory p m ++ words memory (p + m) n ≡ words memory p (m + n)
unfolding words
words-append memory p zero n = rw (zero-add, add-zero)
words-append memory p (suc m) n =
    let shift : p + suc m ≡ suc p + m = omega arith in
    let sum : suc m + n ≡ suc (m + n) = omega arith in
    rw (shift, sum) (ap (λ l. memory p ∷ l) (words-append memory (suc p) m n))

-- The words that are still to go out.
abbrev pub to_go : (ℕ → ℕ) → InEndpoint → List ℕ
to_go memory e = words memory e.tx_ptr e.tx_words

-- From `d` to `e`, the words pushed and to go are the same, and the interrupt stays enabled while
-- there are words to go.
pub record Carried (memory : ℕ → ℕ) (d e : InEndpoint) : Type 0 where
  pub order : e.pushed ++ to_go memory e ≡ d.pushed ++ to_go memory d
  pub enabled : 0 < e.tx_words → e.empty_enabled ≡ true
  pub fewer : e.tx_words ≤ d.tx_words

-- The interrupts of an endpoint: the flags TXFE, XFRC and EPDISD, and the free words of its FIFO.
pub record Interrupt : Type 0 where
  pub txfe : Bool
  pub xfrc : Bool
  pub epdisd : Bool
  pub room : ℕ

abbrev pub interrupt : (ℕ → ℕ) → Interrupt → InEndpoint → InEndpoint
interrupt memory i e = handle_in_interrupts i.txfe i.xfrc i.epdisd memory i.room e

unfoldable pub interrupts : (ℕ → ℕ) → List Interrupt → InEndpoint → InEndpoint
interrupts memory [] e = e
interrupts memory (i ∷ is) e = interrupts memory is (interrupt memory i e)

fifo_empty-Carried :
    (memory : ℕ → ℕ) (room : ℕ) (e : InEndpoint)
    → (0 < e.tx_words → e.empty_enabled ≡ true)
    → Carried memory e (fifo_empty memory room e)
unfolding fifo_empty
fifo_empty-Carried memory room e h = elim (Bool-cases (e.tx_words - min e.tx_words room == 0)) [
  | inl done ↦
      let none_left : e.tx_words - min e.tx_words room ≡ 0 = (==_iff _ 0).0 done in
      rw done (record { order = kept; enabled = λ k. absurd (omega arith); fewer = omega arith })
  | inr some_left ↦
      let left : 0 < e.tx_words =
        omega (arith, not_zero (e.tx_words - min e.tx_words room) some_left) in
      rw some_left (record { order = kept; enabled = λ k. h left; fewer = omega arith })
]
  where
    not_zero : (n : ℕ) → (n == 0) ≡ false → 0 < n
    not_zero n h = ground arith

    batch : ℕ
    batch = min e.tx_words room

    whole : batch + (e.tx_words - batch) ≡ e.tx_words
    whole = omega arith

    kept :
        (e.pushed ++ words memory e.tx_ptr batch)
          ++ words memory (e.tx_ptr + batch) (e.tx_words - batch)
        ≡ e.pushed ++ to_go memory e
    kept =
        append_assoc e.pushed _ _
        ∙ ap (λ l. e.pushed ++ l)
            (words-append memory e.tx_ptr batch (e.tx_words - batch)
              ∙ ap (words memory e.tx_ptr) whole)

same-Carried :
    (memory : ℕ → ℕ) (e : InEndpoint)
    → (0 < e.tx_words → e.empty_enabled ≡ true)
    → Carried memory e e
same-Carried memory e h = record { order = refl; enabled = h; fewer = omega arith }

interrupt-Carried :
    (memory : ℕ → ℕ) (txfe xfrc epdisd : Bool) (room : ℕ) (e : InEndpoint)
    → (0 < e.tx_words → e.empty_enabled ≡ true)
    → Carried memory e (handle_in_interrupts txfe xfrc epdisd memory room e)
unfolding handle_in_interrupts
interrupt-Carried memory txfe xfrc epdisd room e h =
    disabled epdisd _ (completed xfrc _ (pushed txfe))
  where
    pushed : (b : Bool) → Carried memory e (if b then fifo_empty memory room e else e)
    pushed true = fifo_empty-Carried memory room e h
    pushed false = same-Carried memory e h

    completed :
        (b : Bool) (d : InEndpoint)
        → Carried memory e d
        → Carried memory e (if b then record d { transfer_complete = true } else d)
    completed true d c = record { order = c.order; enabled = c.enabled; fewer = c.fewer }
    completed false d c = c

    disabled :
        (b : Bool) (d : InEndpoint)
        → Carried memory e d
        → Carried memory e (if b then record d { endpoint_disabled = true } else d)
    disabled true d c = record { order = c.order; enabled = c.enabled; fewer = c.fewer }
    disabled false d c = c

interrupts-Carried :
    (memory : ℕ → ℕ) (is : List Interrupt) (e : InEndpoint)
    → (0 < e.tx_words → e.empty_enabled ≡ true)
    → Carried memory e (interrupts memory is e)
unfolding interrupts
interrupts-Carried memory [] e h = same-Carried memory e h
interrupts-Carried memory (i ∷ is) e h =
    let c = interrupt-Carried memory i.txfe i.xfrc i.epdisd i.room e h in
    let r = interrupts-Carried memory is (interrupt memory i e) c.enabled in
    record {
      order = r.order ∙ c.order;
      enabled = r.enabled;
      fewer = omega (arith, r.fewer, c.fewer);
    }

-- After `SendPacket` of `size` bytes from word `p` on, whatever the interrupts and however little
-- room each finds, the words pushed to the FIFO and then those to go are those pushed before and
-- then all the words of the data that a transfer can hold, in order; and the FIFO-empty interrupt
-- stays enabled while words are to go.
pub send_packet-Carried :
    (memory : ℕ → ℕ) (max p size : ℕ) (is : List Interrupt) (e : InEndpoint)
    → let f = interrupts memory is (send_packet max p size e) in
      (f.pushed ++ to_go memory f ≡ e.pushed ++ words memory p ((min max size + 3) / 4))
      × (0 < f.tx_words → f.empty_enabled ≡ true)
unfolding send_packet
send_packet-Carried memory max p size is e =
    let c = interrupts-Carried memory is (send_packet max p size e) on in
    (c.order ∙ ap (λ n. e.pushed ++ words memory p ((n + 3) / 4)) (shorter max size), c.enabled)
  where
    shorter : (m n : ℕ) → (if ltb m n then m else n) ≡ min m n
    shorter m n = ground arith

    on : 0 < (send_packet max p size e).tx_words → (send_packet max p size e).empty_enabled ≡ true
    on h = ground arith
