-- ===== src/Usart/Queue.antt =====
-- targets/stm32l/io/USARTInterrupt.cpp: the transmit side is a queue of bytes.
use lib_stm.Base.{
  ℕ, suc, ◌-◌, ◌<◌, ◌==◌, ==_iff, ◌≡◌, ◌≢◌, refl, sym, ap, ◌∙◌, Bool-cases, inl, inr, true, false,
  List, [], ◌∷◌, ◌++◌, map, if◌then◌else◌, range,
}
use mathlib.Core.List.{append-nil, append_assoc, map-append}
use lib_stm.Usart.{Usart, advance, read_into, tx_interrupt, handler, add, add_buffer}
use lib_stm.Usart.Slots.{slots, IsValid, slots-nil, advance-slots, add-slots}

-- The bytes that are still to be sent, in order.
abbrev pub pending : Usart → List ℕ
pending s = map s.memory (slots s.tx)

-- The pointers are valid, and the interrupt is enabled while there is something to send.
pub record IsLive (s : Usart) : Type 0 where
  pub valid : IsValid s.tx
  pub enabled : pending s ≢ [] → s.txeie ≡ true

-- What the program and the peripheral do to the transmit side.
pub data Event : Type 0 where
  ready : Event
  submit : ℕ → ℕ → Event

-- A transmit-empty interrupt, or `AddTxBuffer` of the addresses from `p` up to `e`.
unfoldable pub step : Usart → Event → Usart
step s ready = handler false true 0 s
step s (submit p e) = (add_buffer true p e s).1

-- The bytes that an event hands over, if it is accepted.
unfoldable pub accepted : Usart → Event → List ℕ
accepted s ready = []
accepted s (submit p e) = if (add_buffer true p e s).0 then map s.memory (range p (e - p)) else []

-- A buffer that is handed over is not empty, and is not at NULL.
abbrev pub IsProper : Event → Type 0
IsProper ready = Unit
IsProper (submit p e) = (0 < p) × (p < e)

-- From `s` to `t` nothing is lost, and `new` joins the end of the queue.
pub record Kept (s t : Usart) (new : List ℕ) : Type 0 where
  pub live : IsLive t
  pub same_memory : t.memory ≡ s.memory
  pub order : t.sent ++ pending t ≡ (s.sent ++ pending s) ++ new

step-idle : (s : Usart) → (s.tx.p == s.tx.e) ≡ true → step s ready ≡ record s { txeie = false }
unfolding step handler tx_interrupt
step-idle s h = rw h

step-send :
    (s : Usart)
    → (s.tx.p == s.tx.e) ≡ false
    → step s ready
      ≡ record s { tx = advance s.tx (suc s.tx.p); sent = s.sent ++ s.memory s.tx.p ∷ [] }
unfolding step handler tx_interrupt read_into
step-send s h = rw h

ready-Kept : (s : Usart) → IsLive s → Kept s (step s ready) []
ready-Kept s v = elim (Bool-cases (s.tx.p == s.tx.e)) [
  | inl done ↦
      let empty = slots-nil s.tx v.valid ((==_iff s.tx.p s.tx.e).0 done) in
      rw (step-idle s done) (record {
        live = record { valid = v.valid; enabled = λ h. absurd (h (rw empty)) };
        same_memory = refl;
        order = sym (append-nil _);
      })
  | inr more ↦
      let r = advance-slots s.tx v.valid (λ e. cc (more, (==_iff s.tx.p s.tx.e).1 e)) in
      rw (step-send s more) (record {
        live = record {
          valid = r.0;
          enabled = λ h. v.enabled (λ e. cc (e, ap (map s.memory) r.1));
        };
        same_memory = refl;
        order = rw (r.1, append_assoc, append_assoc, append-nil);
      })
]

submit-taken :
    (s : Usart) (p e : ℕ)
    → (add s.tx p e).0 ≡ true
    → (step s (submit p e) ≡ record s { tx = (add s.tx p e).1; txeie = true; irq_enabled = true })
      × (accepted s (submit p e) ≡ map s.memory (range p (e - p)))
unfolding step accepted add_buffer
submit-taken s p e h = (rw (h, step), rw (h, accepted))

submit-refused :
    (s : Usart) (p e : ℕ)
    → (add s.tx p e).0 ≡ false
    → (step s (submit p e) ≡ record s { irq_enabled = true }) × (accepted s (submit p e) ≡ [])
unfolding step accepted add_buffer
submit-refused s p e h = (rw (h, step), rw (h, accepted))

submit-Kept :
    (s : Usart) (p e : ℕ)
    → IsLive s
    → 0 < p
    → p < e
    → Kept s (step s (submit p e)) (accepted s (submit p e))
submit-Kept s p e v hp he =
    let r = add-slots s.tx p e v.valid hp he in
    elim r.1 [
      | inl (t, q) ↦
          rw ((submit-taken s p e t).0, (submit-taken s p e t).1)
            (record {
              live = record { valid = r.0; enabled = λ h. refl };
              same_memory = refl;
              order = rw (q, map-append, append_assoc);
            })
      | inr (t, q) ↦
          rw ((submit-refused s p e t).0, (submit-refused s p e t).1)
            (record {
              live = record { valid = v.valid; enabled = v.enabled };
              same_memory = refl;
              order = sym (append-nil _);
            })
    ]

step-Kept : (s : Usart) (ev : Event) → IsLive s → IsProper ev → Kept s (step s ev) (accepted s ev)
unfolding accepted
step-Kept s ready v h = ready-Kept s v
step-Kept s (submit p e) v h = submit-Kept s p e v h.0 h.1

unfoldable pub run : Usart → List Event → Usart
run s [] = s
run s (ev ∷ evs) = run (step s ev) evs

-- The bytes of all submissions that are accepted on the way.
unfoldable pub run_accepted : Usart → List Event → List ℕ
run_accepted s [] = []
run_accepted s (ev ∷ evs) = accepted s ev ++ run_accepted (step s ev) evs

abbrev pub AllProper : List Event → Type 0
AllProper [] = Unit
AllProper (ev ∷ evs) = IsProper ev × AllProper evs

-- In any interleaving of transmit interrupts and submissions of proper buffers, the bytes sent and
-- then the bytes pending are those sent and pending at the start, then those accepted, in order and
-- none twice; and the interrupt stays enabled while bytes are pending.
pub run-Kept :
    (evs : List Event) (s : Usart)
    → IsLive s
    → AllProper evs
    → Kept s (run s evs) (run_accepted s evs)
unfolding run run_accepted
run-Kept [] s v h = record { live = v; same_memory = refl; order = sym (append-nil _) }
run-Kept (ev ∷ evs) s v h =
    let k = step-Kept s ev v h.0 in
    let r = run-Kept evs (step s ev) k.live h.1 in
    record {
      live = r.live;
      same_memory = r.same_memory ∙ k.same_memory;
      order =
          r.order
          ∙ ap (λ l. l ++ run_accepted (step s ev) evs) k.order
          ∙ append_assoc (s.sent ++ pending s) (accepted s ev) (run_accepted (step s ev) evs);
    }
