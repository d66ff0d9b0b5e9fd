-- ===== src/Usart/Receive.antt =====
-- targets/stm32l/io/USARTInterrupt.cpp: what a receive interrupt does with its byte.
use lib_stm.Base.{ℕ, ◌==◌, ==_iff, ◌≡◌, refl, Bool-cases, inl, inr, ◌⊎◌, Bool, true, [], ◌∷◌}
use lib_stm.Usart.{Usart, write, store, rx_interrupt, handler}
use lib_stm.Usart.Slots.{slots, IsValid, slots-nil, advance-slots}

-- The interrupt from `s` to `t` put `byte` into the first free place, if there was one.
abbrev pub Stored : Usart → ℕ → Usart → Type 0
Stored s byte t =
    ((slots s.rx ≡ []) × (t ≡ s))
    ⊎ (slots s.rx ≡ s.rx.p ∷ slots t.rx) × (t.memory ≡ store s.memory s.rx.p byte) × (t.tx ≡ s.tx)

-- A receive interrupt takes precedence over a transmit one. It stores its byte in the first free
-- place and leaves the other places free, and drops the byte only if there is none; it changes
-- nothing else, and the pointers stay valid.
pub rx-Stored :
    (s : Usart) (txe : Bool) (byte : ℕ)
    → IsValid s.rx
    → IsValid (handler true txe byte s).rx × Stored s byte (handler true txe byte s)
unfolding handler rx_interrupt write
rx-Stored s txe byte v = elim (Bool-cases (s.rx.p == s.rx.e)) [
  | inl full ↦ rw full (v, inl (slots-nil s.rx v ((==_iff s.rx.p s.rx.e).0 full), refl))
  | inr room ↦
      let r = advance-slots s.rx v (λ e. cc (room, (==_iff s.rx.p s.rx.e).1 e)) in
      rw room (r.0, inr (r.1, refl, refl))
]
