-- ===== src/Dma/Drain.antt =====
-- targets/stm32/hw/DMA.cpp: whatever is linked is moved in the end.
use lib_stm.Base.{
  ℕ, zero, suc, ◌+◌, ◌-◌, ◌≤◌, ◌<◌, ◌==◌, ==_iff, true, false, not, ◌||◌, ◌≡◌, ◌⊎◌, refl, sym, ap,
  ◌∙◌, List, [], ◌∷◌, ◌++◌, Bool-cases, inl, inr, length, length-append, arith,
}
use mathlib.Core.List.{append-nil}
use lib_stm.Dma.{Channel, is_enabled, link_handler, transfer}
use lib_stm.Dma.Queue.{
  to_move, running, linked, IsLive, Kept, same-Kept, transfer-Kept, handler-stop, handler-start,
  transfer-busy, transfer-idle, one_on,
}
use lib_stm.Dma.Flags.{is_enabled-disable}
use lib_stm.Dma.Run.{serve, serve-Kept, then-Kept}

-- In each round the hardware moves a unit, if there is one, and the interrupt is served, if it is
-- pending.
unfoldable pub rounds : ℕ → Channel → Channel
rounds zero c = c
rounds (suc n) c = rounds n (serve (transfer c))

round-Kept : (ndt : ℕ) (c : Channel) → IsLive ndt c → Kept ndt c (serve (transfer c)) []
round-Kept ndt c v =
    let k = transfer-Kept ndt c v in then-Kept ndt k (serve-Kept ndt (transfer c) k.live)

rounds-Kept : (ndt n : ℕ) (c : Channel) → IsLive ndt c → Kept ndt c (rounds n c) []
unfolding rounds
rounds-Kept ndt zero c v = same-Kept ndt c v
rounds-Kept ndt (suc n) c v =
    let k = round-Kept ndt c v in then-Kept ndt k (rounds-Kept ndt n (serve (transfer c)) k.live)

-- A unit is about to move.
record IsBusy (c : Channel) : Type 0 where
  enabled : is_enabled c.ccr ≡ true
  units : 0 < c.cndtr

serve-requested : (c : Channel) → c.requested ≡ true → serve c ≡ link_handler c
unfolding serve
serve-requested c q = simp q refl

serve-idle : (c : Channel) → c.requested ≡ false → serve c ≡ c
unfolding serve
serve-idle c q = simp q refl

-- The interrupt has been served.
handler_settled :
    (ndt : ℕ) (c : Channel)
    → IsLive ndt c
    → IsBusy (link_handler c) ⊎ (to_move (link_handler c) ≡ [])
unfolding running linked
handler_settled ndt c v = elim (Bool-cases (c.link_ccr == 0)) [
  | inl nothing ↦ inr (rw (handler-stop c nothing) (rw (is_enabled-disable c.ccr, nothing) refl))
  | inr there ↦
      let l = v.link there in
      inl (rw (handler-start c there) (record { enabled = l.ready.enabled; units = l.some_units }))
]

-- There was nothing to serve.
idle_settled :
    (ndt : ℕ) (c : Channel) → IsLive ndt c → c.requested ≡ false → IsBusy c ⊎ (to_move c ≡ [])
unfolding running linked
idle_settled ndt c v q = elim (Bool-cases (is_enabled c.ccr)) [
  | inl e ↦ elim (Bool-cases (c.cndtr == 0)) [
    | inl z ↦ absurd (cc (q, v.finished e ((==_iff c.cndtr 0).0 z)))
    | inr more ↦ inl (record { enabled = e; units = ground arith })
  ]
  | inr e ↦ elim (Bool-cases (c.link_ccr == 0)) [
    | inl nothing ↦ inr (rw (e, nothing) refl)
    | inr there ↦ absurd (cc (q, v.waiting e there))
  ]
]

-- Once the interrupt has been served, something is about to move or nothing is left.
serve_settled : (ndt : ℕ) (c : Channel) → IsLive ndt c → IsBusy (serve c) ⊎ (to_move (serve c) ≡ [])
serve_settled ndt c v = elim (Bool-cases c.requested) [
  | inl q ↦ rw (serve-requested c q) (handler_settled ndt c v)
  | inr q ↦ rw (serve-idle c q) (idle_settled ndt c v q)
]

handler-moved : (c : Channel) → (link_handler c).moved ≡ c.moved
handler-moved c = elim (Bool-cases (c.link_ccr == 0)) [
  | inl nothing ↦ rw (handler-stop c nothing) refl
  | inr there ↦ rw (handler-start c there) refl
]

serve-moved : (c : Channel) → (serve c).moved ≡ c.moved
serve-moved c = elim (Bool-cases c.requested) [
  | inl q ↦ rw (serve-requested c q) (handler-moved c)
  | inr q ↦ rw (serve-idle c q) refl
]

transfer-moved : (c : Channel) → IsBusy c → length (transfer c).moved ≡ suc (length c.moved)
unfolding one_on
transfer-moved c b =
    rw (transfer-busy c (ground (arith, b.enabled, b.units)))
      (omega (arith, length-append c.moved ((c.cmar + (c.loaded - c.cndtr)) ∷ [])))

transfer-moved_le : (c : Channel) → length c.moved ≤ length (transfer c).moved
transfer-moved_le c = elim (Bool-cases (not (is_enabled c.ccr) || (c.cndtr == 0))) [
  | inl idle ↦ rw (transfer-idle c idle) (omega arith)
  | inr busy ↦
      let b : IsBusy c = record { enabled = ground arith; units = ground arith } in
      omega (arith, transfer-moved c b)
]

-- What a round moves is no longer to move.
round-length :
    (ndt : ℕ) (c : Channel)
    → IsLive ndt c
    → length (transfer c).moved + length (to_move (serve (transfer c)))
      ≡ length c.moved + length (to_move c)
round-length ndt c v =
    let d = serve (transfer c) in
    let whole : d.moved ++ to_move d ≡ c.moved ++ to_move c =
      (round-Kept ndt c v).order ∙ append-nil _ in
    omega (
      arith,
      ap length whole,
      length-append d.moved (to_move d),
      length-append c.moved (to_move c),
      ap length (serve-moved (transfer c)),
    )

length-nil : {A : Type 0} (xs : List A) → length xs ≡ 0 → xs ≡ []
length-nil [] h = refl
length-nil (x ∷ xs) h = absurd (omega arith)

-- Nothing left stays so.
round_nil :
    (ndt : ℕ) (c : Channel) → IsLive ndt c → to_move c ≡ [] → to_move (serve (transfer c)) ≡ []
round_nil ndt c v h =
    length-nil (to_move (serve (transfer c)))
      (omega (arith, ap length h, round-length ndt c v, transfer-moved_le c))

rounds_settled :
    (ndt n : ℕ) (c : Channel)
    → IsLive ndt c
    → IsBusy c ⊎ (to_move c ≡ [])
    → length (to_move c) ≤ n
    → to_move (rounds n c) ≡ []
unfolding rounds
rounds_settled ndt zero c v s h = length-nil (to_move c) (omega arith)
rounds_settled ndt (suc n) c v (inl busy) h =
    let k = transfer-Kept ndt c v in
    rounds_settled ndt n (serve (transfer c)) (round-Kept ndt c v).live
      (serve_settled ndt (transfer c) k.live)
      (omega (arith, round-length ndt c v, transfer-moved c busy))
rounds_settled ndt (suc n) c v (inr empty) h =
    let z = round_nil ndt c v empty in
    rounds_settled ndt n (serve (transfer c)) (round-Kept ndt c v).live (inr z)
      (omega (arith, ap length z))

-- Whatever is running or linked, and whether or not the channel stands still waiting for its
-- interrupt: after as many rounds as there are units to move, and one more, all of them have been
-- moved, in their order, and nothing is left.
pub rounds_drain :
    (ndt n : ℕ) (c : Channel)
    → IsLive ndt c
    → length (to_move c) < n
    → ((rounds n c).moved ≡ c.moved ++ to_move c) × (to_move (rounds n c) ≡ [])
unfolding rounds
rounds_drain ndt zero c v h = absurd (omega arith)
rounds_drain ndt (suc n) c v h =
    let k = transfer-Kept ndt c v in
    let done =
      rounds_settled ndt n (serve (transfer c)) (round-Kept ndt c v).live
        (serve_settled ndt (transfer c) k.live)
        (omega (arith, round-length ndt c v, transfer-moved_le c)) in
    (
      sym (append-nil _)
          ∙ ap (λ l. (rounds (suc n) c).moved ++ l) (sym done)
          ∙ (rounds-Kept ndt (suc n) c v).order
          ∙ append-nil _,
      done,
    )
