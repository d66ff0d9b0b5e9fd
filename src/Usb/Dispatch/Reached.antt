-- ===== src/Usb/Dispatch/Reached.antt =====
-- targets/stm32-otgfs/usb/Device.cpp, `HandleIn` and `HandleOut`: each endpoint is reached just once.
use lib_stm.Base.{
  ℕ, zero, suc, ◌+◌, ◌-◌, ◌≤◌, ◌<◌, ◌==◌, Bool, Bool-cases, true, false, if◌then◌else◌, ◌≡◌, ◌≢◌,
  inl, inr, refl, sym, ap, ◌∙◌, Option, none, some, List, [], ◌∷◌, get_elem?, set,
  get_elem?-set_self, length-set, get_elem?-set_ne, length, arith, ==_iff,
}
use mathlib.Core.Option
use lib_stm.Usb.Types.{Device, SetupPacket}
use lib_stm.Usb.Endpoints.{InEndpoint, OutEndpoint}
use lib_stm.Usb.Dispatch.{
  get_bit, reach, rounds, Pending, reach_in, reach_out, handle_in, handle_out,
}

module _ {A : Type 0} where
  get_elem?-lt : (es : List A) (i : ℕ) (e : A) → get_elem? es i ≡ some e → i < length es
  get_elem?-lt [] i e h = absurd cc
  get_elem?-lt (x ∷ es) zero e h = omega arith
  get_elem?-lt (x ∷ es) (suc i) e h = omega (arith, get_elem?-lt es i e h)

before_suc : (i : ℕ) → suc i - 1 ≡ i
before_suc i = omega arith

module _ {A : Type 0} (pos mask : ℕ) (handle : ℕ → A → A) where
  -- What becomes of element `j`.
  unfoldable pub served : ℕ → A → A
  served j e = if get_bit mask (pos + suc j) then handle (suc j) e else e

  reach_self :
      (i : ℕ) (es : List A)
      → get_elem? (reach pos mask handle (suc i) es) i
        ≡ Option.map (handle (suc i)) (get_elem? es i)
  unfolding reach
  reach_self i es =
      ap
        (λ k.
          get_elem? (elim (get_elem? es k) [ none ↦ es | some e ↦ set es k (handle (suc i) e) ]) i)
        (before_suc i)
      ∙ at (get_elem? es i) refl
    where
      at :
          (o : Option A)
          → get_elem? es i ≡ o
          → get_elem? (elim o [ none ↦ es | some e ↦ set es i (handle (suc i) e) ]) i
            ≡ Option.map (handle (suc i)) o
      at none out = out
      at (some e) found = get_elem?-set_self es i (handle (suc i) e) (get_elem?-lt es i e found)

  reach-ne :
      (i j : ℕ) (es : List A)
      → i ≢ j
      → get_elem? (reach pos mask handle (suc i) es) j ≡ get_elem? es j
  unfolding reach
  reach-ne i j es other =
      ap
        (λ k.
          get_elem? (elim (get_elem? es k) [ none ↦ es | some e ↦ set es k (handle (suc i) e) ]) j)
        (before_suc i)
      ∙ at (get_elem? es i)
    where
      at :
          (o : Option A)
          → get_elem? (elim o [ none ↦ es | some e ↦ set es i (handle (suc i) e) ]) j
            ≡ get_elem? es j
      at none = refl
      at (some e) = get_elem?-set_ne es (handle (suc i) e) other

  length-reach : (i : ℕ) (es : List A) → length (reach pos mask handle i es) ≡ length es
  unfolding reach
  length-reach i es = at (get_elem? es (i - 1))
    where
      at :
          (o : Option A)
          → length (elim o [ none ↦ es | some e ↦ set es (i - 1) (handle i e) ]) ≡ length es
      at none = refl
      at (some e) = length-set es (i - 1) (handle i e)

  length-rounds : (n i : ℕ) (es : List A) → length (rounds pos mask handle n i es) ≡ length es
  unfolding rounds
  length-rounds zero i es = refl
  length-rounds (suc n) i es = length-rounds n (suc i) _ ∙ at (get_bit mask (pos + i))
    where
      at : (b : Bool) → length (if b then reach pos mask handle i es else es) ≡ length es
      at true = length-reach i es
      at false = refl

  -- One round of the loop.
  round : ℕ → List A → List A
  round i es = if get_bit mask (pos + suc i) then reach pos mask handle (suc i) es else es

  round_self :
      (i : ℕ) (es : List A) → get_elem? (round i es) i ≡ Option.map (served i) (get_elem? es i)
  unfolding served round
  round_self i es = pick (get_bit mask (pos + suc i))
    where
      same : (o : Option A) → o ≡ Option.map (λ e. e) o
      same none = refl
      same (some e) = refl

      pick :
          (b : Bool)
          → get_elem? (if b then reach pos mask handle (suc i) es else es) i
            ≡ Option.map (λ e. if b then handle (suc i) e else e) (get_elem? es i)
      pick true = reach_self i es
      pick false = same (get_elem? es i)

  round-ne : (i j : ℕ) (es : List A) → i ≢ j → get_elem? (round i es) j ≡ get_elem? es j
  unfolding round
  round-ne i j es other = elim (Bool-cases (get_bit mask (pos + suc i))) [
    | inl yes_bit ↦ rw yes_bit (reach-ne i j es other)
    | inr no_bit ↦ rw no_bit refl
  ]

  rounds-below :
      (n i j : ℕ) (es : List A)
      → j < i
      → get_elem? (rounds pos mask handle n (suc i) es) j ≡ get_elem? es j
  unfolding rounds round
  rounds-below zero i j es h = refl
  rounds-below (suc n) i j es h =
      rounds-below n (suc i) j (round i es) (omega arith) ∙ round-ne i j es (λ e. omega (arith, e))

  rounds-served :
      (n i j : ℕ) (es : List A)
      → i ≤ j
      → j < i + n
      → get_elem? (rounds pos mask handle n (suc i) es) j ≡ Option.map (served j) (get_elem? es j)
  unfolding rounds round
  rounds-served zero i j es h k = absurd (omega arith)
  rounds-served (suc n) i j es h k = elim (Bool-cases (i == j)) [
    | inl same ↦
        let e : j ≡ i = sym ((==_iff i j).0 same) in
        rw e (rounds-below n (suc i) i (round i es) (omega arith) ∙ round_self i es)
    | inr differ ↦
        let other : i ≢ j = λ e. absurd (clash ((==_iff i j).1 e) differ) in
        rounds-served n (suc i) j (round i es) (omega (arith, other)) (omega arith)
        ∙ ap (Option.map (served j)) (round-ne i j es other)
  ]
    where
      clash : (i == j) ≡ true → (i == j) ≡ false → ⊥
      clash t f = cc

-- `HandleIn` and `HandleOut`, whatever the masked DAINT says. Every data endpoint whose own bit is set,
-- bit `j` for IN and bit `16 + j` for OUT, handles its own interrupts, once; every other endpoint stays
-- as it is. No endpoint is added or lost.
pub handle_endpoints_lem :
    (p : Pending) (packet : SetupPacket) (received : ℕ)
    → (d : Device) (ins : List InEndpoint) (outs : List OutEndpoint) → (j k : ℕ) → j < length ins
    → k < length outs
    → let after_in = (handle_in p (d, ins)).1 in
      let after_out = (handle_out p packet received (d, outs)).1 in
      (get_elem? after_in j
        ≡ Option.map
            (λ e. if get_bit p.mask (suc j) then reach_in p (suc j) e else e)
            (get_elem? ins j))
      × (get_elem? after_out k
          ≡ Option.map
              (λ e. if get_bit p.mask (16 + suc k) then reach_out p (suc k) e else e)
              (get_elem? outs k))
      × (length after_in ≡ length ins)
      × (length after_out ≡ length outs)
unfolding handle_in handle_out served
handle_endpoints_lem p packet received d ins outs j k h h' = (
  rounds-served 0 p.mask (reach_in p) (length ins) 0 j ins (omega arith) (omega arith)
      ∙ ap
          (λ b.
            Option.map (λ e. if get_bit p.mask b then reach_in p (suc j) e else e)
              (get_elem? ins j))
          no_offset,
  rounds-served 16 p.mask (reach_out p) (length outs) 0 k outs (omega arith) (omega arith),
  length-rounds 0 p.mask (reach_in p) (length ins) 1 ins,
  length-rounds 16 p.mask (reach_out p) (length outs) 1 outs,
)
  where
    no_offset : 0 + suc j ≡ suc j
    no_offset = omega arith
