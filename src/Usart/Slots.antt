-- ===== src/Usart/Slots.antt =====
-- targets/stm32l/io/USARTInterrupt.cpp: the bytes that a `Buf` has still to fill or to send.
use lib_stm.Base.{
  ℕ, suc, ◌+◌, ◌-◌, ◌≤◌, ◌<◌, ◌==◌, ==_iff, ◌≡◌, ◌≢◌, refl, sym, ap, ◌∙◌, Bool-cases, inl, inr, ◌⊎◌,
  true, false, not, range, range-cons, range-append, ◌&&◌, List, [], ◌∷◌, ◌++◌, arith,
}
use mathlib.Core.List.{append-nil, append_assoc}
use lib_stm.Usart.{Buf, advance, add}

-- The addresses to go, in the order in which they are used.
unfoldable pub slots : Buf → List ℕ
slots b = range b.p (b.e - b.p) ++ range b.p2 (b.e2 - b.p2)

-- The pointers are in order, and there is no second buffer behind a first one that is used up.
pub record IsValid (b : Buf) : Type 0 where
  pub first : b.p ≤ b.e
  pub second : b.p2 ≤ b.e2
  pub null_second : b.p2 ≡ 0 → b.e2 ≡ 0
  pub no_gap : b.p ≡ b.e → b.p2 ≡ 0

slots_lem : (b : Buf) → slots b ≡ range b.p (b.e - b.p) ++ range b.p2 (b.e2 - b.p2)
unfolding slots
slots_lem b = refl

-- A valid buffer is used up just when nothing is left of it.
pub slots-nil : (b : Buf) → IsValid b → b.p ≡ b.e → slots b ≡ []
unfolding slots
slots-nil b v h =
    let one : b.e - b.p ≡ 0 = omega arith in
    let two : b.e2 - b.p2 ≡ 0 = omega (arith, v.null_second (v.no_gap h)) in rw (one, two)

-- One byte on: the first address is used up.
pub advance-slots :
    (b : Buf)
    → IsValid b
    → b.p ≢ b.e
    → IsValid (advance b (suc b.p)) × (slots b ≡ b.p ∷ slots (advance b (suc b.p)))
unfolding advance slots
advance-slots b v h = elim (Bool-cases (suc b.p == b.e && not (b.p2 == 0))) [
  | inl last ↦
      let one : b.e - b.p ≡ 1 = ground arith in
      rw (last, one) (ground arith, ap (λ l. b.p ∷ l) (sym (append-nil _)))
  | inr more ↦
      let next : b.e - b.p - 1 ≡ b.e - suc b.p = omega arith in
      rw (more, range-cons b.p (b.e - b.p) (omega arith), next) (ground arith, refl)
]

-- The three ways in which a buffer is taken, as lists of addresses.
first_free :
    (b : Buf) (p n : ℕ)
    → IsValid b
    → b.p ≡ b.e
    → range p n ++ range b.p2 (b.e2 - b.p2) ≡ slots b ++ range p n
first_free b p n v h =
    let two : b.e2 - b.p2 ≡ 0 = omega (arith, v.null_second (v.no_gap h)) in
    rw (slots-nil b v h, two) (append-nil (range p n))

second_free :
    (b : Buf) (p n : ℕ)
    → IsValid b
    → b.p2 ≡ 0
    → range b.p (b.e - b.p) ++ range p n ≡ slots b ++ range p n
unfolding slots
second_free b p n v h =
    let two : b.e2 - b.p2 ≡ 0 = omega (arith, v.null_second h) in rw (two, append-nil)

extended :
    (b : Buf) (p e : ℕ)
    → IsValid b
    → b.e2 ≡ p
    → p < e
    → range b.p (b.e - b.p) ++ range b.p2 (e - b.p2) ≡ slots b ++ range p (e - p)
unfolding slots
extended b p e v h he = rw append_assoc (
    ap (λ l. range b.p (b.e - b.p) ++ l)
      (rw (whole, end) (sym (range-append b.p2 (b.e2 - b.p2) _))))
  where
    end : p ≡ b.p2 + (b.e2 - b.p2)
    end = omega arith

    whole : e - b.p2 ≡ b.e2 - b.p2 + (e - p)
    whole = omega arith

-- What is taken goes behind what is there; nothing changes otherwise.
pub add-slots :
    (b : Buf) (p e : ℕ)
    → IsValid b
    → 0 < p
    → p < e
    → IsValid (add b p e).1
      × ((((add b p e).0 ≡ true) × (slots (add b p e).1 ≡ slots b ++ range p (e - p)))
          ⊎ (((add b p e).0 ≡ false) × ((add b p e).1 ≡ b)))
unfolding add
add-slots b p e v hp he = elim (Bool-cases (b.p == b.e)) [
  | inl unused ↦
      let same : b.p ≡ b.e = (==_iff b.p b.e).0 unused in
      rw unused (ground arith, inl (refl, slots_lem _ ∙ first_free b p (e - p) v same))
  | inr used ↦ rw used (elim (Bool-cases (b.p2 == 0)) [
    | inl one ↦
        let null : b.p2 ≡ 0 = (==_iff b.p2 0).0 one in
        rw one (ground arith, inl (refl, slots_lem _ ∙ second_free b p (e - p) v null))
    | inr two ↦ rw two (elim (Bool-cases (b.e2 == p)) [
      | inl joins ↦
          let end : b.e2 ≡ p = (==_iff b.e2 p).0 joins in
          rw joins (ground arith, inl (refl, slots_lem _ ∙ extended b p e v end he))
      | inr apart ↦ rw apart (v, inr (refl, refl))
    ])
  ])
]
