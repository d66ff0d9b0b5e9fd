-- ===== src/Usb/Configuring/Each.antt =====
-- targets/stm32-otgfs/usb: one data endpoint after its configuration.
use lib_stm.Base.{
  ℕ, ◌+◌, ◌*◌, ◌^◌, ◌<◌, ◌==◌, ==_iff, ◌≡◌, ◌≢◌, inl, inr, refl, ap, ◌∙◌, bit_and, bit_or,
  Bool-cases, true, false, Option, none, some, arith,
}
use lib_stm.Base.Places.{place, place-lt, place-bit_and, place-bit_or, place-small, place-shifted}
use lib_stm.Usb.Registers.{Registers, is_active, deactivate, activate_in, activate_out}
use lib_stm.Usb.Registers.Words.{
  IsActivated, activate_in-IsActivated, activate_out-IsActivated, deactivate-active,
}
use lib_stm.Usb.Configuring.{
  EndpointDescriptor, Peripheral, update, enable_interrupt, stopped, configure_in, configure_out,
}

-- The size and the type fit their fields.
abbrev pub Fits : Option EndpointDescriptor → Type 0
Fits none = Unit {0}
Fits (some d) = (d.max_packet_size < 2048) × (d.type < 4)

-- The control word of an endpoint that is to be as a descriptor says, and its bit of DAINTMSK.
abbrev pub IsFor : Option EndpointDescriptor → ℕ → ℕ → Type 0
IsFor none w interrupt = place 15 w ≡ 0
IsFor (some d) w interrupt = IsActivated d.max_packet_size d.type w × (interrupt ≡ 1)

active_bit : (r : Registers) → is_active r ≡ false → place 15 r.ctl ≡ 0
unfolding is_active
active_bit r h = at 15 refl
  where
    zero_word : bit_and r.ctl 32768 ≡ 0
    zero_word = ground arith

    at : (p : ℕ) → place p 32768 ≡ 1 → place p r.ctl ≡ 0
    at p one = omega (
      arith,
      place-bit_and p r.ctl 32768,
      ap (place p) zero_word,
      place-small 0 p 0 (omega arith) (omega arith),
      one,
      place-lt p r.ctl,
    )

stopped-active : (r : Registers) → place 15 (stopped r).ctl ≡ 0
unfolding stopped
stopped-active r = elim (Bool-cases (is_active r)) [
  | inl on ↦ rw on (deactivate-active r)
  | inr off ↦ rw off (active_bit r off)
]

place-own : (n : ℕ) → place n (2 ^ n) ≡ 1
place-own n =
    let one : 2 ^ n ≡ 1 * 2 ^ n = omega arith in
    let up : n + 0 ≡ n = omega arith in ap (place n) one ∙ (rw up at (place-shifted n 0 1))

set_bit : (p q m : ℕ) → place p m ≡ 1 → place p (bit_or m (2 ^ q)) ≡ 1
set_bit p q m h = omega (arith, place-bit_or p m (2 ^ q), h, place-lt p (2 ^ q))

own_bit : (q m : ℕ) → place q (bit_or m (2 ^ q)) ≡ 1
own_bit q m = omega (arith, place-bit_or q m (2 ^ q), place-own q, place-lt q m)

update_self : (f : ℕ → Registers) (i : ℕ) (r : Registers) → update f i r i ≡ r
unfolding update
update_self f i r = let e : (i == i) ≡ true = ground arith in rw e refl

update_other : (f : ℕ → Registers) (i j : ℕ) (r : Registers) → j ≢ i → update f i r j ≡ f j
unfolding update
update_other f i j r h = let e : (j == i) ≡ false = ground arith in rw e refl

update-running :
    (f : ℕ → Registers) (i j : ℕ) (r : Registers)
    → r.running ≡ (f i).running
    → (update f i r j).running ≡ (f j).running
update-running f i j r h = elim (Bool-cases (j == i)) [
  | inl same ↦
      let e : j ≡ i = (==_iff j i).0 same in rw e (ap (λ q. q.running) (update_self f i r) ∙ h)
  | inr other ↦ ap (λ q. q.running) (update_other f i j r (ground arith))
]

stopped-running : (r : Registers) → (stopped r).running ≡ r.running
unfolding stopped deactivate
stopped-running r = elim (Bool-cases (is_active r)) [ inl on ↦ rw on refl | inr off ↦ rw off refl ]

-- What the configuration of one endpoint does, and leaves: `get` gives the endpoints of its
-- direction, `rest` those of the other one, and `off` is the place of the first one in DAINTMSK.
pub record Configures (configure : ℕ → Option EndpointDescriptor → Peripheral → Peripheral)
    (get rest : Peripheral → ℕ → Registers) (off : ℕ) : Type 0 where
  pub own :
      (i : ℕ) (o : Option EndpointDescriptor) (u : Peripheral)
      → i < 16
      → Fits o
      → IsFor o (get (configure i o u) i).ctl (place (off + i) (configure i o u).daintmsk)
  pub other :
      (i j : ℕ) (o : Option EndpointDescriptor) (u : Peripheral)
      → j ≢ i
      → get (configure i o u) j ≡ get u j
  pub goes_on :
      (i j : ℕ) (o : Option EndpointDescriptor) (u : Peripheral)
      → (get (configure i o u) j).running ≡ (get u j).running
  pub away :
      (i : ℕ) (o : Option EndpointDescriptor) (u : Peripheral) → rest (configure i o u) ≡ rest u
  pub bits :
      (i p : ℕ) (o : Option EndpointDescriptor) (u : Peripheral)
      → place p u.daintmsk ≡ 1
      → place p (configure i o u).daintmsk ≡ 1

in-own :
    (i : ℕ) (o : Option EndpointDescriptor) (u : Peripheral)
    → i < 16
    → Fits o
    → IsFor o ((configure_in i o u).ins i).ctl (place (0 + i) (configure_in i o u).daintmsk)
unfolding configure_in enable_interrupt
in-own i none u h f = rw (update_self u.ins i (stopped (u.ins i))) (stopped-active (u.ins i))
in-own i (some d) u h f =
    let r = activate_in d.max_packet_size d.type i (stopped (u.ins i)) in
    let up : 0 + i ≡ i = omega arith in
    rw (update_self u.ins i r) (
      activate_in-IsActivated d.max_packet_size d.type i (stopped (u.ins i)) f.0 f.1 h,
      rw up (own_bit i u.daintmsk),
    )

in-other :
    (i j : ℕ) (o : Option EndpointDescriptor) (u : Peripheral)
    → j ≢ i
    → (configure_in i o u).ins j ≡ u.ins j
unfolding configure_in enable_interrupt
in-other i j none u h = update_other u.ins i j (stopped (u.ins i)) h
in-other i j (some d) u h =
    update_other u.ins i j (activate_in d.max_packet_size d.type i (stopped (u.ins i))) h

in-away :
    (i : ℕ) (o : Option EndpointDescriptor) (u : Peripheral) → (configure_in i o u).outs ≡ u.outs
unfolding configure_in enable_interrupt
in-away i none u = refl
in-away i (some d) u = refl

in-bits :
    (i p : ℕ) (o : Option EndpointDescriptor) (u : Peripheral)
    → place p u.daintmsk ≡ 1
    → place p (configure_in i o u).daintmsk ≡ 1
unfolding configure_in enable_interrupt
in-bits i p none u h = h
in-bits i p (some d) u h = set_bit p i u.daintmsk h

in-goes_on :
    (i j : ℕ) (o : Option EndpointDescriptor) (u : Peripheral)
    → ((configure_in i o u).ins j).running ≡ (u.ins j).running
unfolding configure_in enable_interrupt activate_in
in-goes_on i j none u = update-running u.ins i j (stopped (u.ins i)) (stopped-running (u.ins i))
in-goes_on i j (some d) u =
    update-running u.ins i j (activate_in d.max_packet_size d.type i (stopped (u.ins i)))
      (stopped-running (u.ins i))

pub in-Configures : Configures configure_in (λ u. u.ins) (λ u. u.outs) 0
in-Configures = record {
  own = in-own;
  other = in-other;
  goes_on = in-goes_on;
  away = in-away;
  bits = in-bits;
}

out-own :
    (i : ℕ) (o : Option EndpointDescriptor) (u : Peripheral)
    → i < 16
    → Fits o
    → IsFor o ((configure_out i o u).outs i).ctl (place (16 + i) (configure_out i o u).daintmsk)
unfolding configure_out enable_interrupt
out-own i none u h f = rw (update_self u.outs i (stopped (u.outs i))) (stopped-active (u.outs i))
out-own i (some d) u h f =
    let r = activate_out d.max_packet_size d.type (stopped (u.outs i)) in
    rw (update_self u.outs i r) (
      activate_out-IsActivated d.max_packet_size d.type (stopped (u.outs i)) f.0 f.1,
      own_bit (16 + i) u.daintmsk,
    )

out-other :
    (i j : ℕ) (o : Option EndpointDescriptor) (u : Peripheral)
    → j ≢ i
    → (configure_out i o u).outs j ≡ u.outs j
unfolding configure_out enable_interrupt
out-other i j none u h = update_other u.outs i j (stopped (u.outs i)) h
out-other i j (some d) u h =
    update_other u.outs i j (activate_out d.max_packet_size d.type (stopped (u.outs i))) h

out-away :
    (i : ℕ) (o : Option EndpointDescriptor) (u : Peripheral) → (configure_out i o u).ins ≡ u.ins
unfolding configure_out enable_interrupt
out-away i none u = refl
out-away i (some d) u = refl

out-bits :
    (i p : ℕ) (o : Option EndpointDescriptor) (u : Peripheral)
    → place p u.daintmsk ≡ 1
    → place p (configure_out i o u).daintmsk ≡ 1
unfolding configure_out enable_interrupt
out-bits i p none u h = h
out-bits i p (some d) u h = set_bit p (16 + i) u.daintmsk h

out-goes_on :
    (i j : ℕ) (o : Option EndpointDescriptor) (u : Peripheral)
    → ((configure_out i o u).outs j).running ≡ (u.outs j).running
unfolding configure_out enable_interrupt activate_out
out-goes_on i j none u = update-running u.outs i j (stopped (u.outs i)) (stopped-running (u.outs i))
out-goes_on i j (some d) u =
    update-running u.outs i j (activate_out d.max_packet_size d.type (stopped (u.outs i)))
      (stopped-running (u.outs i))

pub out-Configures : Configures configure_out (λ u. u.outs) (λ u. u.ins) 16
out-Configures = record {
  own = out-own;
  other = out-other;
  goes_on = out-goes_on;
  away = out-away;
  bits = out-bits;
}

pub IsFor-kept :
    (o : Option EndpointDescriptor) {w w' b b' : ℕ}
    → w' ≡ w
    → (b ≡ 1 → b' ≡ 1)
    → IsFor o w b
    → IsFor o w' b'
IsFor-kept none same kept f = rw same f
IsFor-kept (some d) same kept (a, f) = (rw same a, kept f)
