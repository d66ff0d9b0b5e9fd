-- ===== src/Gpio/Configure/Configured.antt =====
-- targets/stm32l/hw/GPIO.cpp: what is configured after the loop over the pins.
use lib_stm.Base.{
  ℕ, zero, suc, ◌+◌, ◌*◌, ◌/◌, ◌%◌, ◌^◌, ◌≤◌, ◌<◌, ◌==◌, ==_iff, ltb, ◌≡◌, refl, ap, ◌∙◌, bit_and,
  bit_and_step, bit_and-ones, bit_and-shifted, not32, Bool-cases, if◌then◌else◌, inl, inr, arith,
  tests, false, some,
}
use lib_stm.Base.Places.{place, place-lt, place-small}
use lib_stm.Base.Masks.{place-modmask}
use lib_stm.Gpio.{ctz}
use Prim.Native.Nat.{bit_and-bitwise}
use lib_stm.Gpio.Outputs.{SetsAndResets, IsOutput, ctz-le, set-Output, res-Output}
use lib_stm.Gpio.Configure.{
  Registers, resbit, configure_pin, configure_pins, configure_port, configure,
}
use lib_stm.Gpio.Configure.Fields.{
  pairs, fours, IsField, put_pair, put_four, place-ctz, place-resbit, At-IsField, At-IsField_last,
}

-- What the loop does: the mode, the speed, the pull and the alternate function of the pins.
pub record IsLooped (mode mask : ℕ) (r q : Registers) : Type 0 where
  pub moded : IsField 2 mask (mode / 2 ^ 0) (pairs r.moder) (pairs q.moder)
  pub sped : IsField 2 mask (mode / 2 ^ 4) (pairs r.ospeedr) (pairs q.ospeedr)
  pub pulled : IsField 2 mask (mode / 2 ^ 6) (pairs r.pupdr) (pairs q.pupdr)
  pub alternated : IsField 4 mask (mode / 2 ^ 12) (fours r.afrl r.afrh) (fours q.afrl q.afrh)
  pub outputs : q.outputs ≡ r.outputs
  pub otyper : q.otyper ≡ r.otyper
  pub ascr : q.ascr ≡ r.ascr
  pub ahb2enr : q.ahb2enr ≡ r.ahb2enr

module _ {b : ℕ} (mask mode : ℕ) (r : Registers) (hb : b < 16) (one : place b mask ≡ 1) where
  configure_pin-IsLooped : resbit mask b ≡ 0 → IsLooped mode mask r (configure_pin mode b r)
  unfolding configure_pin
  configure_pin-IsLooped last = record {
    moded =
        At-IsField_last mask 2 (mode / 2 ^ 0) hb one _ _ last
          (put_pair b (mode / 2 ^ 0) r.moder hb);
    sped =
        At-IsField_last mask 2 (mode / 2 ^ 4) hb one _ _ last
          (put_pair b (mode / 2 ^ 4) r.ospeedr hb);
    pulled =
        At-IsField_last mask 2 (mode / 2 ^ 6) hb one _ _ last
          (put_pair b (mode / 2 ^ 6) r.pupdr hb);
    alternated =
        At-IsField_last mask 4 (mode / 2 ^ 12) hb one _ _ last
          (put_four b (mode / 2 ^ 12) r.afrl r.afrh hb);
    outputs = refl;
    otyper = refl;
    ascr = refl;
    ahb2enr = refl;
  }

  IsLooped-configure_pin :
      (q : Registers)
      → IsLooped mode (resbit mask b) (configure_pin mode b r) q
      → IsLooped mode mask r q
  unfolding configure_pin
  IsLooped-configure_pin q l = record {
    moded =
        At-IsField mask 2 (mode / 2 ^ 0) hb one _ _ _ (put_pair b (mode / 2 ^ 0) r.moder hb)
          l.moded;
    sped =
        At-IsField mask 2 (mode / 2 ^ 4) hb one _ _ _ (put_pair b (mode / 2 ^ 4) r.ospeedr hb)
          l.sped;
    pulled =
        At-IsField mask 2 (mode / 2 ^ 6) hb one _ _ _ (put_pair b (mode / 2 ^ 6) r.pupdr hb)
          l.pulled;
    alternated =
        At-IsField mask 4 (mode / 2 ^ 12) hb one _ _ _ (put_four b (mode / 2 ^ 12) r.afrl r.afrh hb)
          l.alternated;
    outputs = l.outputs;
    otyper = l.otyper;
    ascr = l.ascr;
    ahb2enr = l.ahb2enr;
  }

bit_and-le_left : (fuel x y : ℕ) → x ≤ fuel → bit_and x y ≤ x
bit_and-le_left fuel zero y h = omega (arith, bit_and-bitwise 0 y)
bit_and-le_left zero (suc x) y h = absurd (omega arith)
bit_and-le_left (suc fuel) (suc x) y h =
    omega (arith, bit_and_step (suc x) y, bit_and-le_left fuel (suc x / 2) (y / 2) (omega arith))

resbit-le : (mask b : ℕ) → resbit mask b ≤ mask
unfolding resbit
resbit-le mask b = bit_and-le_left mask mask (not32 (2 ^ b)) (omega arith)

-- The lowest pin of a mask.
ctz-lt : (mask : ℕ) → mask < 65536 → 0 < mask → ctz 32 mask < 16
ctz-lt mask small pos = elim (Bool-cases (ltb (ctz 32 mask) 16)) [
  | inl less ↦ omega (tests, less)
  | inr more ↦ absurd (
      omega (
        arith,
        place-ctz 32 mask pos (omega arith),
        place-small 16 (ctz 32 mask) mask small (ground arith),
      ))
]

-- The pins below `k` are done.
configure_pins-IsLooped :
    (fuel k mode mask : ℕ) (r : Registers)
    → mask < 65536
    → 0 < mask
    → ((i : ℕ) → i < k → place i mask ≡ 0)
    → 16 ≤ k + fuel
    → (q : Registers) × (configure_pins fuel mode mask r ≡ some q) × IsLooped mode mask r q
unfolding configure_pins
configure_pins-IsLooped zero k mode mask r small pos done enough = absurd (
    omega (
      arith,
      place-ctz 32 mask pos (omega arith),
      done (ctz 32 mask) (omega (arith, ctz-lt mask small pos)),
    ))
configure_pins-IsLooped (suc fuel) k mode mask r small pos done enough =
    elim (Bool-cases (resbit mask b == 0)) [
      | inl last ↦ (
        configure_pin mode b r,
        rw last refl,
        configure_pin-IsLooped mask mode r hb one ((==_iff (resbit mask b) 0).0 last),
      )
      | inr more ↦ next more (
          configure_pins-IsLooped fuel (suc b) mode (resbit mask b) (configure_pin mode b r)
            (omega (arith, resbit-le mask b)) (ground arith) below (omega (arith, reached)))
    ]
  where
    b : ℕ
    b = ctz 32 mask

    hb : b < 16
    hb = ctz-lt mask small pos

    one : place b mask ≡ 1
    one = place-ctz 32 mask pos (omega arith)

    reached : k ≤ b
    reached = elim (Bool-cases (ltb b k)) [
      | inl less ↦ absurd (omega (arith, one, done b (omega (tests, less))))
      | inr more ↦ ground arith
    ]

    below : (i : ℕ) → i < suc b → place i (resbit mask b) ≡ 0
    below i h = place-resbit mask b i (omega (arith, hb)) hb ∙ elim (Bool-cases (i == b)) [
      | inl same ↦ rw same refl
      | inr other ↦ rw other (elim (Bool-cases (place i mask == 1)) [
        | inl set ↦ absurd (ground (arith, ctz-le 32 mask i))
        | inr clear ↦ ground (arith, place-lt i mask)
      ])
    ]

    next :
        (resbit mask b == 0) ≡ false
        → ((q : Registers) × (configure_pins fuel mode (resbit mask b) (configure_pin mode b r)
              ≡ some q)
            × IsLooped mode (resbit mask b) (configure_pin mode b r) q)
        → (q : Registers) × ((if resbit mask b == 0
              then some (configure_pin mode b r)
              else configure_pins fuel mode (resbit mask b) (configure_pin mode b r))
            ≡ some q)
          × IsLooped mode mask r q
    next more (q, e, l) = (q, rw more e, IsLooped-configure_pin mask mode r hb one q l)

-- The flags `OpenDrain` and `FlagSet` of a mode.
open_flag : (mode : ℕ) → (bit_and mode 4 == 0) ≡ (mode / 4 % 2 == 0)
open_flag mode = ground (
  arith,
  bit_and-shifted 2 (mode / 4) (mode % 4) 1 (omega arith),
  bit_and-ones 1 (mode / 4),
  ap (λ (t : ℕ). bit_and t 4) split,
)
  where
    split : mode / 4 * 2 ^ 2 + mode % 4 ≡ mode
    split = omega arith

set_flag : (mode : ℕ) → (bit_and mode 256 == 0) ≡ (mode / 256 % 2 == 0)
set_flag mode = ground (
  arith,
  bit_and-shifted 8 (mode / 256) (mode % 256) 1 (omega arith),
  bit_and-ones 1 (mode / 256),
  ap (λ (t : ℕ). bit_and t 256) split,
)
  where
    split : mode / 256 * 2 ^ 8 + mode % 256 ≡ mode
    split = omega arith

-- What a configuration with `mode` makes of a port: each pin of `mask` gets the fields of the mode, and
-- its output is set or reset; the other pins are as before.
pub record IsConfigured (mask mode : ℕ) (r q : Registers) : Type 0 where
  pub moded : IsField 2 mask (mode / 2 ^ 0) (pairs r.moder) (pairs q.moder)
  pub sped : IsField 2 mask (mode / 2 ^ 4) (pairs r.ospeedr) (pairs q.ospeedr)
  pub pulled : IsField 2 mask (mode / 2 ^ 6) (pairs r.pupdr) (pairs q.pupdr)
  pub alternated : IsField 4 mask (mode / 2 ^ 12) (fours r.afrl r.afrh) (fours q.afrl q.afrh)
  pub driven : IsOutput mask (λ i. mode / 256 % 2) r.outputs q.outputs
  pub opened :
      (i : ℕ)
      → i < 16
      → place i q.otyper ≡ (if place i mask == 1 then mode / 4 % 2 else place i r.otyper)
  pub analogue :
      (i : ℕ)
      → i < 16
      → place i q.ascr
        ≡ (if place i mask == 1 then (if mode % 4 == 3 then 1 else 0) else place i r.ascr)

-- No pins.
unchanged : (mode : ℕ) (r : Registers) → IsConfigured 0 mode r r
unchanged mode r = record {
  moded = λ i j hi hj. ground (arith, place-small 0 i 0);
  sped = λ i j hi hj. ground (arith, place-small 0 i 0);
  pulled = λ i j hi hj. ground (arith, place-small 0 i 0);
  alternated = λ i j hi hj. ground (arith, place-small 0 i 0);
  driven = λ i hi. ground (arith, place-small 0 i 0);
  opened = λ i hi. ground (arith, place-small 0 i 0);
  analogue = λ i hi. ground (arith, place-small 0 i 0);
}

module _ (bsrr brr : ℕ → ℕ → ℕ) (g : SetsAndResets bsrr brr) (gpioaen index mask mode : ℕ)
    (r : Registers) (small : mask < 65536) where
  abbrev before : Registers
  before = configure_port bsrr brr gpioaen index mask mode r

  port-driven : IsOutput mask (λ i. mode / 256 % 2) r.outputs before.outputs
  unfolding configure_port
  port-driven i hi = rw set_flag (elim (Bool-cases (mode / 256 % 2 == 0)) [
    | inl off ↦ rw off (res-Output bsrr brr g mask r.outputs i hi ∙ ground arith)
    | inr on ↦ rw on (set-Output bsrr brr g mask r.outputs small i hi ∙ ground arith)
  ])

  port-opened :
      (i : ℕ)
      → i < 16
      → place i before.otyper ≡ (if place i mask == 1 then mode / 4 % 2 else place i r.otyper)
  unfolding configure_port
  port-opened i hi = rw open_flag (
      ground (
        arith,
        place-modmask i r.otyper mask (if mode / 4 % 2 == 0 then 0 else mask) (omega arith)
            (omega arith),
        place-small 0 i 0,
        place-lt i mask,
        place-lt i r.otyper,
      ))

  port-analogue :
      (i : ℕ)
      → i < 16
      → place i before.ascr
        ≡ (if place i mask == 1 then (if mode % 4 == 3 then 1 else 0) else place i r.ascr)
  unfolding configure_port
  port-analogue i hi = rw (bit_and-ones 2 mode) (
      ground (
        arith,
        place-modmask i r.ascr mask (if mode % 4 == 3 then mask else 0) (omega arith) (omega arith),
        place-small 0 i 0,
        place-lt i mask,
        place-lt i r.ascr,
      ))

  joined : (q : Registers) → IsLooped mode mask before q → IsConfigured mask mode r q
  unfolding configure_port
  joined q l = record {
    moded = l.moded;
    sped = l.sped;
    pulled = l.pulled;
    alternated = l.alternated;
    driven = λ i hi. rw l.outputs (port-driven i hi);
    opened = λ i hi. rw l.otyper (port-opened i hi);
    analogue = λ i hi. rw l.ascr (port-analogue i hi);
  }

-- `GPIOPort::Configure` ends, for every mask of pins and every mode: the pins of the mask have the
-- mode, speed, pull, alternate function and output type of the mode, are connected to the analogue
-- part exactly if they are analogue, and drive the output that the mode asks for; all other pins are
-- configured and driven as before.
pub configure-IsConfigured :
    (bsrr brr : ℕ → ℕ → ℕ)
    → SetsAndResets bsrr brr
    → (gpioaen index mask mode : ℕ) (r : Registers) → mask < 65536
    → (q : Registers) × (configure bsrr brr gpioaen index mask mode r ≡ some q)
      × IsConfigured mask mode r q
unfolding configure
configure-IsConfigured bsrr brr g gpioaen index mask mode r small = elim (Bool-cases (mask == 0)) [
  | inl empty ↦ (r, rw empty refl, rw ((==_iff mask 0).0 empty) (unchanged mode r))
  | inr some_pins ↦
      let l =
        configure_pins-IsLooped 16 0 mode mask (configure_port bsrr brr gpioaen index mask mode r)
          small (ground arith) (λ i h. absurd (omega arith)) (omega arith) in
      (l.0, rw some_pins l.1, joined bsrr brr g gpioaen index mask mode r small l.0 l.2)
]
