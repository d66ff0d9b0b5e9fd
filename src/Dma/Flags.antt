-- ===== src/Dma/Flags.antt =====
-- targets/stm32/hw/DMA.h: the bits of the register CCR that `Enable` and `Disable` change.
use lib_stm.Base.{
  ℕ, ◌+◌, ◌-◌, ◌*◌, ◌/◌, ◌%◌, ◌^◌, ◌<◌, ◌==◌, true, false, not, ◌≡◌, refl, ap, ◌∙◌, bit_and, bit_or,
  bit_and-ones, bit_and_step, bit_or_step, bit_and-shifted, bit_or_fields, arith,
}
use lib_stm.Dma.{enable, disable, is_enabled, ccr_en, ccr_tcie}

or_one : (x : ℕ) → x < 4294967296 → bit_or x 1 ≡ x + 1 - x % 2
or_one x h = omega (arith, bit_or_step x 1, bit_or_fields 32 0 (x / 2) (omega arith))

and_one : (x : ℕ) → bit_and x 1 ≡ x % 2
and_one x = bit_and-ones 1 x

pub is_enabled_lem : (x : ℕ) → is_enabled x ≡ not (x % 2 == 0)
unfolding is_enabled
is_enabled_lem x = rw (and_one x) refl

disable_lem : (x : ℕ) → x < 4294967296 → disable x ≡ x - x % 2
unfolding disable
disable_lem x h = omega (
  arith,
  bit_and-shifted 1 (x / 2) (x % 2) 2147483647 (omega arith),
  bit_and-ones 31 (x / 2),
  ap (λ t. bit_and t 4294967294) split,
)
  where
    split : x / 2 * 2 ^ 1 + x % 2 ≡ x
    split = omega arith

even : (x : ℕ) → disable x % 2 ≡ 0
unfolding disable
even x = omega (arith, bit_and_step x 4294967294)

-- A channel that was disabled is disabled.
pub is_enabled-disable : (x : ℕ) → is_enabled (disable x) ≡ false
is_enabled-disable x = is_enabled_lem (disable x) ∙ ground (arith, even x)

-- Disabled and enabled again, an enabled channel is as before.
pub enable-disable : (x : ℕ) → x < 4294967296 → is_enabled x ≡ true → enable (disable x) ≡ x
unfolding enable
enable-disable x h e =
    or_one (disable x) (omega (arith, disable_lem x h))
    ∙ ground (arith, disable_lem x h, is_enabled_lem x)

pub disable-disabled : (x : ℕ) → x < 4294967296 → is_enabled x ≡ false → disable x ≡ x
disable-disabled x h e = disable_lem x h ∙ ground (arith, is_enabled_lem x)

-- What `TryLinkBuffer` puts in the link: enabled, with the interrupt.
pub record IsStarted (ccr : ℕ) : Type 0 where
  pub enabled : is_enabled ccr ≡ true
  pub interrupts : not (bit_and ccr ccr_tcie == 0) ≡ true

odd : (x : ℕ) → bit_or x 1 % 2 ≡ 1
odd x = omega (arith, bit_or_step x 1)

second : (x : ℕ) → bit_or (bit_or x 2) 1 / 2 % 2 ≡ 1
second x = omega (
  arith,
  bit_or_step (bit_or x 2) 1,
  ap (λ t. bit_or t 0) half,
  bit_or_step (bit_or (x / 2) 1) 0,
  odd (x / 2),
)
  where
    half : bit_or x 2 / 2 ≡ bit_or (x / 2) 1
    half = omega (arith, bit_or_step x 2)

pub link_ccr-IsStarted : (x : ℕ) → IsStarted (bit_or (bit_or x ccr_tcie) ccr_en)
link_ccr-IsStarted x = record {
  enabled = is_enabled_lem (bit_or (bit_or x 2) 1) ∙ ground (arith, odd (bit_or x 2));
  interrupts = ground (
    arith,
    bit_and_step (bit_or (bit_or x 2) 1) 2,
    and_one (bit_or (bit_or x 2) 1 / 2),
    second x,
  );
}

-- A link that is set is not taken for an empty one.
pub nonzero : (x : ℕ) → IsStarted x → (x == 0) ≡ false
nonzero x h = ground (arith, h.enabled, is_enabled_lem x)
