-- ===== src/Dma/Claim.antt =====
-- targets/stm32/hw/DMA.cpp: a free channel is claimed out of a list of alternatives.
pub mod Taken
use lib_stm.Base.{
  ℕ, zero, suc, ◌+◌, ◌-◌, ◌*◌, ◌/◌, ◌%◌, ◌^◌, ◌≤◌, ◌<◌, ◌==◌, ==_iff, ltb, ltb→lt, Bool, true,
  false, ◌&&◌, ◌≡◌, ◌≢◌, ◌⊎◌, refl, sym, ap, ◌∙◌, Bool-cases, inl, inr, if◌then◌else◌, Option, none,
  some, bit_and, bit_and-ones, u32, arith,
}
use lib_stm.Base.Places.{place}
use lib_stm.Base.Table.{all_below, all_below_sound}
use lib_stm.Base.Masks.{modmask, put_field, put_field-inside, put_field-outside}
use native.Mathlib.Nat.{pow-suc, mul-le-mul_right}

-- The registers of both controllers that are used: CCR of each channel, by its number from one,
-- CSELR, and whether the clock runs.
pub record Controllers : Type 0 where
  pub ccr : ℕ → ℕ → ℕ
  pub cselr : ℕ → ℕ
  pub clocked : ℕ → Bool

-- `ChannelSpec`
abbrev pub spec_dma : ℕ → ℕ
spec_dma spec = spec % 2

abbrev pub spec_ch : ℕ → ℕ
spec_ch spec = spec / 2 % 8

abbrev pub spec_map : ℕ → ℕ
spec_map spec = spec / 16 % 16

abbrev pub mem2mem : ℕ
mem2mem = 16384

unfoldable pub set_ccr : Controllers → ℕ → ℕ → ℕ → Controllers
set_ccr s dma ch value = record s {
  ccr = λ d k. if (d == dma) && (k == ch) then value else s.ccr d k;
}

-- What is done with a free channel.
unfoldable pub claim : ℕ → Controllers → Controllers
claim spec s =
    let dma = spec_dma spec in
    let ch = spec_ch spec in
    let off = (ch - 1) * 4 in
    set_ccr
      (record s {
        clocked = λ d. if d == dma then true else s.clocked d;
        cselr = λ d.
            if d == dma
            then modmask (s.cselr d) (15 * 2 ^ off) (spec_map spec * 2 ^ off)
            else s.cselr d;
      })
      dma ch mem2mem

-- The loop of `ClaimChannel`: the channel is named by its controller and its number.
unfoldable pub claim_loop : ℕ → ℕ → Controllers → Controllers × Option (ℕ × ℕ)
claim_loop zero specs s = (s, none)
claim_loop (suc fuel) specs s =
    let spec = specs % 256 in
    let rest = claim_loop fuel (specs / 256) s in
    if specs == 0
    then (s, none)
    else if s.ccr (spec_dma spec) (spec_ch spec) == 0
    then (claim spec s, some (spec_dma spec, spec_ch spec))
    else rest

-- Four bytes fit the 32 bits of the argument.
unfoldable pub claim_channel : ℕ → Controllers → Controllers × Option (ℕ × ℕ)
claim_channel specs s = claim_loop 4 specs s

-- `DMAChannel::Release`
unfoldable pub release : ℕ → ℕ → Controllers → Controllers
release dma ch s = set_ccr s dma ch 0
