-- ===== src/Dma/Claim/Taken.antt =====
-- targets/stm32/hw/DMA.cpp: which channel is claimed, and what that changes.
use lib_stm.Base.{
  ℕ, zero, suc, ◌+◌, ◌-◌, ◌*◌, ◌/◌, ◌%◌, ◌^◌, ◌≤◌, ◌<◌, ◌==◌, ==_iff, ltb, ltb→lt, true, false, ◌≡◌,
  ◌≢◌, ◌⊎◌, refl, sym, ap, ◌∙◌, Bool-cases, inl, inr, Option, none, some, bit_and, bit_and-ones,
  u32, arith,
}
use lib_stm.Base.Places.{place}
use lib_stm.Base.Table.{all_below, all_below_sound}
use lib_stm.Base.Masks.{modmask, put_field, put_field-inside, put_field-outside}
use native.Mathlib.Nat.{pow-suc, mul-le-mul_right}
use lib_stm.Dma.Claim.{
  Controllers, spec_dma, spec_ch, spec_map, mem2mem, set_ccr, claim, claim_loop, claim_channel,
}

-- The alternatives from place `i` on.
abbrev pub from_place : ℕ → ℕ → ℕ
from_place zero specs = specs
from_place (suc i) specs = from_place i (specs / 256)

-- There is an alternative at place `i`, and it names the channel.
pub record IsNamed (specs i dma ch : ℕ) : Type 0 where
  pub more : from_place i specs ≢ 0
  pub same_dma : spec_dma (from_place i specs % 256) ≡ dma
  pub same_channel : spec_ch (from_place i specs % 256) ≡ ch

-- Channels are numbered from one.
abbrev pub AreNumbered : ℕ → Type 0
AreNumbered specs = (i : ℕ) → from_place i specs ≢ 0 → 0 < spec_ch (from_place i specs % 256)

-- Place `p` of CSELR is in the field of channel `ch`.
abbrev pub IsOwn : ℕ → ℕ → Type 0
IsOwn ch p = ((ch - 1) * 4 ≤ p) × (p < ch * 4)

-- The channel of place `i` was free, those of the places before were not, and now it is taken, has the
-- function that its alternative names, and its clock runs; no other channel, function or clock changes.
pub record IsClaimed (specs i : ℕ) (s t : Controllers) (dma ch : ℕ) : Type 0 where
  pub named : IsNamed specs i dma ch
  pub was_free : s.ccr dma ch ≡ 0
  pub earlier_taken : (j d k : ℕ) → j < i → IsNamed specs j d k → s.ccr d k ≢ 0
  pub taken : t.ccr dma ch ≡ mem2mem
  pub others : (d k : ℕ) → (d ≡ dma → k ≢ ch) → t.ccr d k ≡ s.ccr d k
  pub function :
      (q : ℕ)
      → q < 4
      → place ((ch - 1) * 4 + q) (t.cselr dma) ≡ place q (spec_map (from_place i specs % 256))
  pub other_functions :
      (d p : ℕ) → p < 32 → (d ≡ dma → ¬ IsOwn ch p) → place p (t.cselr d) ≡ place p (s.cselr d)
  pub clock : t.clocked dma ≡ true
  pub other_clocks : (d : ℕ) → d ≢ dma → t.clocked d ≡ s.clocked d

-- No alternative is free, and nothing changes.
pub record IsDenied (specs : ℕ) (s t : Controllers) : Type 0 where
  pub all_taken : (j d k : ℕ) → IsNamed specs j d k → s.ccr d k ≢ 0
  pub unchanged : t ≡ s

-- The two ends of the loop.
pub data Outcome (specs : ℕ) (s : Controllers) : Controllers × Option (ℕ × ℕ) → Type 0 where
  claimed :
      {t : Controllers} {dma ch : ℕ}
      → (i : ℕ) → IsClaimed specs i s t dma ch
      → Outcome specs s (t, some (dma, ch))
  denied : {t : Controllers} → IsDenied specs s t → Outcome specs s (t, none)

no_places : (i : ℕ) → from_place i 0 ≡ 0
no_places zero = refl
no_places (suc i) = no_places i

-- The field of a channel lies in the 32 bits of CSELR.
fields : all_below (λ c. ltb (15 * 2 ^ ((c - 1) * 4)) 4294967296) 8 ≡ true
unfolding all_below
fields = refl

-- What is written to CSELR is a field of four places.
cselr-put_field :
    (spec reg : ℕ)
    → modmask reg (15 * 2 ^ ((spec_ch spec - 1) * 4)) (spec_map spec * 2 ^ ((spec_ch spec - 1) * 4))
      ≡ put_field 4 ((spec_ch spec - 1) * 4) (spec_map spec) reg
unfolding put_field
cselr-put_field spec reg =
    let wide : 15 * 2 ^ off < 4294967296 = ltb→lt _ _ (
      all_below_sound (λ c. ltb (15 * 2 ^ ((c - 1) * 4)) 4294967296) 8 (spec_ch spec) (omega arith)
        fields) in
    let mask : u32 ((2 ^ 4 - 1) * 2 ^ off) ≡ 15 * 2 ^ off = omega arith in
    let cut : bit_and (spec_map spec) (2 ^ 4 - 1) ≡ spec_map spec =
      omega (arith, bit_and-ones 4 (spec_map spec)) in
    let value : u32 (spec_map spec * 2 ^ off) ≡ spec_map spec * 2 ^ off =
      omega (arith, wide, mul-le-mul_right {m = spec_map spec} {n = 15} (2 ^ off) (omega arith)) in
    sym (
      ap (λ t. modmask reg t (u32 (bit_and (spec_map spec) (2 ^ 4 - 1) * 2 ^ off))) mask
      ∙ ap (λ t. modmask reg (15 * 2 ^ off) (u32 (t * 2 ^ off))) cut
      ∙ ap (modmask reg (15 * 2 ^ off)) value)
  where
    off : ℕ
    off = (spec_ch spec - 1) * 4

claim-IsClaimed :
    (specs : ℕ) (s : Controllers)
    → specs ≢ 0
    → 0 < spec_ch (specs % 256)
    → s.ccr (spec_dma (specs % 256)) (spec_ch (specs % 256)) ≡ 0
    → IsClaimed specs 0 s (claim (specs % 256) s) (spec_dma (specs % 256)) (spec_ch (specs % 256))
unfolding claim set_ccr
claim-IsClaimed specs s more numbered free = record {
  named = record { more = more; same_dma = refl; same_channel = refl };
  was_free = free;
  earlier_taken = λ j d k h. absurd (omega arith);
  taken = ground arith;
  others = λ d k h. ground arith;
  function = λ q h.
      rw (own_dma, cselr-put_field spec (s.cselr dma))
        (put_field-inside 4 ((ch - 1) * 4) (spec_map spec) (s.cselr dma) q (omega arith) h);
  other_functions = other_functions;
  clock = rw own_dma refl;
  other_clocks = λ d h. let e : (d == dma) ≡ false = ground arith in rw e refl;
}
  where
    spec : ℕ
    spec = specs % 256

    dma : ℕ
    dma = spec_dma spec

    ch : ℕ
    ch = spec_ch spec

    own_dma : (dma == dma) ≡ true
    own_dma = ground arith

    outside : (p : ℕ) → ¬ IsOwn ch p → (p < (ch - 1) * 4) ⊎ ((ch - 1) * 4 + 4 ≤ p)
    outside p h = elim (Bool-cases (ltb p ((ch - 1) * 4))) [
      | inl less ↦ inl (ltb→lt _ _ less)
      | inr not_less ↦ elim (Bool-cases (ltb p (ch * 4))) [
        | inl inner ↦ absurd (h (ground arith, ltb→lt _ _ inner))
        | inr above ↦ inr (ground arith)
      ]
    ]

    other_functions :
        (d p : ℕ)
        → p < 32
        → (d ≡ dma → ¬ IsOwn ch p)
        → place p ((claim spec s).cselr d) ≡ place p (s.cselr d)
    other_functions d p small h = elim (Bool-cases (d == dma)) [
      | inl same ↦
          rw (same, cselr-put_field spec (s.cselr d))
            (put_field-outside 4 ((ch - 1) * 4) (spec_map spec) (s.cselr d) p small
              (outside p (h ((==_iff d dma).0 same))))
      | inr differ ↦ rw differ refl
    ]

-- The first alternative is taken: an outcome for the others is one for all.
next-Outcome :
    (specs : ℕ) (s : Controllers) (r : Controllers × Option (ℕ × ℕ))
    → s.ccr (spec_dma (specs % 256)) (spec_ch (specs % 256)) ≢ 0
    → Outcome (specs / 256) s r
    → Outcome specs s r
next-Outcome specs s r busy (claimed {t} {dma} {ch} i c) = claimed (suc i) (record {
  named = record {
    more = c.named.more;
    same_dma = c.named.same_dma;
    same_channel = c.named.same_channel;
  };
  was_free = c.was_free;
  earlier_taken = earlier;
  taken = c.taken;
  others = c.others;
  function = c.function;
  other_functions = c.other_functions;
  clock = c.clock;
  other_clocks = c.other_clocks;
})
  where
    earlier : (j d k : ℕ) → j < suc i → IsNamed specs j d k → s.ccr d k ≢ 0
    earlier zero d k h n = λ z. busy (cc (z, n.same_dma, n.same_channel))
    earlier (suc j) d k h n =
        c.earlier_taken j d k (omega arith)
          (record { more = n.more; same_dma = n.same_dma; same_channel = n.same_channel })
next-Outcome specs s r busy (denied {t} c) =
    denied (record { all_taken = taken; unchanged = c.unchanged })
  where
    taken : (j d k : ℕ) → IsNamed specs j d k → s.ccr d k ≢ 0
    taken zero d k n = λ z. busy (cc (z, n.same_dma, n.same_channel))
    taken (suc j) d k n =
        c.all_taken j d k
          (record { more = n.more; same_dma = n.same_dma; same_channel = n.same_channel })

-- No alternative is left.
end-Outcome : (specs : ℕ) (s : Controllers) → specs ≡ 0 → Outcome specs s (s, none)
end-Outcome specs s h =
    denied
      (record { all_taken = λ j d k n. absurd (n.more (rw h (no_places j))); unchanged = refl })

claim_loop-Outcome :
    (fuel specs : ℕ) (s : Controllers)
    → AreNumbered specs
    → specs < 256 ^ fuel
    → Outcome specs s (claim_loop fuel specs s)
unfolding claim_loop
claim_loop-Outcome zero specs s n h = end-Outcome specs s (omega arith)
claim_loop-Outcome (suc fuel) specs s n h = elim (Bool-cases (specs == 0)) [
  | inl done ↦ rw done (end-Outcome specs s ((==_iff specs 0).0 done))
  | inr more ↦ elim (Bool-cases (s.ccr (spec_dma (specs % 256)) (spec_ch (specs % 256)) == 0)) [
    | inl free ↦
        rw (more, free)
          (claimed 0 (claim-IsClaimed specs s (ground arith) (n 0 (ground arith)) (ground arith)))
    | inr busy ↦
        rw (more, busy)
          (next-Outcome specs s (claim_loop fuel (specs / 256) s) (ground arith) (
            claim_loop-Outcome fuel (specs / 256) s (λ i. n (suc i))
              (omega (arith, pow-suc 256 fuel))))
  ]
]

-- For every list of up to four alternatives, whose channels are numbered from one, `ClaimChannel` takes
-- the first one whose channel is free and returns it, or if there is none, returns none and changes
-- nothing; a channel that was taken is never returned. The channel that is taken gets the function that
-- its alternative names, and its controller the clock. No other channel is taken or released, and no other
-- field of CSELR and no other clock changes.
pub claim_channel-Outcome :
    (specs : ℕ) (s : Controllers)
    → AreNumbered specs
    → specs < 4294967296
    → Outcome specs s (claim_channel specs s)
unfolding claim_channel
claim_channel-Outcome specs s n h = claim_loop-Outcome 4 specs s n h
