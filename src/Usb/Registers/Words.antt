-- ===== src/Usb/Registers/Words.antt =====
-- targets/stm32-otgfs/hw/USB.h: the control word of an endpoint after it is activated or deactivated.
use lib_stm.Base.{
  ℕ, zero, suc, ◌+◌, ◌-◌, ◌*◌, ◌/◌, ◌%◌, ◌^◌, ◌≤◌, ◌<◌, ◌==◌, ==_iff, ◌≡◌, ◌⊎◌, inl, inr, refl, ap,
  sym, ◌∙◌, bit_or, bit_and, bit_and_step, u32, bit_and-ones, true, arith,
}
use Prim.Native.Nat.{max}
use lib_stm.Base.Places.{place, place-lt, place-bit_or, place-small, place-shifted, place-under}
use lib_stm.Base.Masks.{modmask, place-modmask, place-mod}
use lib_stm.Base.Table.{all_below, all_below_sound}
use native.Mathlib.Nat.{pow-suc, one-le-pow}
use lib_stm.Usb.Registers.{Registers, activate_in, activate_out, deactivate}

mod_step : (n x : ℕ) → x % 2 ^ suc n ≡ x / 2 % 2 ^ n * 2 + x % 2
mod_step n x = omega (
  arith,
  bit_and-ones (suc n) x,
  bit_and-ones n (x / 2),
  bit_and_step x (2 ^ suc n - 1),
  ap (bit_and (x / 2)) half,
  pow-suc 2 n,
  one-le-pow n 2,
)
  where
    half : (2 ^ suc n - 1) / 2 ≡ 2 ^ n - 1
    half = omega (arith, pow-suc 2 n, one-le-pow n 2)

-- Numbers with the same digits.
pub mod-eq_of_places :
    (n x y : ℕ) → ((i : ℕ) → i < n → place i x ≡ place i y) → x % 2 ^ n ≡ y % 2 ^ n
mod-eq_of_places zero x y same = omega arith
mod-eq_of_places (suc n) x y same = omega (
  arith,
  mod_step n x,
  mod_step n y,
  mod-eq_of_places n (x / 2) (y / 2) (λ i h. same (suc i) (omega arith)),
  same zero (omega arith),
)

-- What an endpoint's control word says after it was activated: the packet size and the type, that it
-- answers with NAK, is active and is not stalled, and that no command starts or stops a transfer.
pub record IsActivated (size type w : ℕ) : Type 0 where
  pub sized : w % 2 ^ 11 ≡ size
  pub typed : (j : ℕ) → j < 2 → place (18 + j) w ≡ place j type
  pub active : place 15 w ≡ 1
  pub naks : place 27 w ≡ 1
  pub starts_none : place 31 w ≡ 0
  pub stops_none : place 30 w ≡ 0
  pub not_stalled : place 21 w ≡ 0

covered :
    (p reg mask v : ℕ)
    → p < 32
    → mask < 4294967296
    → place p mask ≡ 1
    → place p (modmask reg mask v) ≡ place p v
covered p reg mask v h small one = omega (arith, place-modmask p reg mask v h small, one)

place-or4 :
    (p a b c d : ℕ)
    → place p (bit_or (bit_or (bit_or a b) c) d)
      ≡ max (max (max (place p a) (place p b)) (place p c)) (place p d)
place-or4 p a b c d =
    rw (place-bit_or p (bit_or (bit_or a b) c) d, place-bit_or p (bit_or a b) c, place-bit_or p a b)

place-or6 :
    (p a b c d e f : ℕ)
    → place p (bit_or (bit_or (bit_or (bit_or (bit_or a b) c) d) e) f)
      ≡ max
          (max (max (max (max (place p a) (place p b)) (place p c)) (place p d)) (place p e))
          (place p f)
place-or6 p a b c d e f = rw (
  place-bit_or p (bit_or (bit_or (bit_or (bit_or a b) c) d) e) f,
  place-bit_or p (bit_or (bit_or (bit_or a b) c) d) e,
  place-or4 p a b c d,
)

-- The digits that are constant: at the places `from` to `from + n`, `k` has the digit `d`.
pub constant :
    (k d from n : ℕ)
    → all_below (λ j. place (from + j) k == d) n ≡ true
    → (p : ℕ) → from ≤ p
    → p < from + n
    → place p k ≡ d
constant k d from n all p low high =
    let up : from + (p - from) ≡ p = omega arith in
    rw up at (
      (==_iff (place (from + (p - from)) k) d).0 (all_below_sound _ n (p - from) (omega arith) all))

-- The values that `Activate` writes: the size, the type, the FIFO, 0 for OUT, and constant bits `k` from
-- place 26 on or at places 11 to 17.
module _ (size type fifo k v : ℕ) (hs : size < 2048) (ht : type < 4) (hf : fifo < 16)
    (digits : (p : ℕ)
      → p < 32
      → place p v
        ≡ max
            (max (max (place p size) (place p (type * 2 ^ 18))) (place p (fifo * 2 ^ 22)))
            (place p k)) where
  v-sized : ((p : ℕ) → p < 11 → place p k ≡ 0) → (j : ℕ) → j < 11 → place j v ≡ place j size
  v-sized low j h = omega (
    arith,
    digits j (omega arith),
    place-under 18 j type (omega arith),
    place-under 22 j fifo (omega arith),
    low j h,
  )

  v-typed :
      ((p : ℕ) → 18 ≤ p → p < 20 → place p k ≡ 0)
      → (j : ℕ) → j < 2
      → place (18 + j) v ≡ place j type
  v-typed mid j h = omega (
    arith,
    digits (18 + j) (omega arith),
    place-small 11 (18 + j) size hs (omega arith),
    place-shifted 18 j type,
    place-under 22 (18 + j) fifo (omega arith),
    mid (18 + j) (omega arith) (omega arith),
  )

  v-rest : (p : ℕ) → p < 32 → (26 ≤ p) ⊎ ((11 ≤ p) × (p < 18)) ⊎ (p ≡ 21) → place p v ≡ place p k
  v-rest p h (inl top) = omega (
    arith,
    digits p h,
    place-small 11 p size hs (omega arith),
    place-small 20 p (type * 2 ^ 18) (omega arith) (omega arith),
    place-small 26 p (fifo * 2 ^ 22) (omega arith) top,
  )
  v-rest p h (inr (inl (low, high))) = omega (
    arith,
    digits p h,
    place-small 11 p size hs (omega arith),
    place-under 18 p type high,
    place-under 22 p fifo (omega arith),
  )
  v-rest p h (inr (inr at)) = omega (
    arith,
    digits p h,
    place-small 11 p size hs (omega arith),
    place-small 20 p (type * 2 ^ 18) (omega arith) (omega arith),
    place-under 22 p fifo (omega arith),
  )

  module _ (ctl mask : ℕ) (small : mask < 4294967296)
      (low : all_below (λ j. place (0 + j) mask == 1) 11 ≡ true)
      (mid : all_below (λ j. place (18 + j) mask == 1) 2 ≡ true)
      (none_low : all_below (λ j. place (0 + j) k == 0) 11 ≡ true)
      (none_mid : all_below (λ j. place (18 + j) k == 0) 2 ≡ true) where
    new-sized : modmask ctl mask v % 2 ^ 11 ≡ size
    new-sized =
        mod-eq_of_places 11 (modmask ctl mask v) size (λ i h.
          covered i ctl mask v (omega arith) small (constant mask 1 0 11 low i (omega arith) h)
          ∙ v-sized (λ p below. constant k 0 0 11 none_low p (omega arith) below) i h)
        ∙ omega arith

    new-typed : (j : ℕ) → j < 2 → place (18 + j) (modmask ctl mask v) ≡ place j type
    new-typed j h =
        covered (18 + j) ctl mask v (omega arith) small
          (constant mask 1 18 2 mid (18 + j) (omega arith) (omega arith))
        ∙ v-typed (λ p above below. constant k 0 18 2 none_mid p above below) j h

  new-bit :
      (p ctl mask : ℕ)
      → p < 32
      → mask < 4294967296
      → (26 ≤ p) ⊎ ((11 ≤ p) × (p < 18)) ⊎ (p ≡ 21)
      → place p mask ≡ 1
      → place p (modmask ctl mask v) ≡ place p k
  new-bit p ctl mask h small at one = covered p ctl mask v h small one ∙ v-rest p h at

-- A bit that is set in the value is set in the register.
pub set-place :
    (p reg mask v : ℕ)
    → p < 32
    → mask < 4294967296
    → place p v ≡ 1
    → place p (modmask reg mask v) ≡ 1
set-place p reg mask v h small one =
    omega (arith, place-modmask p reg mask v h small, one, place-lt p reg)

regroup : (x a b c : ℕ) → max (max (max x a) b) c ≡ max x (max (max a b) c)
regroup x a b c = omega arith

regroup_two : (x a b : ℕ) → max (max x a) b ≡ max (max x 0) (max a b)
regroup_two x a b = omega arith

module _ (size type fifo : ℕ) (r : Registers) (hs : size < 2048) (ht : type < 4)
    (hf : fifo < 16) where
  abbrev in_value : ℕ
  in_value =
      bit_or
        (bit_or
          (bit_or (bit_or (bit_or size (u32 (type * 2 ^ 18))) (u32 (fifo * 2 ^ 22))) 268435456)
          32768)
        134217728

  in-digits :
      (p : ℕ)
      → p < 32
      → place p in_value
        ≡ max
            (max (max (place p size) (place p (type * 2 ^ 18))) (place p (fifo * 2 ^ 22)))
            (place p 402685952)
  in-digits p h =
      place-or6 p size (u32 (type * 2 ^ 18)) (u32 (fifo * 2 ^ 22)) 268435456 32768 134217728
      ∙ rw
          (
            place-mod 32 p (type * 2 ^ 18) h,
            place-mod 32 p (fifo * 2 ^ 22) h,
            regroup (max (max (place p size) (place p (type * 2 ^ 18))) (place p (fifo * 2 ^ 22)))
                (place p 268435456) (place p 32768) (place p 134217728),
          )
          (ap (max (max (max (place p size) (place p (type * 2 ^ 18))) (place p (fifo * 2 ^ 22)))) (
            sym (
              rw (place-bit_or p (bit_or 268435456 32768) 134217728, place-bit_or p 268435456 32768)
                refl)))

  pub activate_in-IsActivated : IsActivated size type (activate_in size type fifo r).ctl
  unfolding activate_in all_below
  activate_in-IsActivated = record {
    sized =
        new-sized size type fifo 402685952 in_value hs ht hf in-digits r.ctl 4293658623
          (omega arith) refl refl refl refl;
    typed =
        new-typed size type fifo 402685952 in_value hs ht hf in-digits r.ctl 4293658623
          (omega arith) refl refl refl refl;
    active = set-place 15 r.ctl 4293658623 in_value (omega arith) (omega arith) (
        v-rest size type fifo 402685952 in_value hs ht hf in-digits 15 (omega arith)
          (inr (inl (omega arith, omega arith))));
    naks = bit 27 (omega arith) (inl (omega arith)) refl;
    starts_none = bit 31 (omega arith) (inl (omega arith)) refl;
    stops_none = bit 30 (omega arith) (inl (omega arith)) refl;
    not_stalled = bit 21 (omega arith) (inr (inr refl)) refl;
  }
    where
      bit :
          (p : ℕ)
          → p < 32
          → (26 ≤ p) ⊎ ((11 ≤ p) × (p < 18)) ⊎ (p ≡ 21)
          → place p 4293658623 ≡ 1
          → place p (modmask r.ctl 4293658623 in_value) ≡ place p 402685952
      bit p h at one =
          new-bit size type fifo 402685952 in_value hs ht hf in-digits p r.ctl 4293658623 h
            (omega arith) at one

module _ (size type : ℕ) (r : Registers) (hs : size < 2048) (ht : type < 4) where
  abbrev out_value : ℕ
  out_value = bit_or (bit_or (bit_or size (u32 (type * 2 ^ 18))) 32768) 134217728

  out-digits :
      (p : ℕ)
      → p < 32
      → place p out_value
        ≡ max
            (max (max (place p size) (place p (type * 2 ^ 18))) (place p (0 * 2 ^ 22)))
            (place p 134250496)
  out-digits p h =
      place-or4 p size (u32 (type * 2 ^ 18)) 32768 134217728
      ∙ rw
          (
            place-mod 32 p (type * 2 ^ 18) h,
            place-small 0 p 0 (omega arith) (omega arith),
            regroup_two (max (place p size) (place p (type * 2 ^ 18))) (place p 32768)
                (place p 134217728),
          )
          (ap (max (max (max (place p size) (place p (type * 2 ^ 18))) 0))
            (sym (place-bit_or p 32768 134217728)))

  pub activate_out-IsActivated : IsActivated size type (activate_out size type r).ctl
  unfolding activate_out all_below
  activate_out-IsActivated = record {
    sized =
        new-sized size type 0 134250496 out_value hs ht (omega arith) out-digits r.ctl 4230776831
          (omega arith) refl refl refl refl;
    typed =
        new-typed size type 0 134250496 out_value hs ht (omega arith) out-digits r.ctl 4230776831
          (omega arith) refl refl refl refl;
    active = bit 15 (omega arith) (inr (inl (omega arith, omega arith))) refl;
    naks = bit 27 (omega arith) (inl (omega arith)) refl;
    starts_none = bit 31 (omega arith) (inl (omega arith)) refl;
    stops_none = bit 30 (omega arith) (inl (omega arith)) refl;
    not_stalled = bit 21 (omega arith) (inr (inr refl)) refl;
  }
    where
      bit :
          (p : ℕ)
          → p < 32
          → (26 ≤ p) ⊎ ((11 ≤ p) × (p < 18)) ⊎ (p ≡ 21)
          → place p 4230776831 ≡ 1
          → place p (modmask r.ctl 4230776831 out_value) ≡ place p 134250496
      bit p h at one =
          new-bit size type 0 134250496 out_value hs ht (omega arith) out-digits p r.ctl 4230776831
            h (omega arith) at one

-- An endpoint that was deactivated is not active.
pub deactivate-active : (r : Registers) → place 15 (deactivate r).ctl ≡ 0
unfolding deactivate
deactivate-active r = cleared 15 (omega arith) refl
  where
    cleared : (p : ℕ) → p < 32 → place p 4229988352 ≡ 1 → place p (modmask r.ctl 4229988352 0) ≡ 0
    cleared p h one =
        covered p r.ctl 4229988352 0 h (omega arith) one
        ∙ place-small 0 p 0 (omega arith) (omega arith)
