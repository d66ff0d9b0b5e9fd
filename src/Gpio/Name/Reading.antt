-- ===== src/Gpio/Name/Reading.antt =====
-- targets/stm32l/hw/GPIO.cpp: the name of a range of pins, read again.
use lib_stm.Base.{
  ℕ, zero, suc, ◌+◌, ◌-◌, ◌*◌, ◌/◌, ◌%◌, ◌^◌, ◌≤◌, ◌<◌, ◌==◌, ltb, leb, ◌&&◌, ◌≡◌, refl, true,
  false, Bool-cases, inl, inr, arith, tests, if◌then◌else◌, Option, none, some, List, [], ◌∷◌, ◌++◌,
  length, length-append, ap, ◌∙◌,
}
use lib_stm.Base.Places.{place, place-small}
use native.Mathlib.Nat.{pow-suc}
use mathlib.Core.List.{append_assoc}
use mathlib.Core.Option
use lib_stm.Gpio.{ctz}
use lib_stm.Gpio.Outputs.{ctz-le}
use lib_stm.Gpio.Configure.Fields.{place-ctz}
use lib_stm.Gpio.Pins.{Pin, clz, index, size, get_index}
use lib_stm.Gpio.Name.{digits, numbers, name}

-- A reader of names. `value` takes a number's digits with what they are worth so far, up to a byte that
-- is no digit.
value : ℕ → List ℕ → ℕ × List ℕ
value n [] = (n, [])
value n (b ∷ bs) = if leb b'0' b && leb b b'9' then value (n * 10 + (b - b'0')) bs else (n, b ∷ bs)

-- What is read behind the first number, up to the end mark.
last_of : ℕ → List ℕ → Option (ℕ × ℕ)
last_of n [] = none
last_of n (b ∷ bs) =
    if b == 0 then some (n, n) else if b == b':' then some (n, (value 0 bs).0) else none

named : ℕ → ℕ × List ℕ → Option (ℕ × ℕ × ℕ)
named b v = Option.map (λ r. (b - b'A', r.0, r.1)) (last_of v.0 v.1)

-- The port and the first and last pin of a name.
pub read_name : List ℕ → Option (ℕ × ℕ × ℕ)
read_name [] = none
read_name (b ∷ bs) = named b (value 0 bs)

place-top : (n x : ℕ) → 2 ^ n ≤ x → x < 2 ^ suc n → place n x ≡ 1
place-top zero x low high = omega arith
place-top (suc n) x low high =
    place-top n (x / 2) (omega (arith, pow-suc 2 n)) (omega (arith, pow-suc 2 (suc n)))

-- The highest pin.
place-clz : (n x : ℕ) → 0 < x → x < 2 ^ n → (clz n x < n) × (place (n - 1 - clz n x) x ≡ 1)
unfolding clz
place-clz zero x pos h = absurd (omega arith)
place-clz (suc n) x pos h = elim (Bool-cases (leb (2 ^ n) x)) [
  | inl top ↦ rw top (
    omega arith,
    let same : suc n - 1 - 0 ≡ n = omega arith in rw same (place-top n x (ground arith) h),
  )
  | inr low ↦
      let c = place-clz n x pos (ground arith) in
      let same : suc n - 1 - suc (clz n x) ≡ n - 1 - clz n x = omega arith in
      rw low (omega (arith, c.0), rw same c.1)
]

clz-above : (n x i : ℕ) → place i x ≡ 1 → x < 2 ^ n → i + clz n x < n
unfolding clz
clz-above zero x i one h = absurd (omega (arith, place-small 0 i x))
clz-above (suc n) x i one h = elim (Bool-cases (leb (2 ^ n) x)) [
  | inl top ↦ rw top (elim (Bool-cases (ltb n i)) [
    | inl beyond ↦ absurd (omega (tests, beyond, place-small (suc n) i x h))
    | inr within ↦ ground arith
  ])
  | inr low ↦ rw low (omega (arith, clz-above n x i one (ground arith)))
]

-- A digit is read, and a byte that is no digit ends the number.
value-digit : (n d : ℕ) (bs : List ℕ) → d < 10 → value n ((b'0' + d) ∷ bs) ≡ value (n * 10 + d) bs
unfolding value
value-digit n d bs h =
    let digit : (leb b'0' (b'0' + d) && leb (b'0' + d) b'9') ≡ true = ground arith in
    let worth : b'0' + d - b'0' ≡ d = omega arith in rw (digit, worth) refl

value-digits :
    (n b : ℕ) (rest : List ℕ)
    → n < 100
    → (leb b'0' b && leb b b'9') ≡ false
    → value 0 (digits n ++ b ∷ rest) ≡ (n, b ∷ rest)
unfolding digits
value-digits n b rest small last = elim (Bool-cases (ltb n 10)) [
  | inl one ↦
      rw one (value-digit 0 n (b ∷ rest) (omega (tests, one)) ∙ ended (0 * 10 + n) (omega arith))
  | inr two ↦ rw two (
      value-digit 0 (n / 10) ((b'0' + n % 10) ∷ b ∷ rest) (omega arith)
      ∙ value-digit (0 * 10 + n / 10) (n % 10) (b ∷ rest) (omega arith)
      ∙ ended ((0 * 10 + n / 10) * 10 + n % 10) (omega arith))
]
  where
    ended : (m : ℕ) → m ≡ n → value m (b ∷ rest) ≡ (n, b ∷ rest)
    ended m same = rw same (unfold value in rw last refl)

length-digits : (n : ℕ) → length (digits n) ≤ 2
unfolding digits
length-digits n = ground arith

module _ (port : ℕ) where
  abbrev letter : ℕ
  letter = b'A' + port

  letter_lem : letter - b'A' ≡ port
  letter_lem = omega arith

  -- The name of one pin, and that of a range.
  read-one : (n : ℕ) → n < 100 → read_name (letter ∷ digits n ++ 0 ∷ []) ≡ some (port, n, n)
  unfolding read_name named last_of
  read-one n small =
      ap (named letter) (value-digits n 0 [] small refl) ∙ ap (λ q. some (q, n, n)) letter_lem

  read-range :
      (lo hi : ℕ)
      → lo < 100
      → hi < 100
      → read_name (letter ∷ (digits lo ++ b':' ∷ digits hi) ++ 0 ∷ []) ≡ some (port, lo, hi)
  unfolding read_name named last_of
  read-range lo hi small_lo small_hi =
      ap (λ l. named letter (value 0 l)) (append_assoc (digits lo) (b':' ∷ digits hi) (0 ∷ []))
      ∙ ap (named letter) (value-digits lo b':' (digits hi ++ 0 ∷ []) small_lo refl)
      ∙ ap (λ v. some (letter - b'A', lo, v.0)) (value-digits hi 0 [] small_hi refl)
      ∙ ap (λ q. some (q, lo, hi)) letter_lem

-- The name of pins whose lowest is `lo` and whose highest is `hi`.
module _ (port lo hi : ℕ) (order : lo ≤ hi) (small : hi < 100) where
  Named : Option (List ℕ) → Type 0
  Named o = (bs : List ℕ) × (o ≡ some bs) × (length bs ≤ 7) × (read_name bs ≡ some (port, lo, hi))

  numbers-Named : Named (Option.map (λ l. (b'A' + port) ∷ l ++ 0 ∷ []) (numbers 2 lo (hi - lo + 1)))
  unfolding Named numbers
  numbers-Named = elim (Bool-cases (leb (hi - lo + 1) 1)) [
    | inl one ↦
        let same : hi ≡ lo = ground arith in
        rw one (
          (b'A' + port) ∷ digits lo ++ 0 ∷ [],
          refl,
          omega (arith, length-append {0} (digits lo) (0 ∷ []), length-digits lo),
          rw same (read-one port lo (omega arith)),
        )
    | inr more ↦
        let last : lo + (hi - lo + 1) - 1 ≡ hi = omega arith in
        rw (more, last)
          (
            (b'A' + port) ∷ (digits lo ++ b':' ∷ digits hi) ++ 0 ∷ [],
            refl,
            omega (
              arith,
              length-append {0} (digits lo ++ b':' ∷ digits hi) (0 ∷ []),
              length-append {0} (digits lo) (b':' ∷ digits hi),
              length-digits lo,
              length-digits hi,
            ),
            read-range port lo hi (omega arith) small,
          )
  ]

-- The name of a pin or a range of pins fits the seven bytes that hold it, and from it can be read the
-- port and the numbers of the lowest and the highest pin.
pub name_lem :
    (gpioa gpiob : ℕ) (p : Pin)
    → 0 < p.mask
    → p.mask < 4294967296
    → (bs : List ℕ) × (lo : ℕ) × (hi : ℕ) × (name gpioa gpiob p ≡ some bs)
      × (length bs ≤ 7)
      × (read_name bs ≡ some (get_index gpioa gpiob p.port, lo, hi))
      × (place lo p.mask ≡ 1)
      × (place hi p.mask ≡ 1)
      × ((i : ℕ) → place i p.mask ≡ 1 → (lo ≤ i) × (i ≤ hi))
unfolding name index size Named
name_lem gpioa gpiob p pos word = (
  n.0,
  lo,
  hi,
  rw nonzero n.1,
  n.2,
  n.3,
  at_lo,
  top.1,
  λ i one. (ctz-le 32 p.mask i one, omega (arith, clz-above 32 p.mask i one word)),
)
  where
    lo : ℕ
    lo = ctz 32 p.mask

    hi : ℕ
    hi = 31 - clz 32 p.mask

    at_lo : place lo p.mask ≡ 1
    at_lo = place-ctz 32 p.mask pos word

    top : (clz 32 p.mask < 32) × (place (32 - 1 - clz 32 p.mask) p.mask ≡ 1)
    top = place-clz 32 p.mask pos word

    order : lo ≤ hi
    order = omega (arith, clz-above 32 p.mask lo at_lo word)

    nonzero : (p.mask == 0) ≡ false
    nonzero = ground arith

    count : 32 - lo - clz 32 p.mask ≡ hi - lo + 1
    count = omega (arith, order, clz-above 32 p.mask lo at_lo word)

    n : Named (get_index gpioa gpiob p.port) lo hi order (omega arith) (
        Option.map
          (λ l. (b'A' + get_index gpioa gpiob p.port) ∷ l ++ 0 ∷ [])
          (numbers 2 lo (32 - lo - clz 32 p.mask)))
    n = rw count (numbers-Named (get_index gpioa gpiob p.port) lo hi order (omega arith))
