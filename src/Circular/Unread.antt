-- ===== src/Circular/Unread.antt =====
-- targets/stm32l/io/DMAReceiverCircular.cpp: the bytes of the ring that are not yet read.
use lib_stm.Base.{
  ℕ, zero, suc, ◌+◌, ◌-◌, ◌≤◌, ◌<◌, ltb, min, ◌≡◌, refl, ap, true, false, List, [], ◌∷◌, ◌++◌,
  length, take, drop, if◌then◌else◌, arith,
}
use lib_stm.Circular.{Receiver, copy, get_write_pointer}

-- The positions are in the ring, which is never used up: the channel counts from its size to 1.
pub record IsRing (s : Receiver) : Type 0 where
  pub read : s.base ≤ s.r
  pub before_end : s.r < s.end
  pub counting : 0 < s.cndtr
  pub whole : s.cndtr ≤ s.end - s.base

-- The bytes received and not yet read, from the read to the write position, around the ring.
unfoldable pub unread : (ℕ → ℕ) → Receiver → List ℕ
unread memory s =
    let w = s.end - s.cndtr in
    if ltb w s.r
    then copy memory s.r (s.end - s.r) ++ copy memory s.base (w - s.base)
    else copy memory s.r (w - s.r)

length-copy : (memory : ℕ → ℕ) (p n : ℕ) → length (copy memory p n) ≡ n
unfolding copy
length-copy memory p zero = refl
length-copy memory p (suc n) = ap suc (length-copy memory (suc p) n)

pub take-copy :
    (memory : ℕ → ℕ) (p m n : ℕ)
    → (take m (copy memory p n) ≡ copy memory p (min n m))
      × (drop m (copy memory p n) ≡ copy memory (p + min n m) (n - min n m))
unfolding copy
take-copy memory p zero n =
    let e : min n 0 ≡ 0 = omega arith in
    let e' : p + 0 ≡ p = omega arith in
    let e'' : n - 0 ≡ n = omega arith in rw (e, e', e'') (refl, refl)
take-copy memory p (suc m) zero = let e : min 0 (suc m) ≡ 0 = omega arith in rw e (refl, refl)
take-copy memory p (suc m) (suc n) =
    let e : min (suc n) (suc m) ≡ suc (min n m) = omega arith in
    let shift : p + suc (min n m) ≡ suc p + min n m = omega arith in
    let less : suc n - suc (min n m) ≡ n - min n m = omega arith in
    let r = take-copy memory (suc p) m n in rw (e, shift, less) (ap (λ l. memory p ∷ l) r.0, r.1)

take-append : (m : ℕ) (xs ys : List ℕ) → take m (xs ++ ys) ≡ take m xs ++ take (m - length xs) ys
take-append zero xs ys = let e : 0 - length xs ≡ 0 = omega arith in rw e
take-append (suc m) [] ys = let e : suc m - 0 ≡ suc m = omega arith in rw e
take-append (suc m) (x ∷ xs) ys =
    let e : suc m - suc (length xs) ≡ m - length xs = omega arith in
    rw e (ap (λ l. x ∷ l) (take-append m xs ys))

drop-append : (m : ℕ) (xs ys : List ℕ) → drop m (xs ++ ys) ≡ drop m xs ++ drop (m - length xs) ys
drop-append zero xs ys = let e : 0 - length xs ≡ 0 = omega arith in rw e
drop-append (suc m) [] ys = let e : suc m - 0 ≡ suc m = omega arith in rw e
drop-append (suc m) (x ∷ xs) ys =
    let e : suc m - suc (length xs) ≡ m - length xs = omega arith in rw e (drop-append m xs ys)

-- The first `m` bytes of two blocks in a row, and the others.
pub two_blocks :
    (memory : ℕ → ℕ) (p n q k m : ℕ)
    → (take m (copy memory p n ++ copy memory q k)
        ≡ copy memory p (min n m) ++ copy memory q (min k (m - n)))
      × (drop m (copy memory p n ++ copy memory q k)
          ≡ copy memory (p + min n m) (n - min n m)
            ++ copy memory (q + min k (m - n)) (k - min k (m - n)))
two_blocks memory p n q k m =
    rw
      (
        take-append,
        drop-append,
        length-copy,
        (take-copy memory p m n).0,
        (take-copy memory p m n).1,
        (take-copy memory q (m - n) k).0,
        (take-copy memory q (m - n) k).1,
      )
      (refl, refl)

-- From `s` to `t`, the bytes `stored` are the first `room` of those unread, and the others remain.
pub record Moved (memory : ℕ → ℕ) (room : ℕ) (s t : Receiver) (stored : List ℕ) : Type 0 where
  pub taken : stored ≡ take room (unread memory s)
  pub left : unread memory t ≡ drop room (unread memory s)
  pub ring : IsRing t

abbrev pub MovedBy : (ℕ → ℕ) → ℕ → Receiver → Type 0
MovedBy memory room s =
    Moved memory room s (get_write_pointer memory room s).1 (get_write_pointer memory room s).0

pub unread-ahead :
    (memory : ℕ → ℕ) (s : Receiver)
    → s.r ≤ s.end - s.cndtr
    → unread memory s ≡ copy memory s.r (s.end - s.cndtr - s.r)
unfolding unread
unread-ahead memory s h = let e : ltb (s.end - s.cndtr) s.r ≡ false = ground arith in rw e

pub unread-behind :
    (memory : ℕ → ℕ) (s : Receiver)
    → s.end - s.cndtr < s.r
    → unread memory s
      ≡ copy memory s.r (s.end - s.r) ++ copy memory s.base (s.end - s.cndtr - s.base)
unfolding unread
unread-behind memory s h = let e : ltb (s.end - s.cndtr) s.r ≡ true = ground arith in rw e
