-- ===== src/Circular/Ring.antt =====
-- targets/stm32l/io/DMAReceiverCircular.cpp: the receiver hands out the received bytes in order.
use lib_stm.Base.{
  ℕ, zero, suc, ◌+◌, ◌-◌, ◌≤◌, ◌<◌, ◌==◌, ==_iff, ltb, min, ◌||◌, ◌≡◌, refl, sym, ap, ◌∙◌, true,
  false, Bool-cases, inl, inr, [], ◌++◌, take, drop, arith,
}
use mathlib.Core.List.{append-nil}
use lib_stm.Circular.{Receiver, copy, copy_to_end, get_write_pointer}
use lib_stm.Circular.Unread.{
  IsRing, unread, take-copy, two_blocks, Moved, MovedBy, unread-ahead, unread-behind,
}

-- Nothing is copied if the write position is the read position, or there is no room.
nothing :
    (memory : ℕ → ℕ) (room : ℕ) (s : Receiver)
    → IsRing s
    → (s.end - s.cndtr == s.r || room == 0) ≡ true
    → MovedBy memory room s
unfolding get_write_pointer copy
nothing memory room s v h = rw h (elim (Bool-cases (room == 0)) [
  | inl no_room ↦
      let e : room ≡ 0 = (==_iff room 0).0 no_room in
      rw e (record { taken = refl; left = refl; ring = v })
  | inr some_room ↦
      let e : s.end - s.cndtr - s.r ≡ 0 = ground arith in
      let u = unread-ahead memory s (ground arith) in
      record { taken = rw (u, e) (copied room); left = rw (u, e) (dropped room); ring = v }
])
  where
    copied : (m : ℕ) → [] ≡ take m (copy memory s.r 0)
    copied zero = refl
    copied (suc m) = refl

    dropped : (m : ℕ) → copy memory s.r 0 ≡ drop m (copy memory s.r 0)
    dropped zero = refl
    dropped (suc m) = refl

-- The write position is ahead of the read position: one block.
ahead :
    (memory : ℕ → ℕ) (room : ℕ) (s : Receiver)
    → IsRing s
    → s.r < s.end - s.cndtr
    → 0 < room
    → MovedBy memory room s
unfolding get_write_pointer copy_to_end
ahead memory room s v h k =
    let w : ℕ = s.end - s.cndtr in
    let e1 : ltb w s.r ≡ false = ground arith in
    let e2 : (w == s.r) ≡ false = ground arith in
    let e3 : (room == 0) ≡ false = ground arith in
    let e4 : ltb s.r w ≡ true = ground arith in
    let c = take-copy memory s.r room (w - s.r) in
    let t : Receiver = record s { r = s.r + min (w - s.r) room } in
    let rest : w - s.r - min (w - s.r) room ≡ w - t.r = omega arith in
    rw (e1, e2, e3, e4)
      (record {
        taken = sym (ap (take room) (unread-ahead memory s (omega arith)) ∙ c.0);
        left =
            unread-ahead memory t (omega arith)
            ∙ ap (copy memory t.r) (sym rest)
            ∙ sym (ap (drop room) (unread-ahead memory s (omega arith)) ∙ c.1);
        ring = record {
          read = omega arith;
          before_end = omega arith;
          counting = v.counting;
          whole = v.whole;
        };
      })

-- The write position is behind the read position: the block up to the end, and then one from the
-- start of the ring.
behind_short :
    (memory : ℕ → ℕ) (room : ℕ) (s : Receiver)
    → IsRing s
    → s.end - s.cndtr < s.r
    → 0 < room
    → room < s.end - s.r
    → MovedBy memory room s
unfolding get_write_pointer copy_to_end copy
behind_short memory room s v h k l =
    let w : ℕ = s.end - s.cndtr in
    let e1 : ltb w s.r ≡ true = ground arith in
    let e2 : (w == s.r) ≡ false = ground arith in
    let e3 : (room == 0) ≡ false = ground arith in
    let e4 : min (s.end - s.r) room ≡ room = omega arith in
    let e5 : (s.r + room == s.end) ≡ false = ground arith in
    let e6 : ltb (s.r + room) w ≡ false = ground arith in
    let t : Receiver = record s { r = s.r + room } in
    let b = two_blocks memory s.r (s.end - s.r) s.base (w - s.base) room in
    rw (e1, e2, e3, e4, e5, e6)
      (record {
        taken = sym (ap (take room) (unread-behind memory s h) ∙ b.0 ∙ first);
        left =
            unread-behind memory t (omega arith)
            ∙ sym (ap (drop room) (unread-behind memory s h) ∙ b.1 ∙ second);
        ring = record {
          read = omega arith;
          before_end = omega arith;
          counting = v.counting;
          whole = v.whole;
        };
      })
  where
    first :
        copy memory s.r (min (s.end - s.r) room)
          ++ copy memory s.base (min (s.end - s.cndtr - s.base) (room - (s.end - s.r)))
        ≡ copy memory s.r room
    first =
        let a : min (s.end - s.r) room ≡ room = omega arith in
        let c : min (s.end - s.cndtr - s.base) (room - (s.end - s.r)) ≡ 0 = omega arith in
        rw (a, c, copy, append-nil)

    second :
        copy memory (s.r + min (s.end - s.r) room) (s.end - s.r - min (s.end - s.r) room)
          ++ copy memory
              (s.base + min (s.end - s.cndtr - s.base) (room - (s.end - s.r)))
              (s.end - s.cndtr - s.base - min (s.end - s.cndtr - s.base) (room - (s.end - s.r)))
        ≡ copy memory (s.r + room) (s.end - (s.r + room))
          ++ copy memory s.base (s.end - s.cndtr - s.base)
    second =
        let a : min (s.end - s.r) room ≡ room = omega arith in
        let c : min (s.end - s.cndtr - s.base) (room - (s.end - s.r)) ≡ 0 = omega arith in
        let d : s.end - s.r - room ≡ s.end - (s.r + room) = omega arith in
        let f : s.base + 0 ≡ s.base = omega arith in
        let g : s.end - s.cndtr - s.base - 0 ≡ s.end - s.cndtr - s.base = omega arith in
        rw (a, c, d, f, g)

behind_long :
    (memory : ℕ → ℕ) (room : ℕ) (s : Receiver)
    → IsRing s
    → s.end - s.cndtr < s.r
    → s.end - s.r ≤ room
    → MovedBy memory room s
unfolding get_write_pointer copy_to_end copy
behind_long memory room s v h l =
    let w : ℕ = s.end - s.cndtr in
    let e1 : ltb w s.r ≡ true = ground arith in
    let e2 : (w == s.r) ≡ false = ground arith in
    let e3 : (room == 0) ≡ false = ground arith in
    let e4 : min (s.end - s.r) room ≡ s.end - s.r = omega arith in
    let e5 : (s.r + (s.end - s.r) == s.end) ≡ true = ground arith in
    let n : ℕ = min (w - s.base) (room - (s.end - s.r)) in
    let t : Receiver = record s { r = s.base + n } in
    let b = two_blocks memory s.r (s.end - s.r) s.base (w - s.base) room in
    let all : s.end - s.r - (s.end - s.r) ≡ 0 = omega arith in
    let rest : w - s.base - n ≡ w - t.r = omega arith in
    let taken : take room (unread memory s)
        ≡ copy memory s.r (s.end - s.r) ++ copy memory s.base n =
      ap (take room) (unread-behind memory s h)
      ∙ b.0
      ∙ ap (λ m. copy memory s.r m ++ copy memory s.base n) e4 in
    let left : unread memory t ≡ drop room (unread memory s) =
      unread-ahead memory t (omega arith)
      ∙ ap (copy memory t.r) (sym rest)
      ∙ sym (ap (drop room) (unread-behind memory s h) ∙ b.1 ∙ rw (e4, all, copy)) in
    let ring : IsRing t = record {
      read = omega arith;
      before_end = omega arith;
      counting = v.counting;
      whole = v.whole;
    } in
    elim (Bool-cases (ltb s.base w)) [
      | inl wrapped ↦
          rw (e1, e2, e3, e4, e5, wrapped) (record { taken = sym taken; left = left; ring = ring })
      | inr at_start ↦
          let z : n ≡ 0 = ground arith in
          let back : s.base + n ≡ s.base = omega arith in
          rw (e1, e2, e3, e4, e5, at_start)
            (record {
              taken = sym (taken ∙ rw (z, append-nil));
              left = rw back at left;
              ring = rw back at ring;
            })
    ]

-- Each call stores the first of the bytes received and not yet read, as many as its buffer has room
-- for, across the end of the ring too; the others stay unread, in order, and the read position stays
-- in the ring.
pub get_write_pointer-Moved :
    (memory : ℕ → ℕ) (room : ℕ) (s : Receiver)
    → IsRing s
    → Moved memory room s (get_write_pointer memory room s).1 (get_write_pointer memory room s).0
get_write_pointer-Moved memory room s v = elim (Bool-cases (s.end - s.cndtr == s.r || room == 0)) [
  | inl idle ↦ nothing memory room s v idle
  | inr busy ↦
      let k : 0 < room = ground arith in
      elim (Bool-cases (ltb (s.end - s.cndtr) s.r)) [
        | inl behind ↦ elim (Bool-cases (ltb room (s.end - s.r))) [
          | inl short ↦ behind_short memory room s v (ground arith) k (ground arith)
          | inr long ↦ behind_long memory room s v (ground arith) (ground arith)
        ]
        | inr not_behind ↦ ahead memory room s v (ground arith) k
      ]
]
