-- ===== src/Flash/Written.antt =====
-- targets/stm32l/hw/FLASH.cpp: what `Write` leaves in the memory.
use lib_stm.Base.{
  ℕ, zero, suc, ◌+◌, ◌*◌, ◌/◌, ◌%◌, ◌≤◌, ◌<◌, ◌==◌, ==_iff, Bool, true, false, ◌&&◌, ◌≡◌, ◌≢◌, ◌⊎◌,
  refl, ap, ◌∙◌, Bool-cases, inl, inr, if◌then◌else◌, arith,
}
use lib_stm.Flash.{
  Flash, store, masked, write_loop, write, start_programming, end_programming, unlock, lock,
}
use lib_stm.Flash.Tail.{IsWanted, masked-Wanted}

-- The register is unlocked, in the programming mode.
pub record IsProgramming (f : Flash) : Type 0 where
  pub unlocked : f.locked ≡ false
  pub mode : f.pg ≡ true

-- Erased words take any value.
abbrev pub TakesErased : (ℕ → ℕ → ℕ) → Type 0
TakesErased cell = (w : ℕ) → cell 4294967295 w ≡ w

store_lem :
    (cell : ℕ → ℕ → ℕ) (p w : ℕ) (f : Flash)
    → IsProgramming f
    → store cell p w f ≡ record f { mem = λ a. if a == p then cell (f.mem a) w else f.mem a }
unfolding store
store_lem cell p w f m = simp (m.unlocked, m.mode) refl

-- The rounds of the loop from word `i` on.
record Outcome (cell : ℕ → ℕ → ℕ) (len p : ℕ) (src : ℕ → ℕ) (i dwords : ℕ) (f : Flash)
    (r : Flash × ℕ) : Type 0 where
  mode : IsProgramming r.0
  written : r.1 ≡ 0 → (j : ℕ) → i ≤ j → j < i + 2 * dwords → IsWanted len src j (r.0.mem (p + j))
  outside : (a : ℕ) → a < p + i ⊎ p + i + 2 * dwords ≤ a → r.0.mem a ≡ f.mem a
  complete :
      TakesErased cell
      → ((j : ℕ) → i ≤ j → j < i + 2 * dwords → f.mem (p + j) ≡ 4294967295)
      → r.1 ≡ 0

round_lem :
    (cell : ℕ → ℕ → ℕ) (p w1 w2 : ℕ) (f : Flash)
    → IsProgramming f
    → store cell (p + 1) w2 (store cell p w1 f) ≡ record f {
      mem = λ a.
          if a == p + 1
          then cell (if a == p then cell (f.mem a) w1 else f.mem a) w2
          else (if a == p then cell (f.mem a) w1 else f.mem a);
    }
round_lem cell p w1 w2 f m =
    rw (store_lem cell p w1 f m)
      (store_lem cell (p + 1) w2 _ (record { unlocked = m.unlocked; mode = m.mode }))

-- Two words that have been stored.
record IsStored (cell : ℕ → ℕ → ℕ) (p w1 w2 : ℕ) (f g : Flash) : Type 0 where
  mode : IsProgramming g
  first : g.mem p ≡ cell (f.mem p) w1
  second : g.mem (p + 1) ≡ cell (f.mem (p + 1)) w2
  outside : (a : ℕ) → a < p ⊎ p + 2 ≤ a → g.mem a ≡ f.mem a

store-Stored :
    (cell : ℕ → ℕ → ℕ) (p w1 w2 : ℕ) (f : Flash)
    → IsProgramming f
    → IsStored cell p w1 w2 f (store cell (p + 1) w2 (store cell p w1 f))
store-Stored cell p w1 w2 f m = rw (round_lem cell p w1 w2 f m) (record {
  mode = record { unlocked = m.unlocked; mode = m.mode };
  first = ground arith;
  second = ground arith;
  outside = outside;
})
  where
    outside :
        (a : ℕ)
        → a < p ⊎ p + 2 ≤ a
        → (if a == p + 1
            then cell (if a == p then cell (f.mem a) w1 else f.mem a) w2
            else (if a == p then cell (f.mem a) w1 else f.mem a))
          ≡ f.mem a
    outside a (inl h) = ground arith
    outside a (inr h) = ground arith

-- The loop goes on if both words are read back, and stops if not.
write_loop-next :
    (cell : ℕ → ℕ → ℕ) (len p : ℕ) (src : ℕ → ℕ) (i dwords : ℕ) (f g : Flash)
    → store cell
        (p + i + 1)
        (masked (suc dwords) len (src i) (src (i + 1))).1
        (store cell (p + i) (masked (suc dwords) len (src i) (src (i + 1))).0 f)
      ≡ g
    → write_loop cell len p src i (suc dwords) f ≡ (
        if (g.mem (p + i) == (masked (suc dwords) len (src i) (src (i + 1))).0)
          && (g.mem (p + i + 1) == (masked (suc dwords) len (src i) (src (i + 1))).1)
        then write_loop cell len p src (i + 2) dwords g
        else (g, suc dwords))
unfolding write_loop
write_loop-next cell len p src i dwords f g h =
    ap
      (λ g.
        (if (g.mem (p + i) == (masked (suc dwords) len (src i) (src (i + 1))).0)
            && (g.mem (p + i + 1) == (masked (suc dwords) len (src i) (src (i + 1))).1)
          then write_loop cell len p src (i + 2) dwords g
          else (g, suc dwords)))
      h

narrow : (q dwords a : ℕ) → a < q ⊎ q + 2 * suc dwords ≤ a → a < q ⊎ q + 2 ≤ a
narrow q dwords a (inl h) = inl h
narrow q dwords a (inr h) = inr (omega arith)

both : (a b : Bool) → a ≡ true → b ≡ true → (a && b) ≡ true
both true b h k = k
both false b h k = h

module _ (cell : ℕ → ℕ → ℕ) (len p : ℕ) (src : ℕ → ℕ) (small : (j : ℕ) → src j < 4294967296)
    (no_half : len % 8 ≢ 4) where
  -- One round before the others.
  next-Outcome :
      (i dwords : ℕ) (f g : Flash) (r : Flash × ℕ) (w1 w2 : ℕ)
      → IsStored cell (p + i) w1 w2 f g
      → IsWanted len src i w1
      → IsWanted len src (i + 1) w2
      → g.mem (p + i) ≡ w1
      → g.mem (p + i + 1) ≡ w2
      → Outcome cell len p src (i + 2) dwords g r
      → Outcome cell len p src i (suc dwords) f r
  next-Outcome i dwords f g r w1 w2 s wanted1 wanted2 e1 e2 o = record {
    mode = o.mode;
    written = written;
    outside = outside;
    complete = complete;
  }
    where
      written :
          r.1 ≡ 0 → (j : ℕ) → i ≤ j → j < i + 2 * suc dwords → IsWanted len src j (r.0.mem (p + j))
      written z j h h' = elim (Bool-cases (j == i)) [
        | inl e ↦
            let here : j ≡ i = (==_iff j i).0 e in
            rw (here, o.outside (p + i) (inl (omega arith)), e1) wanted1
        | inr e ↦ elim (Bool-cases (j == i + 1)) [
          | inl e' ↦
              let here : j ≡ i + 1 = (==_iff j (i + 1)).0 e' in
              let at : p + (i + 1) ≡ p + i + 1 = omega arith in
              rw (here, at, o.outside (p + i + 1) (inl (omega arith)), e2) wanted2
          | inr e' ↦ o.written z j (ground arith) (omega arith)
        ]
      ]

      outside : (a : ℕ) → a < p + i ⊎ p + i + 2 * suc dwords ≤ a → r.0.mem a ≡ f.mem a
      outside a (inl h) = o.outside a (inl (omega arith)) ∙ s.outside a (inl (omega arith))
      outside a (inr h) = o.outside a (inr (omega arith)) ∙ s.outside a (inr (omega arith))

      complete :
          TakesErased cell
          → ((j : ℕ) → i ≤ j → j < i + 2 * suc dwords → f.mem (p + j) ≡ 4294967295)
          → r.1 ≡ 0
      complete t e =
          o.complete t
            (λ j h h'. s.outside (p + j) (inr (omega arith)) ∙ e j (omega arith) (omega arith))

  write_loop-Outcome :
      (i dwords : ℕ) (f : Flash)
      → IsProgramming f
      → i + 2 * dwords ≡ 2 * ((len + 7) / 8)
      → Outcome cell len p src i dwords f (write_loop cell len p src i dwords f)
  unfolding write_loop
  write_loop-Outcome i zero f m at = record {
    mode = m;
    written = λ z j h h'. absurd (omega arith);
    outside = λ a h. refl;
    complete = λ t e. refl;
  }
  write_loop-Outcome i (suc dwords) f m at =
      rw (write_loop-next cell len p src i dwords f g refl)
        (elim (Bool-cases ((g.mem (p + i) == w1) && (g.mem (p + i + 1) == w2))) [
          | inl good ↦ rw good (
              next-Outcome i dwords f g _ w1 w2 s wanted.0 wanted.1 (ground arith) (ground arith)
                (write_loop-Outcome (i + 2) dwords g s.mode (omega arith)))
          | inr bad ↦ rw bad (record {
            mode = s.mode;
            written = λ z. absurd (omega arith);
            outside = λ a h. s.outside a (narrow (p + i) dwords a h);
            complete = λ t e. absurd (unread t e bad);
          })
        ])
    where
      w1 : ℕ
      w1 = (masked (suc dwords) len (src i) (src (i + 1))).0

      w2 : ℕ
      w2 = (masked (suc dwords) len (src i) (src (i + 1))).1

      g : Flash
      g = store cell (p + i + 1) w2 (store cell (p + i) w1 f)

      s : IsStored cell (p + i) w1 w2 f g
      s = store-Stored cell (p + i) w1 w2 f m

      wanted : IsWanted len src i w1 × IsWanted len src (i + 1) w2
      wanted = masked-Wanted len src i (suc dwords) small no_half (omega arith) at

      unread :
          TakesErased cell
          → ((j : ℕ) → i ≤ j → j < i + 2 * suc dwords → f.mem (p + j) ≡ 4294967295)
          → ((g.mem (p + i) == w1) && (g.mem (p + i + 1) == w2)) ≡ false
          → ⊥
      unread t e bad =
          let e1 : g.mem (p + i) ≡ w1 =
            s.first ∙ ap (λ x. cell x w1) (e i (omega arith) (omega arith)) ∙ t w1 in
          let at : p + (i + 1) ≡ p + i + 1 = omega arith in
          let e2 : g.mem (p + i + 1) ≡ w2 =
            s.second
            ∙ ap (λ x. cell x w2) (rw at at (e (i + 1) (omega arith) (omega arith)))
            ∙ t w2 in
          cc (
            bad,
            both (g.mem (p + i) == w1) (g.mem (p + i + 1) == w2) ((==_iff _ _).1 e1)
                ((==_iff _ _).1 e2),
          )

from_start : (p dwords a : ℕ) → a < p ⊎ p + 2 * dwords ≤ a → a < p + 0 ⊎ p + 0 + 2 * dwords ≤ a
from_start p dwords a (inl h) = inl (omega arith)
from_start p dwords a (inr h) = inr (omega arith)

-- What `Write` of `len` bytes to word `p` does.
pub record IsWritten (cell : ℕ → ℕ → ℕ) (p : ℕ) (src : ℕ → ℕ) (len : ℕ) (f : Flash)
    (r : Flash × Bool) : Type 0 where
  pub written :
      r.1 ≡ true → (j : ℕ) → j < 2 * ((len + 7) / 8) → IsWanted len src j (r.0.mem (p + j))
  pub outside : (a : ℕ) → a < p ⊎ p + 2 * ((len + 7) / 8) ≤ a → r.0.mem a ≡ f.mem a
  pub complete :
      TakesErased cell
      → ((j : ℕ) → j < 2 * ((len + 7) / 8) → f.mem (p + j) ≡ 4294967295)
      → r.1 ≡ true
  pub locked : r.0.locked ≡ true

-- A write of any number of bytes that leaves no part of exactly 4 bytes in its last double word, to
-- the words from `p` on, with the register locked: if it returns true, whatever the memory held, the
-- double words that it spans have the data, and ones behind it up to their end; it returns true if
-- they were erased; no other word changes; and the register is locked again.
pub write-Written :
    (cell : ℕ → ℕ → ℕ) (p : ℕ) (src : ℕ → ℕ) (len : ℕ) (f : Flash)
    → ((j : ℕ) → src j < 4294967296)
    → len % 8 ≢ 4
    → f.locked ≡ true
    → IsWritten cell p src len f (write cell p src len f)
unfolding write lock end_programming unlock start_programming
write-Written cell p src len f small no_half locked = elim (Bool-cases (len == 0)) [
  | inl nothing ↦
      let z : len ≡ 0 = (==_iff len 0).0 nothing in
      simp nothing (record {
        written = λ _ j h. absurd (omega arith);
        outside = λ a h. refl;
        complete = λ t e. refl;
        locked = locked;
      })
  | inr there ↦
      let o =
        write_loop-Outcome cell len p src small no_half 0 ((len + 7) / 8)
          (record f { locked = false; pg = true; per = false; page = 0 })
          (record { unlocked = refl; mode = refl }) (omega arith) in
      simp (there, o.mode.unlocked)
        (record {
          written = λ z j h. o.written ((==_iff _ 0).0 z) j (omega arith) (omega arith);
          outside = λ a h. o.outside a (from_start p ((len + 7) / 8) a h);
          complete = λ t e. (==_iff _ 0).1 (o.complete t (λ j h h'. e j (omega arith)));
          locked = refl;
        })
]
