-- ===== src/I2c/Outcome.antt =====
-- targets/stm32l/hw/I2C.cpp: how a transfer ends, whatever happens on the bus.
use lib_stm.Base.{
  ℕ, zero, suc, ◌+◌, ◌-◌, ◌≤◌, ◌<◌, ltb, ltb→lt, min, Bool, true, false, not, ◌||◌, ◌≡◌, ◌⊎◌, refl,
  sym, ap, Bool-cases, inl, inr, List, [], ◌∷◌, drop, some, u16, arith,
}
use lib_stm.I2c.{
  Next, Cr2, Device, Bus, Answer, acquire, release, Transfer, succeeded, broken, command,
  transfer_loop, transfer,
}

-- A command that ends in time and without an error has moved something.
abbrev pub Progresses : (List Cr2 → Answer) → Type 0
Progresses peripheral =
    (commands : List Cr2)
    → (not (peripheral commands).in_time || (peripheral commands).error) ≡ false
    → 0 < (peripheral commands).moved

-- The device holds the bus.
pub record IsHolding (d : Device) (b : Bus) : Type 0 where
  pub active : d.active ≡ true
  pub locked : b.locked ≡ true

pub record IsFree (d : Device) (b : Bus) : Type 0 where
  pub active : d.active ≡ false
  pub reloaded : d.reloaded ≡ false
  pub locked : b.locked ≡ false

-- The bus is held as `next` wants it.
abbrev pub IsLeft : Next → Device → Bus → Type 0
IsLeft Next.halt d b = IsFree d b
IsLeft next d b = IsHolding d b

-- The bytes that the last `k` commands have moved.
abbrev pub moved_by : (List Cr2 → Answer) → ℕ → List Cr2 → ℕ
moved_by peripheral zero cs = 0
moved_by peripheral (suc k) [] = 0
moved_by peripheral (suc k) (c ∷ cs) = (peripheral (c ∷ cs)).moved + moved_by peripheral k cs

-- `k` commands were given after those of `b`, and moved `len` bytes or more.
pub record HasMoved (peripheral : List Cr2 → Answer) (len : ℕ) (b b' : Bus) (k : ℕ) : Type 0 where
  pub before : drop k b'.commands ≡ b.commands
  pub enough : len ≤ moved_by peripheral k b'.commands

pub record IsDone (peripheral : List Cr2 → Answer) (next : Next) (len : ℕ) (b : Bus) (t : Transfer)
    : Type 0 where
  pub result : t.result ≡ some true
  pub left : IsLeft next t.device t.bus
  pub resets : t.bus.resets ≡ b.resets
  pub moved : (k : ℕ) × HasMoved peripheral len b t.bus k
  pub transferred : 0 < len → t.device.wx ≡ u16 len

pub record IsBroken (b : Bus) (t : Transfer) : Type 0 where
  pub result : t.result ≡ some false
  pub free : IsFree t.device t.bus
  pub reset : t.bus.resets ≡ suc b.resets

module _ (peripheral : List Cr2 → Answer) where
  succeeded-Done :
      (next : Next) (len k : ℕ) (d : Device) (b b0 : Bus)
      → IsHolding d b
      → b.resets ≡ b0.resets
      → HasMoved peripheral len b0 b k
      → (0 < len → d.wx ≡ u16 len)
      → IsDone peripheral next len b0 (succeeded next d b)
  unfolding succeeded release
  succeeded-Done Next.halt len k d b b0 h e m w = simp h.active (record {
    result = refl;
    left = record { active = refl; reloaded = refl; locked = refl };
    resets = e;
    moved = (k, record { before = m.before; enough = m.enough });
    transferred = w;
  })
  succeeded-Done Next.resume len k d b b0 h e m w = record {
    result = refl;
    left = h;
    resets = e;
    moved = (k, m);
    transferred = w;
  }
  succeeded-Done Next.restart len k d b b0 h e m w = record {
    result = refl;
    left = h;
    resets = e;
    moved = (k, m);
    transferred = w;
  }

broken-Broken :
    (d : Device) (b b' : Bus) → d.active ≡ true → b'.resets ≡ b.resets → IsBroken b (broken d b')
unfolding broken release
broken-Broken d b b' h e = simp h (record {
  result = refl;
  free = record { active = refl; reloaded = refl; locked = refl };
  reset = ap suc e;
})

module _ (peripheral : List Cr2 → Answer) (x : Progresses peripheral) (rd : Bool) (next : Next)
    (len : ℕ) where
  loop_cases :
      (fuel pos k : ℕ) (d : Device) (b b0 : Bus)
      → IsHolding d b
      → b.resets ≡ b0.resets
      → pos ≤ len
      → len < pos + fuel
      → HasMoved peripheral pos b0 b k
      → (0 < pos → d.wx ≡ u16 pos)
      → IsDone peripheral next len b0 (transfer_loop peripheral rd next len fuel pos d b)
        ⊎ IsBroken b0 (transfer_loop peripheral rd next len fuel pos d b)
  unfolding transfer_loop
  loop_cases zero pos k d b b0 h e le enough m w = absurd (omega arith)
  loop_cases (suc fuel) pos k d b b0 h e le enough m w = elim (Bool-cases (ltb pos len)) [
    | inl more ↦ elim (Bool-cases (not a.in_time || a.error)) [
      | inl bad ↦ rw (more, bad) (inr (broken-Broken _ b0 _ h.active e))
      | inr good ↦
          rw (more, good)
            (loop_cases fuel (min len (pos + a.moved)) (suc k) _ _ b0
              (record { active = h.active; locked = h.locked }) e (omega arith)
              (omega (arith, x _ good, ltb→lt pos len more))
              (record { before = m.before; enough = omega (arith, m.enough) }) (λ _. refl))
    ]
    | inr end ↦
        let all : pos ≡ len = ground arith in
        rw end (
          inl (
            succeeded-Done peripheral next len k d b b0 h e
              (record { before = m.before; enough = omega (arith, m.enough, all) })
              (λ h. rw all at (w (rw (sym all) at h)))))
  ]
    where
      a : Answer
      a = peripheral (command rd next (len - pos) d ∷ b.commands)

-- A device is free, or it holds the bus.
abbrev pub IsIdle : Device → Bus → Type 0
IsIdle d b = IsFree d b ⊎ IsHolding d b

acquire-Holding : (d : Device) (b : Bus) → IsIdle d b → IsHolding (acquire d b).0 (acquire d b).1
unfolding acquire
acquire-Holding d b (inl f) = simp f.active (record { active = refl; locked = refl })
acquire-Holding d b (inr h) = simp h.active h

acquire-resets : (d : Device) (b : Bus) → (acquire d b).1.resets ≡ b.resets
unfolding acquire
acquire-resets d b = elim (Bool-cases d.active) [ inl e ↦ simp e refl | inr e ↦ simp e refl ]

acquire-commands : (d : Device) (b : Bus) → (acquire d b).1.commands ≡ b.commands
unfolding acquire
acquire-commands d b = elim (Bool-cases d.active) [ inl e ↦ simp e refl | inr e ↦ simp e refl ]

-- Whatever happens on the bus, as long as each command that ends in time and without an error has
-- moved at least one byte: a read or write of `len` bytes ends, with as many rounds and one more. It
-- returns true, and then the commands that it gave moved `len` bytes or more, and the bus is free after a
-- stop and held after the others; the count that `Transferred` returns is then `len` modulo 65536, if
-- `len` is not 0. Or it returns false, and then the bus is free and was reset once.
pub transfer_cases :
    (peripheral : List Cr2 → Answer)
    → Progresses peripheral
    → (rd : Bool) (next : Next) (len fuel : ℕ) (d : Device) (b : Bus) → IsIdle d b
    → len < fuel
    → IsDone peripheral next len b (transfer peripheral rd next len fuel d b)
      ⊎ IsBroken b (transfer peripheral rd next len fuel d b)
unfolding transfer
transfer_cases peripheral x rd next len fuel d b idle enough =
    loop_cases peripheral x rd next len fuel 0 0 (acquire d b).0 (acquire d b).1 b
      (acquire-Holding d b idle) (acquire-resets d b) (omega arith) (omega arith)
      (record { before = acquire-commands d b; enough = omega arith }) (λ h. absurd (omega arith))
