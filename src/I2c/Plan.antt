-- ===== src/I2c/Plan.antt =====
-- targets/stm32l/hw/I2C.cpp: the commands of a transfer.
use lib_stm.Base.{
  ℕ, zero, suc, ◌+◌, ◌-◌, ◌*◌, ◌/◌, ◌≤◌, ◌<◌, ltb, min, Bool, true, false, not, ◌&&◌, ◌≡◌, refl,
  Bool-cases, inl, inr, List, [], ◌∷◌, u16, arith,
}
use lib_stm.I2c.{
  Next, is_stop, is_continue, Cr2, Device, Bus, Answer, acquire, release, succeeded, command,
  transfer_loop, transfer,
}

-- A peripheral and a device without faults: every command ends in time and moves its bytes.
pub record Completes (peripheral : List Cr2 → Answer) : Type 0 where
  pub in_time : (c : Cr2) (cs : List Cr2) → (peripheral (c ∷ cs)).in_time ≡ true
  pub no_error : (c : Cr2) (cs : List Cr2) → (peripheral (c ∷ cs)).error ≡ false
  pub all_moved : (c : Cr2) (cs : List Cr2) → (peripheral (c ∷ cs)).moved ≡ c.nbytes

-- The commands of a transfer of `full` times 255 bytes and `last` more: all but the last one are to be
-- followed by another, and only the first one starts, if it does.
abbrev pub plan : Bool → ℕ → Next → Bool → ℕ → ℕ → List Cr2
plan rd address next start zero last =
    record {
      address = address;
      rd_wrn = rd;
      start = start;
      reload = is_continue next;
      autoend = is_stop next;
      nbytes = last;
    }
    ∷ []
plan rd address next start (suc full) last =
    record {
      address = address;
      rd_wrn = rd;
      start = start;
      reload = true;
      autoend = false;
      nbytes = 255;
    }
    ∷ plan rd address next false full last

-- The values of a list are written one after the other.
abbrev pub written : List Cr2 → List Cr2 → List Cr2
written [] old = old
written (c ∷ cs) old = written cs (c ∷ old)

command-last :
    (rd : Bool) (next : Next) (left : ℕ) (d : Device)
    → left ≤ 255
    → command rd next left d ≡ record {
      address = d.address;
      rd_wrn = rd;
      start = not d.reloaded;
      reload = is_continue next;
      autoend = is_stop next;
      nbytes = left;
    }
unfolding command
command-last rd next left d h = let t : ltb 255 left ≡ false = ground arith in rw t refl

command-full :
    (rd : Bool) (next : Next) (left : ℕ) (d : Device)
    → 255 < left
    → command rd next left d ≡ record {
      address = d.address;
      rd_wrn = rd;
      start = not d.reloaded;
      reload = true;
      autoend = false;
      nbytes = 255;
    }
unfolding command
command-full rd next left d h = let t : ltb 255 left ≡ true = ground arith in rw t refl

succeeded-commands :
    (next : Next) (d : Device) (b : Bus) → (succeeded next d b).bus.commands ≡ b.commands
unfolding succeeded release
succeeded-commands Next.halt d b = elim (Bool-cases d.active) [
  | inl e ↦ simp e refl
  | inr e ↦ simp e refl
]
succeeded-commands Next.resume d b = refl
succeeded-commands Next.restart d b = refl

module _ (peripheral : List Cr2 → Answer) (x : Completes peripheral) (rd : Bool) (next : Next)
    (len : ℕ) where
  -- One round with a command that is known.
  loop-round :
      (fuel pos : ℕ) (d : Device) (b : Bus) (c : Cr2)
      → pos < len
      → command rd next (len - pos) d ≡ c
      → transfer_loop peripheral rd next len (suc fuel) pos d b
        ≡ transfer_loop peripheral rd next len fuel
            (min len (pos + c.nbytes))
            (record d { reloaded = c.reload; wx = u16 (min len (pos + c.nbytes)) })
            (record b { commands = c ∷ b.commands })
  unfolding transfer_loop
  loop-round fuel pos d b c h e =
      let t : ltb pos len ≡ true = ground arith in
      rw (t, e, x.in_time c b.commands, x.no_error c b.commands, x.all_moved c b.commands) refl

  loop-end :
      (fuel : ℕ) (d : Device) (b : Bus)
      → transfer_loop peripheral rd next len (suc fuel) len d b ≡ succeeded next d b
  unfolding transfer_loop
  loop-end fuel d b = let t : ltb len len ≡ false = ground arith in rw t refl

  loop-plan :
      (full last fuel pos : ℕ) (d : Device) (b : Bus)
      → 0 < last
      → last ≤ 255
      → len ≡ pos + (full * 255 + last)
      → full + 1 < fuel
      → (transfer_loop peripheral rd next len fuel pos d b).bus.commands
        ≡ written (plan rd d.address next (not d.reloaded) full last) b.commands
  loop-plan full last zero pos d b h small at enough = absurd (omega arith)
  loop-plan full last (suc zero) pos d b h small at enough = absurd (omega arith)
  loop-plan zero last (suc (suc fuel)) pos d b h small at enough =
      let left : len - pos ≡ last = omega (arith, at) in
      let end : min len (pos + last) ≡ len = omega (arith, at) in
      rw
        (
          loop-round (suc fuel) pos d b _ (omega (arith, at))
              (command-last rd next (len - pos) d (omega (arith, at))),
          left,
          end,
          loop-end fuel _ _,
        )
        (succeeded-commands next _ _)
  loop-plan (suc full) last (suc (suc fuel)) pos d b h small at enough =
      let next_pos : min len (pos + 255) ≡ pos + 255 = omega (arith, at) in
      rw
        (
          loop-round (suc fuel) pos d b _ (omega (arith, at))
              (command-full rd next (len - pos) d (omega (arith, at))),
          next_pos,
        )
        (loop-plan full last (suc fuel) (pos + 255) _ _ h small (omega (arith, at)) (omega arith))

-- On a bus without faults, the commands of a read or write of `len` bytes are: one for each 255 bytes
-- but the last part, with RELOAD, and one for the last part of 1 to 255 bytes, with AUTOEND if a stop
-- follows and RELOAD if the transfer is to continue; the first one and no other has START, unless it
-- continues a transfer; and no other command is given.
pub transfer-plan :
    (peripheral : List Cr2 → Answer)
    → Completes peripheral
    → (rd : Bool) (next : Next) (len fuel : ℕ) (d : Device) (b : Bus) → 0 < len
    → (len - 1) / 255 + 1 < fuel
    → (transfer peripheral rd next len fuel d b).bus.commands
      ≡ written
          (plan rd d.address next
            (not (d.active && d.reloaded))
            ((len - 1) / 255)
            (len - (len - 1) / 255 * 255))
          b.commands
unfolding transfer acquire
transfer-plan peripheral x rd next len fuel d b some_bytes enough = elim (Bool-cases d.active) [
  | inl e ↦ simp e (
      loop-plan peripheral x rd next len ((len - 1) / 255) (len - (len - 1) / 255 * 255) fuel 0 d b
        (omega arith) (omega arith) (omega arith) enough)
  | inr e ↦ simp e (
      loop-plan peripheral x rd next len ((len - 1) / 255) (len - (len - 1) / 255 * 255) fuel 0
        (record d { active = true; reloaded = false }) (record b { locked = true }) (omega arith)
        (omega arith) (omega arith) enough)
]
