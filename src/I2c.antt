-- ===== src/I2c.antt =====
-- targets/stm32l/hw/I2C.cpp: transfers between a device on an I2C bus and a buffer.
pub mod Outcome
pub mod Plan
pub mod Frequency
mod Tests
use lib_stm.Base.{
  ℕ, zero, suc, ◌+◌, ◌-◌, ◌%◌, ltb, min, Bool, true, false, not, ◌&&◌, ◌||◌, List, ◌∷◌, Option,
  none, some, if◌then◌else◌, u16,
}

-- `I2C::Next`: what follows a transfer.
pub data Next : Type 0 where
  halt : Next
  resume : Next
  restart : Next

abbrev pub is_stop : Next → Bool
is_stop Next.halt = true
is_stop next = false

abbrev pub is_continue : Next → Bool
is_continue Next.resume = true
is_continue next = false

-- The fields of the register CR2.
pub record Cr2 : Type 0 where
  pub address : ℕ
  pub rd_wrn : Bool
  pub start : Bool
  pub reload : Bool
  pub autoend : Bool
  pub nbytes : ℕ

-- `I2C::Device`
pub record Device : Type 0 where
  pub address : ℕ
  pub active : Bool
  pub reloaded : Bool
  pub wx : ℕ

-- The bus: its bit of `s_locks`, the values written to CR2, the last one first, and how often it was
-- reset.
pub record Bus : Type 0 where
  pub locked : Bool
  pub commands : List Cr2
  pub resets : ℕ

-- How the wait for the end of a command ends: whether before its timeout, whether with an error flag,
-- and the number of bytes that the event interrupts have moved.
pub record Answer : Type 0 where
  pub in_time : Bool
  pub error : Bool
  pub moved : ℕ

-- `Acquire`, when the wait for the lock of the bus is over.
unfoldable pub acquire : Device → Bus → Device × Bus
acquire d b =
    if d.active
    then (d, b)
    else (record d { active = true; reloaded = false }, record b { locked = true })

unfoldable pub release : Device → Bus → Device × Bus
release d b =
    if d.active
    then (record d { active = false; reloaded = false }, record b { locked = false })
    else (d, b)

-- The state of a transfer: `result` is none if the fuel was not enough.
pub record Transfer : Type 0 where
  pub device : Device
  pub bus : Bus
  pub result : Option Bool

-- The ends of `Read` and `Write`.
unfoldable pub succeeded : Next → Device → Bus → Transfer
succeeded next d b =
    let r = if is_stop next then release d b else (d, b) in
    record { device = r.0; bus = r.1; result = some true }

unfoldable pub broken : Device → Bus → Transfer
broken d b =
    let r = release d (record b { resets = suc b.resets }) in
    record { device = r.0; bus = r.1; result = some false }

-- The command for what is left.
unfoldable pub command : Bool → Next → ℕ → Device → Cr2
command rd next left d =
    let oversize = ltb 255 left in
    record {
      address = d.address;
      rd_wrn = rd;
      start = not d.reloaded;
      reload = oversize || is_continue next;
      autoend = not oversize && is_stop next;
      nbytes = if oversize then 255 else left;
    }

-- `peripheral` answers the commands so far. The handlers of the event interrupt move no byte beyond
-- the end of the buffer.
module _ (peripheral : List Cr2 → Answer) where
  -- The loop, with the length of the buffer and the place in it.
  unfoldable pub transfer_loop : Bool → Next → ℕ → ℕ → ℕ → Device → Bus → Transfer
  transfer_loop rd next len zero pos d b = record { device = d; bus = b; result = none }
  transfer_loop rd next len (suc fuel) pos d b =
      let c = command rd next (len - pos) d in
      let b' = record b { commands = c ∷ b.commands } in
      let a = peripheral b'.commands in
      let pos' = min len (pos + a.moved) in
      let d' = record d { reloaded = c.reload; wx = u16 pos' } in
      let rest = transfer_loop rd next len fuel pos' d' b' in
      if ltb pos len
      then (if not a.in_time || a.error then broken d' b' else rest)
      else succeeded next d b

  unfoldable pub transfer : Bool → Next → ℕ → ℕ → Device → Bus → Transfer
  transfer rd next len fuel d b =
      let (d', b') = acquire d b in transfer_loop rd next len fuel 0 d' b'

  -- `Read` and `Write` of `len` bytes.
  unfoldable pub read : Next → ℕ → ℕ → Device → Bus → Transfer
  read next len fuel d b = transfer true next len fuel d b

  unfoldable pub write : Next → ℕ → ℕ → Device → Bus → Transfer
  write next len fuel d b = transfer false next len fuel d b
