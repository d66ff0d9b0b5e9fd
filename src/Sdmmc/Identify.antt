-- ===== src/Sdmmc/Identify.antt =====
-- targets/stm32l/hw/SDMMC.cpp: `IdentifyCard`, the start of a card.
pub mod Ends
use lib_stm.Base.{
  ℕ, zero, suc, ◌+◌, ◌-◌, ◌*◌, ◌/◌, ◌==◌, Bool, true, false, not, List, ◌∷◌, bit_and, bit_or,
  if◌then◌else◌, u32,
}
use lib_stm.Sdmmc.{
  Log, Op, Host, Registers, command, command_success, resp_short, resp_long, resp_no_cmd,
  resp_no_crc,
}

-- `CardInfo`: CID and CSD as the four words of their responses.
pub record Response : Type 0 where
  pub resp1 : ℕ
  pub resp2 : ℕ
  pub resp3 : ℕ
  pub resp4 : ℕ

pub record CardInfo : Type 0 where
  pub cid : Response
  pub csd : Response
  pub rca : ℕ
  pub block_addressing : Bool

pub record Session : Type 0 where
  pub log : Log
  pub info : CardInfo

-- A step gives a value, or the procedure returns false, or the fuel was not enough.
pub data Progress (A : Type 0) : Type 0 where
  ok : A → Progress A
  refused : Progress A
  out_of_fuel : Progress A

abbrev pub Step : Type 0 → Type 0
Step A = Session → Session × Progress A

infixl 5 ◌>>=◌ ◌>>◌
abbrev pub ◌>>=◌ : {A B : Type 0} → Step A → (A → Step B) → Step B
◌>>=◌ m f s = elim (m s).1 [
  | Progress.ok a ↦ f a (m s).0
  | Progress.refused ↦ ((m s).0, Progress.refused)
  | Progress.out_of_fuel ↦ ((m s).0, Progress.out_of_fuel)
]

abbrev pub ◌>>◌ : {B : Type 0} → Step (Unit {0}) → Step B → Step B
m >> k = m >>= λ _. k

abbrev pub give : {A : Type 0} → A → Step A
give a s = (s, Progress.ok a)

-- A change of the log or of what is known of the card.
abbrev pub change : (Session → Session) → Step (Unit {0})
change f s = (f s, Progress.ok tt)

abbrev pub look : Step Session
look s = (s, Progress.ok s)

abbrev pub require : Bool → Step (Unit {0})
require b s = (s, (if b then Progress.ok tt else Progress.refused))

abbrev pub did : Op → Step (Unit {0})
did op = change (λ s. record s { log = op ∷ s.log })

-- `ACmdSendOpCond`
abbrev pub send_op_cond : ℕ
send_op_cond = 4294967295 - (41 + resp_short + resp_no_cmd + resp_no_crc)

-- `SD_OpCondInitDone`, `SD_OpCondHS`, `SD_OpCondVoltages`
abbrev pub op_cond_init_done : ℕ
op_cond_init_done = 2147483648

abbrev pub op_cond_hs : ℕ
op_cond_hs = 1073741824

abbrev pub op_cond_voltages : ℕ
op_cond_voltages = 16744448

module _ (host : Host) where
  unfoldable pub issue : ℕ → ℕ → Step ℕ
  issue cmd arg s =
      let (log, res) = command host cmd arg s.log in (record s { log = log }, Progress.ok res)

  -- A command that has to succeed.
  unfoldable pub demand : ℕ → ℕ → Step (Unit {0})
  demand cmd arg = do res ← issue cmd arg; require (command_success res)

  unfoldable pub registers : Step Registers
  registers s = (s, Progress.ok (host s.log))

  unfoldable pub response : Step Response
  response = do
    r ← registers
    give (record { resp1 = r.resp1; resp2 = r.resp2; resp3 = r.resp3; resp4 = r.resp4 })

  -- What follows a poll for the end of the card's start: the card is ready, and it is known whether it
  -- addresses blocks; or the time is over; or else `rest`. `elapsed` is the timer, asked with the log
  -- at its start and the present one.
  unfoldable pub polled : (Log → Log → Bool) → Log → Step Bool → Step Bool
  polled elapsed start rest = do
    r ← registers
    now ← look
    (if not (bit_and r.resp1 op_cond_init_done == 0)
        then give (not (bit_and r.resp1 op_cond_hs == 0))
        else if elapsed start now.log
        then (require false >> give false)
        else rest)

  -- The loop.
  unfoldable pub wait_init : (Log → Log → Bool) → Log → ℕ → ℕ → Step Bool
  wait_init elapsed start init zero s = (s, Progress.out_of_fuel)
  wait_init elapsed start init (suc fuel) s =
      let rest = wait_init elapsed start init fuel in
      (do did Op.yield; demand send_op_cond init; polled elapsed start rest) s

  -- `Command_SendIfCond`, and back to idle for a card of the first version: whether it is newer.
  unfoldable pub ask_version : Step Bool
  ask_version = do
    res ← issue (8 + resp_short) (170 + 256)
    if command_success res then give true else (demand 0 0 >> give false)

  -- The part in front of the polls: the conditions to start the card with.
  unfoldable pub start_card : Step ℕ
  start_card = do
    demand 0 0
    v2 ← ask_version
    demand send_op_cond (if v2 then op_cond_hs else 0)
    r ← registers
    let init = bit_or (if v2 then op_cond_hs else 0) (bit_and r.resp1 op_cond_voltages)
    demand send_op_cond init
    give init

  -- The part behind the polls.
  unfoldable pub read_card : Bool → Step (Unit {0})
  read_card block_addressing = do
    change (λ s. record s { info = record s.info { block_addressing = block_addressing } })
    demand (2 + resp_long) 0
    cid ← response
    change (λ s. record s { info = record s.info { cid = cid } })
    demand (3 + resp_short) 0
    r ← registers
    change (λ s. record s { info = record s.info { rca = r.resp1 / 65536 } })
    did (Op.clock 1)
    demand (9 + resp_long) (u32 (r.resp1 / 65536 * 65536))
    csd ← response
    change (λ s. record s { info = record s.info { csd = csd } })

  -- The polls, with the timer started in front of them.
  unfoldable pub wait_card : (Log → Log → Bool) → ℕ → ℕ → Step Bool
  wait_card elapsed fuel init = do start ← look; wait_init elapsed start.log init fuel

  unfoldable pub identify_card : (Log → Log → Bool) → ℕ → Step (Unit {0})
  identify_card elapsed fuel = do
    init ← start_card
    block_addressing ← wait_card elapsed fuel init
    read_card block_addressing
