-- ===== src/Sdmmc/Driver/Sector.antt =====
-- targets/stm32l/fatfs/SDMMCDriver.cpp: the ways in which a round of `Read` or `Write` ends.
use lib_stm.Base.{
  bit_and, not, ◌==◌, ==_iff, ◌&&◌, ℕ, ◌*◌, ◌≡◌, ◌⊎◌, refl, Bool, Bool-cases, inl, inr, true, false,
  ◌∷◌, if◌then◌else◌, u32,
}
use lib_stm.Sdmmc.{
  command_holds, sta_active, sta_dmask, Log, Op, Host, command, command_once, data_success,
  wait_not_busy, complete_dma_transfer, dma_ready, dma_complete,
}
use lib_stm.Sdmmc.Driver.{Driver, DResult, failed, asserted, judged, read_sector, write_sector}

-- The operations of a round up to the end of the transfer: the DMA is set up before the command to
-- read, and after the command to write.
abbrev pub reading : ℕ → ℕ → ℕ → Log → Log
reading max_ss a buf log =
    Op.complete ∷ Op.wait ∷ Op.clear 197 ∷ Op.send 1105 a ∷ Op.receive buf max_ss ∷ Op.wait ∷ log

abbrev pub writing : ℕ → ℕ → ℕ → Log → Log
writing max_ss a buf log =
    Op.complete ∷ Op.wait ∷ Op.transmit buf max_ss ∷ Op.clear 197 ∷ Op.send 1112 a ∷ Op.wait ∷ log

-- A round that succeeds has done the operations, and the transfer was reported as successful.
pub record IsMoved (host : Host) (ops : Log) (d : Driver) (r : Driver × DResult) : Type 0 where
  pub result : r ≡ (record d { log = Op.clear 1290 ∷ ops }, DResult.res_ok)
  pub success : data_success (host ops).sta ≡ true
  pub complete : dma_complete host ops ≡ true

-- A round that fails reports it, and the card has to be identified anew.
pub record IsFailed (r : Driver × DResult) : Type 0 where
  pub result : r.1 ≡ DResult.res_error
  pub status : r.0.status ≡ 3

-- A round in which an assertion fails, on the state of the peripheral before a transfer is set up, around
-- its command, or after the transfer of `size` bytes; the status is unchanged.
pub record IsHalted (host : Host) (size status : ℕ) (r : Driver × DResult) : Type 0 where
  pub result : r.1 ≡ DResult.res_assert
  pub same_status : r.0.status ≡ status
  pub cause :
      (dma_ready host size r.0.log ≡ false)
      ⊎ (dma_complete host r.0.log ≡ false)
      ⊎ ((cmd : ℕ) × (arg : ℕ) × (command_holds host cmd arg r.0.log ≡ false))

pub failed-IsFailed : (d : Driver) (log : Log) → IsFailed (failed d log)
unfolding failed
failed-IsFailed d log = record { result = refl; status = refl }

-- The ways in which a round goes wrong.
abbrev pub IsWrong : Host → ℕ → ℕ → Driver × DResult → Type 0
IsWrong host size status r = IsFailed r ⊎ IsHalted host size status r

failed-IsWrong :
    (host : Host) (size : ℕ) (d : Driver) (log : Log) → IsWrong host size d.status (failed d log)
failed-IsWrong host size d log = inl (failed-IsFailed d log)

ready-IsWrong :
    (host : Host) (size : ℕ) (d : Driver) (log : Log)
    → dma_ready host size log ≡ false
    → IsWrong host size d.status (asserted d log)
unfolding asserted
ready-IsWrong host size d log h = inr (record { result = refl; same_status = refl; cause = inl h })

holds-IsWrong :
    (host : Host) (size : ℕ) (d : Driver) (log : Log) (cmd arg : ℕ)
    → command_holds host cmd arg log ≡ false
    → IsWrong host size d.status (asserted d log)
unfolding asserted
holds-IsWrong host size d log cmd arg h =
    inr (record { result = refl; same_status = refl; cause = inr (inr (cmd, arg, h)) })

enabled-IsWrong :
    (host : Host) (size : ℕ) (d : Driver) (log : Log)
    → not (host log).dma_enabled ≡ false
    → IsWrong host size d.status (asserted d log)
unfolding dma_ready
enabled-IsWrong host size d log h = ready-IsWrong host size d log (rw h refl)

-- One check: the round goes on, or has gone wrong.
check :
    (host : Host) (size : ℕ) (ops : Log) (d : Driver) (b : Bool) {x y : Driver × DResult}
    → (b ≡ true → IsMoved host ops d x ⊎ IsWrong host size d.status x)
    → (b ≡ false → IsWrong host size d.status y)
    → IsMoved host ops d (if b then x else y) ⊎ IsWrong host size d.status (if b then x else y)
check host size ops d true h k = h refl
check host size ops d false h k = inr (k refl)

judged-cases :
    (host : Host) (size : ℕ) (log : Log) (d : Driver)
    → let r = judged d (Op.complete ∷ log) (complete_dma_transfer host log) in
      IsMoved host (Op.complete ∷ log) d r ⊎ IsWrong host size d.status r
unfolding judged complete_dma_transfer asserted
judged-cases host size log d = elim (Bool-cases (dma_complete host (Op.complete ∷ log))) [
  | inl whole ↦ elim (Bool-cases (data_success (host (Op.complete ∷ log)).sta)) [
    | inl yes_data ↦
        rw (whole, yes_data) (inl (record { result = refl; success = yes_data; complete = whole }))
    | inr no_data ↦ rw (whole, no_data) (inr (failed-IsWrong host size d _))
  ]
  | inr broken ↦
      rw broken (inr (inr (record { result = refl; same_status = refl; cause = inr (inl broken) })))
]

-- After a transfer that is complete the channel has nothing left to move.
pub dma_complete-cndtr :
    (host : Host) (log : Log) → dma_complete host log ≡ true → (host log).cndtr ≡ 0
unfolding dma_complete
dma_complete-cndtr host log h = (==_iff (host log).cndtr 0).0 (
    first ((host log).cndtr == 0) (bit_and (host log).sta sta_active == 0)
      (not (bit_and (host log).sta sta_dmask == 0)) h)
  where
    first : (a b c : Bool) → (a && b && c) ≡ true → a ≡ true
    first true b c e = refl
    first false b c e = e

-- A loop that stops with its first round that goes wrong.
pub stop-IsWrong :
    (host : Host) (size status : ℕ) (rest r : Driver × DResult)
    → IsWrong host size status r
    → IsWrong host size status (elim r.1 [ DResult.res_ok ↦ rest | other ↦ (r.0, other) ])
stop-IsWrong host size status rest r (inl f) =
    inl (rw f.result (record { result = refl; status = f.status }))
stop-IsWrong host size status rest r (inr h) =
    inr (rw h.result (record { result = refl; same_status = h.same_status; cause = h.cause }))

pub read_sector_cases :
    (host : Host) (max_ss sec buf : ℕ) (d : Driver)
    → IsMoved host
        (reading max_ss (u32 (sec * d.addr_mul)) buf d.log)
        d
        (read_sector host max_ss sec buf d)
      ⊎ IsWrong host max_ss d.status (read_sector host max_ss sec buf d)
unfolding read_sector command command_once wait_not_busy
read_sector_cases host max_ss sec buf d =
    search (check, failed-IsWrong, ready-IsWrong, holds-IsWrong, judged-cases) depth 9

pub write_sector_cases :
    (host : Host) (max_ss sec buf : ℕ) (d : Driver)
    → IsMoved host
        (writing max_ss (u32 (sec * d.addr_mul)) buf d.log)
        d
        (write_sector host max_ss sec buf d)
      ⊎ IsWrong host max_ss d.status (write_sector host max_ss sec buf d)
unfolding write_sector command command_once wait_not_busy
write_sector_cases host max_ss sec buf d =
    search (check, failed-IsWrong, ready-IsWrong, enabled-IsWrong, holds-IsWrong, judged-cases)
      depth 10
