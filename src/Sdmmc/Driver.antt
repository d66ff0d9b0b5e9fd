-- ===== src/Sdmmc/Driver.antt =====
-- targets/stm32l/fatfs/SDMMCDriver.cpp: sectors of the card are read and written.
pub mod Sector
pub mod Start
pub mod Read
pub mod Write
use lib_stm.Base.{
  not, Option, some, none, ℕ, zero, suc, Bool, ◌+◌, ◌*◌, ◌∷◌, if◌then◌else◌, u32, bit_or, bit_and,
  ◌==◌,
}
use lib_stm.Sdmmc.{
  command_holds, Log, Op, Host, command, command_success, data_success, abort_dma_transfer,
  complete_dma_transfer, dma_ready, wait_not_busy, resp_short,
}
use lib_stm.Sdmmc.Identify.{CardInfo, Session, Progress, identify_card}

-- `STA_NOINIT`, `STA_NODISK` of the status of a disk.
abbrev pub sta_noinit : ℕ
sta_noinit = 1

abbrev pub sta_nodisk : ℕ
sta_nodisk = 2

-- `RES_OK`, `RES_ERROR`, that an assertion failed, and that the fuel was not enough.
pub data DResult : Type 0 where
  res_ok : DResult
  res_error : DResult
  res_assert : DResult
  res_stuck : DResult

-- `SDMMCDriver`, and the operations on the peripheral so far.
pub record Driver : Type 0 where
  pub status : ℕ
  pub addr_mul : ℕ
  pub info : CardInfo
  pub log : Log

-- The way out of every error.
unfoldable pub failed : Driver → Log → Driver × DResult
failed d log = (record d { status = bit_or sta_nodisk sta_noinit; log = log }, DResult.res_error)

unfoldable pub asserted : Driver → Log → Driver × DResult
asserted d log = (record d { log = log }, DResult.res_assert)

-- The end of a round, with the result of `CompleteDmaTransfer`.
unfoldable pub judged : Driver → Log → Option (Log × ℕ) → Driver × DResult
judged d log none = asserted d log
judged d log (some (completed, dr)) =
    if data_success dr then (record d { log = completed }, DResult.res_ok) else failed d completed

module _ (host : Host) (max_ss : ℕ) where
  unfoldable pub test : Driver → Driver × DResult
  test d =
      let (waited, in_time) = wait_not_busy host d.log in
      let (asked, cr) = command host (13 + resp_short) (u32 (d.info.rca * 65536)) waited in
      if in_time
      then (if command_success cr
          then (record d { log = asked }, DResult.res_ok)
          else failed d asked)
      else failed d waited

  -- `Init` behind the call of `IdentifyCard`, with what that leaves and how it ended.
  unfoldable pub select_card : Driver → Session → Progress (Unit {0}) → Driver × DResult
  select_card d s found =
      let (selected, cr) = command host (7 + resp_short) (u32 (s.info.rca * 65536)) s.log in
      let known = record d {
        info = s.info;
        addr_mul = if s.info.block_addressing then 1 else max_ss;
      } in
      elim found [
        | Progress.ok x ↦
            if command_success cr
            then (record known { status = 0; log = selected }, DResult.res_ok)
            else failed known selected
        | Progress.refused ↦ failed (record d { info = s.info }) s.log
        | Progress.out_of_fuel ↦ (record d { info = s.info; log = s.log }, DResult.res_stuck)
      ]

  -- `Init`: `fuel` bounds the polls for the end of the card's start, which a timer ends.
  unfoldable pub init : (Log → Log → Bool) → ℕ → Driver → Driver × DResult
  init elapsed fuel d =
      let d' =
        if bit_and d.status sta_noinit == 0
        then d
        else record d { status = sta_nodisk; log = Op.initialize ∷ d.log } in
      let (s, found) = identify_card host elapsed fuel (record { log = d'.log; info = d'.info }) in
      if bit_and d'.status sta_nodisk == 0 then (d', DResult.res_ok) else select_card d' s found

  -- One round of the loop of `Read`, with the sector and the place in the buffer.
  unfoldable pub read_sector : ℕ → ℕ → Driver → Driver × DResult
  read_sector sec buf d =
      let (waited, free) = wait_not_busy host d.log in
      let set_up = Op.receive buf max_ss ∷ waited in
      let (asked, cr) = command host (17 + resp_short) (u32 (sec * d.addr_mul)) set_up in
      let (moved, in_time) = wait_not_busy host asked in
      if free
      then (if dma_ready host max_ss waited
          then (if command_holds host (17 + resp_short) (u32 (sec * d.addr_mul)) set_up
              then (if command_success cr
                  then (if in_time
                      then judged d (Op.complete ∷ moved) (complete_dma_transfer host moved)
                      else failed d (abort_dma_transfer host moved).0)
                  else failed d (abort_dma_transfer host asked).0)
              else asserted d set_up)
          else asserted d waited)
      else failed d waited

  -- The rounds of `Read` that are left.
  unfoldable pub read : ℕ → ℕ → ℕ → Driver → Driver × DResult
  read buf sec zero d = (d, DResult.res_ok)
  read buf sec (suc count) d =
      let (d', res) = read_sector sec buf d in
      let rest = read (u32 (buf + max_ss)) (suc sec) count d' in
      elim res [ DResult.res_ok ↦ rest | other ↦ (d', other) ]

  unfoldable pub write_sector : ℕ → ℕ → Driver → Driver × DResult
  write_sector sec buf d =
      let (waited, free) = wait_not_busy host d.log in
      let (asked, cr) = command host (24 + resp_short) (u32 (sec * d.addr_mul)) waited in
      let (moved, in_time) = wait_not_busy host (Op.transmit buf max_ss ∷ asked) in
      if free
      then (if not (host waited).dma_enabled
          then (if command_holds host (24 + resp_short) (u32 (sec * d.addr_mul)) waited
              then (if command_success cr
                  then (if dma_ready host max_ss asked
                      then (if in_time
                          then judged d (Op.complete ∷ moved) (complete_dma_transfer host moved)
                          else failed d (abort_dma_transfer host moved).0)
                      else asserted d asked)
                  else failed d asked)
              else asserted d waited)
          else asserted d waited)
      else failed d waited

  unfoldable pub write : ℕ → ℕ → ℕ → Driver → Driver × DResult
  write buf sec zero d = (d, DResult.res_ok)
  write buf sec (suc count) d =
      let (d', res) = write_sector sec buf d in
      let rest = write (u32 (buf + max_ss)) (suc sec) count d' in
      elim res [ DResult.res_ok ↦ rest | other ↦ (d', other) ]
