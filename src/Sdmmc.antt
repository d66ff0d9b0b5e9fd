-- ===== src/Sdmmc.antt =====
-- targets/stm32l/hw/SDMMC.cpp, SDMMC.h: commands and data transfers of the SD card interface.
pub mod Identify
pub mod Csd
pub mod Driver
mod Tests
use lib_stm.Base.{
  ℕ, ◌+◌, ◌-◌, ◌*◌, ◌/◌, ◌%◌, ◌==◌, leb, Bool, true, false, not, ◌&&◌, List, [], ◌∷◌, bit_and,
  bit_or, bit_xor, not32, if◌then◌else◌, Option, some, none,
}

-- What the program does to the peripheral and its DMA channel: a command with its argument, flags of
-- the status that are cleared, the start of a transfer to or from memory, its forced end, the end of
-- the use of the DMA channel, the waits, for the data to be through and for the next round, the power
-- cycle of `Initialize`, and the divisor of the clock.
pub data Op : Type 0 where
  send : ℕ → ℕ → Op
  clear : ℕ → Op
  receive : ℕ → ℕ → Op
  transmit : ℕ → ℕ → Op
  stop : Op
  complete : Op
  wait : Op
  yield : Op
  initialize : Op
  clock : ℕ → Op

-- The registers, with the bit EN and the register CNDTR of the DMA channel, and whether the wait that was
-- begun last ended in time.
pub record Registers : Type 0 where
  pub sta : ℕ
  pub respcmd : ℕ
  pub resp1 : ℕ
  pub resp2 : ℕ
  pub resp3 : ℕ
  pub resp4 : ℕ
  pub dma_enabled : Bool
  pub cndtr : ℕ
  pub in_time : Bool

-- The operations so far, the last one first; the peripheral with its card answers all of them.
abbrev pub Log : Type 0
Log = List Op

abbrev pub Host : Type 0
Host = Log → Registers

-- The flags of the status register.
abbrev pub sta_ccrcfail : ℕ
sta_ccrcfail = 1

abbrev pub sta_cmdrend : ℕ
sta_cmdrend = 64

abbrev pub sta_cmdsent : ℕ
sta_cmdsent = 128

abbrev pub sta_dbckend : ℕ
sta_dbckend = 1024

-- `SDMMC_STA_CMASK`, `SDMMC_STA_DMASK`
abbrev pub sta_cmask : ℕ
sta_cmask = 197

abbrev pub sta_dmask : ℕ
sta_dmask = 1290

-- `SDMMC_STA_TXACT | SDMMC_STA_RXACT`
abbrev pub sta_active : ℕ
sta_active = 12288

-- The bits of a command: the kinds of response, what is asked of it, and the state machine's enable.
abbrev pub resp_short : ℕ
resp_short = 64

abbrev pub resp_long : ℕ
resp_long = 192

abbrev pub resp_no_cmd : ℕ
resp_no_cmd = 4096

abbrev pub resp_no_crc : ℕ
resp_no_crc = 8192

abbrev pub cpsmen : ℕ
cpsmen = 1024

-- `CommandResult::Success`, `DataResult::Success`
unfoldable pub command_success : ℕ → Bool
command_success res = not (bit_and res (sta_cmdsent + sta_cmdrend) == 0)

unfoldable pub data_success : ℕ → Bool
data_success res = not (bit_and res sta_dbckend == 0)

module _ (host : Host) where
  -- The assertions of `Command`, around the command that is sent: no flag of a command is set before, and
  -- one is set after the wait. `Read` and `Write` of the disk driver stop where they fail; the identification
  -- of a card and the other calls go on.
  unfoldable pub command_holds : ℕ → ℕ → Log → Bool
  command_holds cmd arg log =
      bit_and (host log).sta sta_cmask == 0
      && not
          (bit_and (host (Op.send (bit_and (bit_or cmd cpsmen) 4095) arg ∷ log)).sta sta_cmask == 0)

  -- `Command` behind its first branch. The wait for the state machine is part of `send`.
  unfoldable pub command_once : ℕ → ℕ → Log → Log × ℕ
  command_once cmd arg log =
      let sent = Op.send (bit_and (bit_or cmd cpsmen) 4095) arg ∷ log in
      let cleared = Op.clear sta_cmask ∷ sent in
      let state = (host sent).sta in
      let expect_resp =
        if (bit_and cmd 192 == resp_short) && (bit_and cmd resp_no_cmd == 0)
        then bit_and cmd 63
        else 63 in
      (
        cleared,
        (if not ((host cleared).respcmd == expect_resp)
            then bit_or state sta_ccrcfail
            else if not (bit_and cmd resp_no_crc == 0) && not (bit_and state sta_ccrcfail == 0)
            then bit_xor state (sta_ccrcfail + sta_cmdrend)
            else state),
      )

  -- `Command`: a negative number is the complement of an application command.
  unfoldable pub command : ℕ → ℕ → Log → Log × ℕ
  command cmd arg log =
      if leb 2147483648 cmd
      then (let (log', res) = command_once (55 + resp_short) (not32 cmd / 65536) log in
          if command_success res then command_once (not32 cmd) arg log' else (log', res))
      else command_once cmd arg log

  -- `AbortDmaTransfer`, `CompleteDmaTransfer`: the status before its data flags are cleared.
  unfoldable pub abort_dma_transfer : Log → Log × ℕ
  abort_dma_transfer log =
      let stopped = Op.complete ∷ Op.stop ∷ log in
      (Op.clear sta_dmask ∷ stopped, (host stopped).sta)

  -- The assertions of `ConfigureDmaRead` and `ConfigureDmaWrite`, before they do anything.
  unfoldable pub dma_ready : ℕ → Log → Bool
  dma_ready size log =
      not (host log).dma_enabled
      && bit_and size 3 == 0
      && bit_and (host log).sta (sta_dmask + sta_active) == 0

  -- The assertions of `CompleteDmaTransfer`, when the channel is disabled.
  unfoldable pub dma_complete : Log → Bool
  dma_complete log =
      (host log).cndtr == 0
      && bit_and (host log).sta sta_active == 0
      && not (bit_and (host log).sta sta_dmask == 0)

  -- none if an assertion fails.
  unfoldable pub complete_dma_transfer : Log → Option (Log × ℕ)
  complete_dma_transfer log =
      let completed = Op.complete ∷ log in
      if dma_complete completed
      then some (Op.clear sta_dmask ∷ completed, (host completed).sta)
      else none

  -- `WaitNotBusy`
  unfoldable pub wait_not_busy : Log → Log × Bool
  wait_not_busy log = let waited = Op.wait ∷ log in (waited, (host waited).in_time)
