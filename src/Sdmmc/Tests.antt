-- ===== src/Sdmmc/Tests.antt =====
-- targets/stm32l/fatfs/SDMMCDriver.cpp, hw/SDMMC.h: a card that answers, and one that does not.
use lib_stm.Base.{
  ℕ, ◌+◌, ◌-◌, ◌*◌, ◌/◌, ◌%◌, ◌^◌, ◌==◌, ◌≡◌, ◌⊎◌, refl, Bool, true, false, not, leb, [], ◌∷◌, u32,
  if◌then◌else◌, arith,
}
use lib_stm.Sdmmc.{
  Op, Log, Host, wait_not_busy, command, command_once, command_success, complete_dma_transfer,
  data_success, command_holds, dma_ready, dma_complete,
}
use lib_stm.Sdmmc.Identify.{
  Response, identify_card, start_card, ask_version, wait_card, wait_init, polled, read_card, demand,
  issue, registers, response,
}
use lib_stm.Sdmmc.Identify.Ends.{yields, Expires}
use lib_stm.Sdmmc.Csd.{block_size, block_count, capacity_mb, is_v2}
use lib_stm.Sdmmc.Csd.Fields.{TurnsBytes, AreWords, register_bits, csd-fields}
use lib_stm.Sdmmc.Driver.{
  Driver, DResult, read, read_sector, write, write_sector, init, select_card, judged,
}
use lib_stm.Sdmmc.Driver.Sector.{IsFailed, IsWrong}
use lib_stm.Sdmmc.Driver.Start.{IsReady, init_cases}
use lib_stm.Sdmmc.Driver.Read.{DeliversBlocks, IsFilled, inside, read-Filled}
use lib_stm.Sdmmc.Driver.Write.{StoresBlocks, IsStored, write-Stored}

-- Every command and every transfer succeeds.
abbrev flags_after : Log → ℕ
flags_after (Op.complete ∷ l) = 1024
flags_after (Op.send c a ∷ l) = 64
flags_after l = 0

abbrev good : Host
good log = record {
  sta = flags_after log;
  dma_enabled = false;
  cndtr = 0;
  respcmd = 17;
  resp1 = 3238002688;
  resp2 = 0;
  resp3 = 0;
  resp4 = 0;
  in_time = true;
}

abbrev no_response : Response
no_response = record { resp1 = 0; resp2 = 0; resp3 = 0; resp4 = 0 }

abbrev ready : Driver
ready = record {
  status = 0;
  addr_mul = 1;
  info = record { cid = no_response; csd = no_response; rca = 7; block_addressing = true };
  log = [];
}

-- The byte at place `k` of the block `a`.
abbrev contents : ℕ → ℕ → ℕ
contents a k = a * 10 + k

abbrev memory_after : Log → ℕ → ℕ
memory_after
      (Op.clear m
        ∷ Op.complete
        ∷ Op.wait
        ∷ Op.clear n
        ∷ Op.send c a
        ∷ Op.receive buf size
        ∷ Op.wait
        ∷ l)
      p =
    if inside buf size p then contents a (p - buf) else memory_after l p
memory_after l p = 0

memory_after-DeliversBlocks : DeliversBlocks good 4 memory_after contents
memory_after-DeliversBlocks = record { delivered = λ log a buf p drained h. refl }

read-Filled_example :
    (((read good 4 1000 5 3 ready).1 ≡ DResult.res_ok)
      × ((read good 4 1000 5 3 ready).0.status ≡ ready.status)
      × IsFilled 4 memory_after contents ready.addr_mul 1000 5 3 ready.log
          (read good 4 1000 5 3 ready).0.log)
    ⊎ IsWrong good 4 ready.status (read good 4 1000 5 3 ready)
read-Filled_example =
    read-Filled good 4 memory_after contents memory_after-DeliversBlocks 1000 5 3 ready
      (omega arith)

abbrev block_after : Log → ℕ → ℕ → ℕ
block_after
      (Op.clear m
        ∷ Op.complete
        ∷ Op.wait
        ∷ Op.transmit buf size
        ∷ Op.clear n
        ∷ Op.send c a
        ∷ Op.wait
        ∷ l)
      b k =
    if b == a then buf + k else block_after l b k
block_after l b k = 0

block_after-StoresBlocks : StoresBlocks good 4 (λ p. p) block_after
block_after-StoresBlocks = record { stored = λ log a buf b k small drained h. refl }

write-Stored_example :
    (((write good 4 1000 5 3 ready).1 ≡ DResult.res_ok)
      × ((write good 4 1000 5 3 ready).0.status ≡ ready.status)
      × IsStored 4
          (λ p. p)
          block_after
          ready.addr_mul
          1000
          5
          3
          ready.log
          (write good 4 1000 5 3 ready).0.log)
    ⊎ IsWrong good 4 ready.status (write good 4 1000 5 3 ready)
write-Stored_example =
    write-Stored good 4 (λ p. p) block_after block_after-StoresBlocks 1000 5 3 ready (omega arith)
      (omega arith) (omega arith)

-- The driver before its first use.
abbrev fresh : Driver
fresh = record ready { status = 1 }

abbrev after_three : Log → Log → Bool
after_three start now = leb (yields start + 3) (yields now)

after_three-Expires : Expires after_three 3
after_three-Expires start now h = ground arith

init_cases_example :
    IsReady 512 fresh (init good 512 after_three 4 fresh)
    ⊎ IsFailed (init good 512 after_three 4 fresh)
init_cases_example = init_cases good 512 after_three 3 4 fresh after_three-Expires (omega arith)

abbrev swap32 : ℕ → ℕ
swap32 x = x % 256 * 16777216 + x / 256 % 256 * 65536 + x / 65536 % 256 * 256 + x / 16777216 % 256

abbrev swap16 : ℕ → ℕ
swap16 x = x % 256 * 256 + x / 256

swap-TurnsBytes : TurnsBytes swap32 swap16
swap-TurnsBytes = record {
  byte0 = λ x h. omega arith;
  byte1 = λ x h. omega arith;
  byte2 = λ x h. omega arith;
  byte3 = λ x h. omega arith;
  half = λ x h. refl;
}

-- A card of 32 GB.
abbrev csd : Response
csd = record { resp1 = 1074659378; resp2 = 1532559360; resp3 = 3951001472; resp4 = 172 }

csd-AreWords : AreWords csd
csd-AreWords = record {
  first = omega arith;
  second = omega arith;
  third = omega arith;
  fourth = omega arith;
}

csd-fields_example :
    (block_size swap32 swap16 csd
      ≡ (if not (register_bits csd 126 2 == 0) then 512 else 2 ^ register_bits csd 80 4))
    × (block_count swap32 swap16 csd ≡ (
        if not (register_bits csd 126 2 == 0)
        then u32 ((register_bits csd 48 22 + 1) * 2 ^ 10)
        else u32 ((register_bits csd 62 12 + 1) * 2 ^ (register_bits csd 47 3 + 2))))
    × (is_v2 swap32 swap16 csd ≡ true
        → capacity_mb swap32 swap16 csd ≡ (register_bits csd 48 22 + 1) * 2 ^ 10 * 512 / 2 ^ 20)
csd-fields_example = csd-fields swap32 swap16 swap-TurnsBytes csd csd-AreWords

read_test : (read good 4 1000 5 3 ready).1 ≡ DResult.res_ok
unfolding read read_sector wait_not_busy command command_once command_success complete_dma_transfer
    dma_ready dma_complete judged data_success command_holds
read_test = refl

write_test : (write good 4 1000 5 3 ready).1 ≡ DResult.res_ok
unfolding write write_sector wait_not_busy command command_once command_success
    complete_dma_transfer dma_ready dma_complete judged data_success command_holds
write_test = refl

start_test : (init good 512 after_three 4 fresh).0.addr_mul ≡ 1
unfolding init select_card identify_card start_card ask_version wait_card wait_init polled read_card
    demand issue registers response command command_once command_success
start_test = refl
