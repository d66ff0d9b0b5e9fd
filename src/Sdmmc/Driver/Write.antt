-- ===== src/Sdmmc/Driver/Write.antt =====
-- targets/stm32l/fatfs/SDMMCDriver.cpp: `Write` puts the buffer on the card.
use lib_stm.Base.{
  ℕ, zero, suc, ◌+◌, ◌*◌, ◌<◌, ◌==◌, ◌≡◌, ◌≢◌, ◌⊎◌, refl, ap, ◌∙◌, inl, inr, true, false, ◌∷◌,
  if◌then◌else◌, u32, arith,
}
use lib_stm.Sdmmc.{Log, Op, Host, data_success}
use lib_stm.Sdmmc.Driver.{Driver, DResult, write, write_sector}
use lib_stm.Sdmmc.Driver.Sector.{
  writing, IsWrong, dma_complete-cndtr, stop-IsWrong, write_sector_cases,
}

-- What the peripheral, the DMA and the card do together: a transfer that is reported as successful,
-- with nothing left for the DMA channel to move, has stored the memory from `buf` on in the block that the command named, and no other block has
-- changed. `block` is the contents of the card after the operations of a log.
pub record StoresBlocks (host : Host) (max_ss : ℕ) (mem : ℕ → ℕ) (block : Log → ℕ → ℕ → ℕ)
    : Type 0 where
  pub stored :
      (log : Log) (a buf b k : ℕ)
      → k < max_ss
      → (host (writing max_ss a buf log)).cndtr ≡ 0
      → data_success (host (writing max_ss a buf log)).sta ≡ true
      → block (Op.clear 1290 ∷ writing max_ss a buf log) b k
        ≡ (if b == a then mem (buf + k) else block log b k)

-- The card has the buffer, and its other blocks are as before.
pub record IsStored (max_ss : ℕ) (mem : ℕ → ℕ) (block : Log → ℕ → ℕ → ℕ) (mul buf sec count : ℕ)
    (l l' : Log) : Type 0 where
  pub sectors :
      (i k : ℕ) → i < count → k < max_ss → block l' ((sec + i) * mul) k ≡ mem (buf + i * max_ss + k)
  pub others :
      (b k : ℕ)
      → k < max_ss
      → ((i : ℕ) → i < count → b ≢ (sec + i) * mul)
      → block l' b k ≡ block l b k

-- Sectors have addresses of their own.
distinct : (sec i mul : ℕ) → 0 < mul → sec * mul ≢ (suc sec + i) * mul
distinct sec i mul h e =
    let far : (suc sec + i) * mul ≡ sec * mul + (suc i) * mul = omega arith in
    let step : suc i * mul ≡ mul + i * mul = omega arith in absurd (omega arith)

one_more :
    (max_ss : ℕ) (mem : ℕ → ℕ) (block : Log → ℕ → ℕ → ℕ) (mul buf sec count : ℕ) (l m l' : Log)
    → 0 < mul
    → ((b k : ℕ)
        → k < max_ss
        → block m b k ≡ (if b == sec * mul then mem (buf + k) else block l b k))
    → IsStored max_ss mem block mul (buf + max_ss) (suc sec) count m l'
    → IsStored max_ss mem block mul buf sec (suc count) l l'
one_more max_ss mem block mul buf sec count l m l' pos h r = record {
  sectors = sectors;
  others = others;
}
  where
    sectors :
        (i k : ℕ)
        → i < suc count
        → k < max_ss
        → block l' ((sec + i) * mul) k ≡ mem (buf + i * max_ss + k)
    sectors zero k hi hk =
        let at : buf + 0 * max_ss + k ≡ buf + k = omega arith in
        let same : sec + 0 ≡ sec = omega arith in
        let here : (sec * mul == sec * mul) ≡ true = ground arith in
        rw
          (
            at,
            same,
            r.others (sec * mul) k hk (λ i _. distinct sec i mul pos),
            h (sec * mul) k hk,
            here,
          )
          refl
    sectors (suc i) k hi hk =
        let at : buf + suc i * max_ss + k ≡ buf + max_ss + i * max_ss + k = omega arith in
        let same : sec + suc i ≡ suc sec + i = omega arith in
        rw (at, same) (r.sectors i k (omega arith) hk)

    others :
        (b k : ℕ)
        → k < max_ss
        → ((i : ℕ) → i < suc count → b ≢ (sec + i) * mul)
        → block l' b k ≡ block l b k
    others b k hk o =
        let same : sec + 0 ≡ sec = omega arith in
        let first : b ≢ sec * mul = rw same at (o 0 (omega arith)) in
        let test : (b == sec * mul) ≡ false = ground arith in
        let rest : (i : ℕ) → i < count → b ≢ (suc sec + i) * mul = λ i hi e.
          let shift : sec + suc i ≡ suc sec + i = omega arith in
          o (suc i) (omega arith) (rw shift e) in
        rw (r.others b k hk rest, h b k hk, test) refl

write-next :
    (host : Host) (max_ss buf sec count : ℕ) (d d' : Driver)
    → write_sector host max_ss sec buf d ≡ (d', DResult.res_ok)
    → write host max_ss buf sec (suc count) d
      ≡ write host max_ss (u32 (buf + max_ss)) (suc sec) count d'
unfolding write
write-next host max_ss buf sec count d d' h =
    ap
      (λ r. elim r.1 [
        | DResult.res_ok ↦ write host max_ss (u32 (buf + max_ss)) (suc sec) count r.0
        | other ↦ (r.0, other)
      ])
      h

write-stop :
    (host : Host) (max_ss buf sec count : ℕ) (d : Driver)
    → IsWrong host max_ss d.status (write_sector host max_ss sec buf d)
    → IsWrong host max_ss d.status (write host max_ss buf sec (suc count) d)
unfolding write
write-stop host max_ss buf sec count d f =
    stop-IsWrong host max_ss d.status
      (write host max_ss (u32 (buf + max_ss)) (suc sec) count
        (write_sector host max_ss sec buf d).0)
      (write_sector host max_ss sec buf d) f

-- A write of sectors that lie on the card, from a buffer below the end of the address space, either
-- succeeds, and then each block of the card has its part of the buffer, all other blocks are as
-- before, and the status is unchanged; or it returns an error, and the status says that there is no
-- disk and that the driver has to be initialised; or an assertion fails, on the DMA channel or the flags of
-- the peripheral, before a transfer is set up, around the command
-- or after the transfer, or because
-- the size of a sector is no multiple of 4.
pub write-Stored :
    (host : Host) (max_ss : ℕ) (mem : ℕ → ℕ) (block : Log → ℕ → ℕ → ℕ)
    → StoresBlocks host max_ss mem block
    → (buf sec count : ℕ) (d : Driver) → 0 < d.addr_mul
    → buf + count * max_ss < 4294967296
    → (sec + count) * d.addr_mul < 4294967296
    → (((write host max_ss buf sec count d).1 ≡ DResult.res_ok)
        × ((write host max_ss buf sec count d).0.status ≡ d.status)
        × IsStored max_ss mem block d.addr_mul buf sec count d.log
            (write host max_ss buf sec count d).0.log)
      ⊎ IsWrong host max_ss d.status (write host max_ss buf sec count d)
unfolding write
write-Stored host max_ss mem block g buf sec zero d pos h fits =
    inl (refl, refl, record { sectors = λ i k hi. absurd (omega arith); others = λ b k hk o. refl })
write-Stored host max_ss mem block g buf sec (suc count) d pos h fits =
    elim (write_sector_cases host max_ss sec buf d) [
      | inl m ↦
          let a = u32 (sec * d.addr_mul) in
          let d' : Driver = record d { log = Op.clear 1290 ∷ writing max_ss a buf d.log } in
          let next : u32 (buf + max_ss) ≡ buf + max_ss = omega arith in
          let small : a ≡ sec * d.addr_mul = omega arith in
          rw (write-next host max_ss buf sec count d d' m.result, next)
            (elim (write-Stored host max_ss mem block g (buf + max_ss) (suc sec) count d' pos
              (omega arith) (omega arith)) [
                | inl r ↦ inl (
                  r.0,
                  r.1,
                  one_more max_ss mem block d.addr_mul buf sec count d.log d'.log _ pos
                      (λ b k hk.
                        g.stored d.log a buf b k hk (dma_complete-cndtr host _ m.complete) m.success
                        ∙ ap (λ t. if b == t then mem (buf + k) else block d.log b k) small)
                      r.2,
                )
                | inr f ↦ inr f
              ])
      | inr f ↦ inr (write-stop host max_ss buf sec count d f)
    ]
