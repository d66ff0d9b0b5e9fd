-- ===== src/Sdmmc/Driver/Read.antt =====
-- targets/stm32l/fatfs/SDMMCDriver.cpp: `Read` fills the buffer with the sectors of the card.
use lib_stm.Base.{
  ℕ, zero, suc, ◌+◌, ◌-◌, ◌*◌, ◌≤◌, ◌<◌, ltb, leb, ◌&&◌, ◌≡◌, ◌⊎◌, refl, ap, Bool, inl, inr, true,
  false, ◌∷◌, if◌then◌else◌, u32, arith,
}
use lib_stm.Sdmmc.{Log, Op, Host, data_success}
use lib_stm.Sdmmc.Driver.{Driver, DResult, read, read_sector}
use lib_stm.Sdmmc.Driver.Sector.{
  reading, IsWrong, dma_complete-cndtr, stop-IsWrong, read_sector_cases,
}

-- Addresses from `buf` on, `size` of them.
abbrev pub inside : ℕ → ℕ → ℕ → Bool
inside buf size p = leb buf p && ltb p (buf + size)

-- What the peripheral, the DMA and the card do together: a transfer that is reported as successful,
-- with nothing left for the DMA channel to move, has filled the memory with the block that the command named, and not touched other memory. `mem`
-- is the memory after the operations of a log, and `block` the contents of the card.
pub record DeliversBlocks (host : Host) (max_ss : ℕ) (mem : Log → ℕ → ℕ) (block : ℕ → ℕ → ℕ)
    : Type 0 where
  pub delivered :
      (log : Log) (a buf p : ℕ)
      → (host (reading max_ss a buf log)).cndtr ≡ 0
      → data_success (host (reading max_ss a buf log)).sta ≡ true
      → mem (Op.clear 1290 ∷ reading max_ss a buf log) p
        ≡ (if inside buf max_ss p then block a (p - buf) else mem log p)

-- The buffer has the sectors, and the memory around it is as before.
pub record IsFilled (max_ss : ℕ) (mem : Log → ℕ → ℕ) (block : ℕ → ℕ → ℕ) (mul buf sec count : ℕ)
    (l l' : Log) : Type 0 where
  pub sectors :
      (i k : ℕ)
      → i < count
      → k < max_ss
      → mem l' (buf + i * max_ss + k) ≡ block (u32 ((sec + i) * mul)) k
  pub around : (p : ℕ) → p < buf ⊎ buf + count * max_ss ≤ p → mem l' p ≡ mem l p

-- One more sector before those that are filled already.
one_more :
    (max_ss : ℕ) (mem : Log → ℕ → ℕ) (block : ℕ → ℕ → ℕ) (mul buf sec count : ℕ) (l m l' : Log)
    → ((p : ℕ)
        → mem m p ≡ (if inside buf max_ss p then block (u32 (sec * mul)) (p - buf) else mem l p))
    → IsFilled max_ss mem block mul (buf + max_ss) (suc sec) count m l'
    → IsFilled max_ss mem block mul buf sec (suc count) l l'
one_more max_ss mem block mul buf sec count l m l' h r = record {
  sectors = sectors;
  around = around;
}
  where
    in_first : (k : ℕ) → k < max_ss → inside buf max_ss (buf + k) ≡ true
    in_first k hk = ground arith

    outside : (p : ℕ) → p < buf ⊎ buf + max_ss ≤ p → inside buf max_ss p ≡ false
    outside p (inl e) = ground arith
    outside p (inr e) = ground arith

    sectors :
        (i k : ℕ)
        → i < suc count
        → k < max_ss
        → mem l' (buf + i * max_ss + k) ≡ block (u32 ((sec + i) * mul)) k
    sectors zero k hi hk =
        let at : buf + 0 * max_ss + k ≡ buf + k = omega arith in
        let off : buf + k - buf ≡ k = omega arith in
        let same : sec + 0 ≡ sec = omega arith in
        rw (at, r.around (buf + k) (inl (omega arith)), h (buf + k), in_first k hk, off, same) refl
    sectors (suc i) k hi hk =
        let at : buf + suc i * max_ss + k ≡ buf + max_ss + i * max_ss + k = omega arith in
        let same : sec + suc i ≡ suc sec + i = omega arith in
        rw (at, same) (r.sectors i k (omega arith) hk)

    around : (p : ℕ) → p < buf ⊎ buf + suc count * max_ss ≤ p → mem l' p ≡ mem l p
    around p (inl e) = rw (r.around p (inl (omega arith)), h p, outside p (inl e)) refl
    around p (inr e) = rw (r.around p (inr (omega arith)), h p, outside p (inr (omega arith))) refl

read-next :
    (host : Host) (max_ss buf sec count : ℕ) (d d' : Driver)
    → read_sector host max_ss sec buf d ≡ (d', DResult.res_ok)
    → read host max_ss buf sec (suc count) d
      ≡ read host max_ss (u32 (buf + max_ss)) (suc sec) count d'
unfolding read
read-next host max_ss buf sec count d d' h =
    ap
      (λ r. elim r.1 [
        | DResult.res_ok ↦ read host max_ss (u32 (buf + max_ss)) (suc sec) count r.0
        | other ↦ (r.0, other)
      ])
      h

read-stop :
    (host : Host) (max_ss buf sec count : ℕ) (d : Driver)
    → IsWrong host max_ss d.status (read_sector host max_ss sec buf d)
    → IsWrong host max_ss d.status (read host max_ss buf sec (suc count) d)
unfolding read
read-stop host max_ss buf sec count d f =
    stop-IsWrong host max_ss d.status
      (read host max_ss (u32 (buf + max_ss)) (suc sec) count (read_sector host max_ss sec buf d).0)
      (read_sector host max_ss sec buf d) f

-- A read of sectors into a buffer below the end of the address space either succeeds, and then each
-- sector of the card stands at its place in the buffer, the memory around the buffer is as before,
-- and the status is unchanged; or it returns an error, and the status says that there is no disk and
-- that the driver has to be initialised; or an assertion fails, on the DMA channel or the flags of
-- the peripheral, before a transfer is set up, around the command
-- or after the transfer, or because the size of
-- a sector is no multiple of 4.
pub read-Filled :
    (host : Host) (max_ss : ℕ) (mem : Log → ℕ → ℕ) (block : ℕ → ℕ → ℕ)
    → DeliversBlocks host max_ss mem block
    → (buf sec count : ℕ) (d : Driver) → buf + count * max_ss < 4294967296
    → (((read host max_ss buf sec count d).1 ≡ DResult.res_ok)
        × ((read host max_ss buf sec count d).0.status ≡ d.status)
        × IsFilled max_ss mem block d.addr_mul buf sec count d.log
            (read host max_ss buf sec count d).0.log)
      ⊎ IsWrong host max_ss d.status (read host max_ss buf sec count d)
unfolding read
read-Filled host max_ss mem block g buf sec zero d h =
    inl (refl, refl, record { sectors = λ i k hi. absurd (omega arith); around = λ p o. refl })
read-Filled host max_ss mem block g buf sec (suc count) d h =
    elim (read_sector_cases host max_ss sec buf d) [
      | inl m ↦
          let a = u32 (sec * d.addr_mul) in
          let d' : Driver = record d { log = Op.clear 1290 ∷ reading max_ss a buf d.log } in
          let next : u32 (buf + max_ss) ≡ buf + max_ss = omega arith in
          rw (read-next host max_ss buf sec count d d' m.result, next)
            (elim (read-Filled host max_ss mem block g (buf + max_ss) (suc sec) count d'
              (omega arith)) [
                | inl r ↦ inl (
                  r.0,
                  r.1,
                  one_more max_ss mem block d.addr_mul buf sec count d.log d'.log _
                      (λ p.
                        g.delivered d.log a buf p (dma_complete-cndtr host _ m.complete) m.success)
                      r.2,
                )
                | inr f ↦ inr f
              ])
      | inr f ↦ inr (read-stop host max_ss buf sec count d f)
    ]
