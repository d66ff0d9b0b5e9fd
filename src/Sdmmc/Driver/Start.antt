-- ===== src/Sdmmc/Driver/Start.antt =====
-- targets/stm32l/fatfs/SDMMCDriver.cpp: what `Init` leaves.
use lib_stm.Base.{
  ℕ, ◌*◌, ◌<◌, ◌==◌, ==_iff, Bool, Bool-cases, inl, inr, ◌≡◌, ◌≢◌, ◌⊎◌, refl, bit_and, u32,
  if◌then◌else◌,
}
use lib_stm.Sdmmc.{Log, Host, command, command_success}
use lib_stm.Sdmmc.Identify.{Session, Progress, identify_card}
use lib_stm.Sdmmc.Identify.Ends.{Ends, Expires, identify_card-Ends}
use lib_stm.Sdmmc.Driver.{Driver, DResult, select_card, init, sta_nodisk, sta_noinit}
use lib_stm.Sdmmc.Driver.Sector.{IsFailed, failed-IsFailed}

-- Ready to read and write: the driver was ready already and nothing has changed, or the card has just
-- been identified, and sectors are counted in its own unit, blocks or bytes.
pub record IsReady (max_ss : ℕ) (d : Driver) (r : Driver × DResult) : Type 0 where
  pub result : r.1 ≡ DResult.res_ok
  pub disk : bit_and r.0.status sta_nodisk ≡ 0
  pub counted : (r.0 ≡ d) ⊎ (r.0.addr_mul ≡ (if r.0.info.block_addressing then 1 else max_ss))

select_card_cases :
    (host : Host) (max_ss : ℕ) (d0 d : Driver) (s : Session) (p : Progress (Unit {0}))
    → p ≢ Progress.out_of_fuel
    → IsReady max_ss d0 (select_card host max_ss d s p) ⊎ IsFailed (select_card host max_ss d s p)
unfolding select_card
select_card_cases host max_ss d0 d s (Progress.ok x) h =
    elim (Bool-cases (command_success (command host 71 (u32 (s.info.rca * 65536)) s.log).1)) [
      | inl e ↦ rw e (inl (record { result = refl; disk = refl; counted = inr refl }))
      | inr e ↦ rw e (inr (failed-IsFailed _ _))
    ]
select_card_cases host max_ss d0 d s Progress.refused h = inr (failed-IsFailed _ _)
select_card_cases host max_ss d0 d s Progress.out_of_fuel h = absurd (h refl)

-- If the timer is over after `n` rounds of waiting, `Init` ends: it returns success, and then the
-- status has no flag for a missing disk, and the driver is unchanged or counts sectors in the unit of
-- the card it has found; or it returns an error, and the status says that there is no disk and that
-- the driver has to be initialised.
pub init_cases :
    (host : Host) (max_ss : ℕ) (elapsed : Log → Log → Bool) (n fuel : ℕ) (d : Driver)
    → Expires elapsed n
    → n < fuel
    → IsReady max_ss d (init host max_ss elapsed fuel d)
      ⊎ IsFailed (init host max_ss elapsed fuel d)
unfolding init
init_cases host max_ss elapsed n fuel d x h = elim (Bool-cases (bit_and d.status sta_noinit == 0)) [
  | inl started ↦ elim (Bool-cases (bit_and d.status sta_nodisk == 0)) [
    | inl there ↦
        rw (started, there)
          (inl (record {
            result = refl;
            disk = (==_iff (bit_and d.status 2) 0).0 there;
            counted = inl refl;
          }))
    | inr gone ↦ rw (started, gone) (select_card_cases host max_ss d d _ _ (e.ends _))
  ]
  | inr fresh ↦ rw fresh (select_card_cases host max_ss d _ _ _ (e.ends _))
]
  where
    e : Ends (identify_card host elapsed fuel)
    e = identify_card-Ends host elapsed n fuel x h
