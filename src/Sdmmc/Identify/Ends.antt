-- ===== src/Sdmmc/Identify/Ends.antt =====
-- targets/stm32l/hw/SDMMC.cpp: the polls for the start of a card end, since the timer does.
use lib_stm.Base.{
  ℕ, zero, suc, ◌+◌, ◌≤◌, ◌<◌, ◌==◌, ==_iff, leb, Bool, Bool-cases, true, false, inl, inr, ◌≡◌, ◌≢◌,
  refl, [], not32, ◌/◌, ◌∷◌, bit_and, if◌then◌else◌, arith,
}
use lib_stm.Sdmmc.{Log, Op, Host, command, command_once, command_success}
use lib_stm.Sdmmc.Identify.{
  Session, Progress, Step, ◌>>=◌, give, change, require, issue, demand, registers, response,
  send_op_cond, op_cond_init_done, wait_init, ask_version, polled, wait_card, start_card, read_card,
  identify_card,
}

-- The rounds of waiting.
abbrev pub yields : Log → ℕ
yields [] = 0
yields (Op.yield ∷ l) = suc (yields l)
yields (op ∷ l) = yields l

-- A step that never lacks fuel.
pub record Ends {A : Type 0} (m : Step A) : Type 0 where
  pub ends : (s : Session) → (m s).1 ≢ Progress.out_of_fuel

-- What is not out of fuel is a value or a refusal.
data IsOver {A : Type 0} : Progress A → Type 0 where
  gave : (a : A) → IsOver (Progress.ok a)
  stopped : IsOver Progress.refused

over : {A : Type 0} (p : Progress A) → p ≢ Progress.out_of_fuel → IsOver p
over (Progress.ok a) h = gave a
over Progress.refused h = stopped
over Progress.out_of_fuel h = absurd (h refl)

ok_ends : {A : Type 0} (a : A) → Progress.ok a ≢ Progress.out_of_fuel
ok_ends a e = cc e

refused_ends : {A : Type 0} → ◌≢◌ {A = Progress A} Progress.refused Progress.out_of_fuel
refused_ends e = cc e

then-ends :
    {A B : Type 0} (p : Progress A) (t : Session) (f : A → Step B)
    → p ≢ Progress.out_of_fuel
    → ((a : A) → p ≡ Progress.ok a → (f a t).1 ≢ Progress.out_of_fuel)
    → (◌>>=◌ (λ s. (t, p)) f t).1 ≢ Progress.out_of_fuel
then-ends (Progress.ok a) t f h k = k a refl
then-ends Progress.refused t f h k = refused_ends
then-ends Progress.out_of_fuel t f h k = absurd (h refl)

bind-Ends :
    {A B : Type 0} (m : Step A) (f : A → Step B) → Ends m → ((a : A) → Ends (f a)) → Ends (m >>= f)
bind-Ends m f h k = record {
  ends = λ s. then-ends (m s).1 (m s).0 f (h.ends s) (λ a _. (k a).ends (m s).0);
}

require-Ends : (b : Bool) → Ends (require b)
require-Ends true = record { ends = λ s. ok_ends tt }
require-Ends false = record { ends = λ s. refused_ends }

demand-Ends : (host : Host) (cmd arg : ℕ) → Ends (demand host cmd arg)
unfolding demand issue
demand-Ends host cmd arg = record {
  ends = λ s. (require-Ends (command_success (command host cmd arg s.log).1)).ends s;
}

issue-Ends : (host : Host) (cmd arg : ℕ) → Ends (issue host cmd arg)
unfolding issue
issue-Ends host cmd arg = record { ends = λ s. ok_ends _ }

give-Ends : {A : Type 0} (a : A) → Ends (give a)
give-Ends a = record { ends = λ s. ok_ends a }

change-Ends : (f : Session → Session) → Ends (change f)
change-Ends f = record { ends = λ s. ok_ends tt }

registers-Ends : (host : Host) → Ends (registers host)
unfolding registers
registers-Ends host = record { ends = λ s. ok_ends _ }

response-Ends : (host : Host) → Ends (response host)
unfolding response registers
response-Ends host = record { ends = λ s. ok_ends _ }

choice-Ends : {A : Type 0} (b : Bool) (x y : Step A) → Ends x → Ends y → Ends (if b then x else y)
choice-Ends true x y h k = h
choice-Ends false x y h k = k

start_card-Ends : (host : Host) → Ends (start_card host)
unfolding start_card ask_version
start_card-Ends host =
    search (bind-Ends, demand-Ends, issue-Ends, give-Ends, registers-Ends, choice-Ends) depth 14

read_card-Ends : (host : Host) (b : Bool) → Ends (read_card host b)
unfolding read_card
read_card-Ends host b =
    search (bind-Ends, demand-Ends, change-Ends, registers-Ends, response-Ends) depth 20

-- Commands are no waiting.
command-yields :
    (host : Host) (cmd arg : ℕ) (l : Log) → yields (command host cmd arg l).0 ≡ yields l
unfolding command command_once
command-yields host cmd arg l = elim (Bool-cases (leb 2147483648 cmd)) [
  | inl app ↦ elim (Bool-cases (command_success (command_once host 119 (not32 cmd / 65536) l).1)) [
    | inl e ↦ rw (app, e) refl
    | inr e ↦ rw (app, e) refl
  ]
  | inr plain ↦ rw plain refl
]

-- The timer of `IdentifyCard` is over after `n` rounds of waiting.
abbrev pub Expires : (Log → Log → Bool) → ℕ → Type 0
Expires elapsed n = (start now : Log) → yields start + n ≤ yields now → elapsed start now ≡ true

module _ (host : Host) (elapsed : Log → Log → Bool) (n : ℕ) (x : Expires elapsed n)
    (start : Log) where
  polled_ends :
      (rest : Step Bool) (t : Session)
      → (elapsed start t.log ≡ false → (rest t).1 ≢ Progress.out_of_fuel)
      → (polled host elapsed start rest t).1 ≢ Progress.out_of_fuel
  unfolding polled registers
  polled_ends rest t h = elim (Bool-cases (bit_and (host t.log).resp1 op_cond_init_done == 0)) [
    | inl waiting ↦ elim (Bool-cases (elapsed start t.log)) [
      | inl late ↦ rw (waiting, late) refused_ends
      | inr early ↦ rw (waiting, early) (h early)
    ]
    | inr ready ↦ rw ready (ok_ends _)
  ]

  wait_init_ends :
      (init fuel : ℕ) (s : Session)
      → 0 < fuel
      → yields start + n ≤ yields s.log + fuel
      → (wait_init host elapsed start init fuel s).1 ≢ Progress.out_of_fuel
  unfolding wait_init demand issue
  wait_init_ends init zero s pos h = absurd (omega arith)
  wait_init_ends init (suc fuel) s pos h =
      then-ends (demand host send_op_cond init s').1 (demand host send_op_cond init s').0
        (λ _. polled host elapsed start (wait_init host elapsed start init fuel))
        ((demand-Ends host send_op_cond init).ends s')
        (λ _ _.
          polled_ends (wait_init host elapsed start init fuel) _
            (λ early. wait_init_ends init fuel _ (enough early) (omega (arith, h, one_on))))
    where
      s' : Session
      s' = record s { log = Op.yield ∷ s.log }

      one_on : yields (command host send_op_cond init (Op.yield ∷ s.log)).0 ≡ suc (yields s.log)
      one_on = command-yields host send_op_cond init (Op.yield ∷ s.log)

      enough :
          elapsed start (command host send_op_cond init (Op.yield ∷ s.log)).0 ≡ false → 0 < fuel
      enough early = elim (Bool-cases (fuel == 0)) [
        | inl z ↦
            let last : fuel ≡ 0 = (==_iff fuel 0).0 z in
            absurd (
              cc (
                early,
                x start (command host send_op_cond init (Op.yield ∷ s.log)).0
                    (omega (arith, h, one_on, last)),
              ))
        | inr more ↦ ground arith
      ]

wait_card-Ends :
    (host : Host) (elapsed : Log → Log → Bool) (n fuel init : ℕ)
    → Expires elapsed n
    → n < fuel
    → Ends (wait_card host elapsed fuel init)
unfolding wait_card
wait_card-Ends host elapsed n fuel init x h = record {
  ends = λ s. wait_init_ends host elapsed n x s.log init fuel s (omega arith) (omega arith);
}

-- Fuel for as many polls as the timer allows is enough.
pub identify_card-Ends :
    (host : Host) (elapsed : Log → Log → Bool) (n fuel : ℕ)
    → Expires elapsed n
    → n < fuel
    → Ends (identify_card host elapsed fuel)
unfolding identify_card
identify_card-Ends host elapsed n fuel x h =
    bind-Ends (start_card host) (λ init. wait_card host elapsed fuel init >>= λ b. read_card host b)
      (start_card-Ends host)
      (λ init.
        bind-Ends (wait_card host elapsed fuel init) (read_card host)
          (wait_card-Ends host elapsed n fuel init x h) (read_card-Ends host))
