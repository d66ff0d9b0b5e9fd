-- ===== src/Dma/Tests.antt =====
-- targets/stm32/hw/DMA.cpp: two buffers, linked while the channel stands still and while it runs.
use lib_stm.Base.{
  ℕ, zero, suc, ◌<◌, ◌≡◌, ◌≢◌, refl, List, [], length, ◌∷◌, ◌++◌, ◌==◌, ◌&&◌, if◌then◌else◌, some,
  false, min, arith,
}
use lib_stm.Dma.{
  Channel, link_pointer, link_pointer_not, Wait, try_link_buffer, link_buffer, link_handler,
  transfer, disable, is_enabled,
}
use lib_stm.Dma.Flags.{link_ccr-IsStarted}
use lib_stm.Dma.Queue.{IsLive, IsRunning, Kept, to_move, running, linked}
use lib_stm.Dma.Run.{Event, run_channel, run_accepted, run_channel-Kept, step, serve}
use lib_stm.Dma.Claim.{Controllers, claim_loop, claim_channel}
use lib_stm.Dma.Claim.Taken.{AreNumbered, from_place, Outcome, claim_channel-Outcome}
use lib_stm.Dma.Drain.{rounds, rounds_drain}
use lib_stm.Dma.Pointer.{next, link_pointer_lem}

-- A channel that is set up for a peripheral at 1000, and stands still.
abbrev idle : Channel
idle = record {
  ccr = 128;
  cndtr = 0;
  cpar = 1000;
  cmar = 0;
  link_ccr = 0;
  link_cndtr = 0;
  link_cpar = 0;
  link_cmar = 0;
  cndtr0 = 0;
  loaded = 0;
  requested = false;
  moved = [];
}

idle-IsLive : IsLive 65535 idle
unfolding is_enabled
idle-IsLive = record {
  run = λ e. cc e;
  link = λ e. cc e;
  over = λ e. refl;
  stopped = λ e. refl;
  finished = λ e. cc e;
  waiting = λ e k. cc k;
}

abbrev events : List Event
events =
    Event.link 100 2
    ∷ Event.interrupt
    ∷ Event.link 200 1
    ∷ Event.unit
    ∷ Event.link 201 3
    ∷ Event.unit
    ∷ Event.interrupt
    ∷ []

run_channel-Kept_example :
    Kept 65535 idle (run_channel min 65535 idle events) (run_accepted min 65535 idle events)
run_channel-Kept_example =
    run_channel-Kept min (λ len n. refl) 65535 events idle (omega arith) (omega arith) idle-IsLive
      (
        record { some_bytes = omega arith; addressed = omega arith },
        (
          record { some_bytes = omega arith; addressed = omega arith },
          (record { some_bytes = omega arith; addressed = omega arith }, tt),
        ),
      )

moved_test : (run_channel min 65535 idle events).moved ≡ 100 ∷ 101 ∷ []
unfolding run_channel try_link_buffer link_handler transfer is_enabled disable step serve
    link_buffer
moved_test = refl

-- Both buffers are linked.
abbrev working : Channel
working = record {
  ccr = 131;
  cndtr = 2;
  cpar = 1000;
  cmar = 100;
  link_ccr = 131;
  link_cndtr = 4;
  link_cpar = 1000;
  link_cmar = 200;
  cndtr0 = 3;
  loaded = 3;
  requested = false;
  moved = 100 ∷ [];
}

working-IsRunning : IsRunning working
working-IsRunning = record {
  ready = link_ccr-IsStarted 128;
  within = omega arith;
  recorded = refl;
  addressed = omega arith;
}

working-IsLive : IsLive 65535 working
unfolding is_enabled
working-IsLive = record {
  run = λ e. working-IsRunning;
  link = λ e. record {
    ready = link_ccr-IsStarted 128;
    some_units = omega arith;
    fits = omega arith;
    addressed = omega arith;
  };
  over = λ e. cc e;
  stopped = λ e. cc e;
  finished = λ e z. absurd (omega arith);
  waiting = λ e. cc e;
}

six_left : length (to_move working) < 7
unfolding running linked is_enabled
six_left = omega arith

rounds_drain_example :
    ((rounds 7 working).moved ≡ working.moved ++ to_move working)
    × (to_move (rounds 7 working) ≡ [])
rounds_drain_example = rounds_drain 65535 7 working working-IsLive six_left

link_pointer_lem_example :
    (link_pointer working ≡ (working, next working))
    × (101 ≢ next working → link_pointer_not 101 working ≡ (working, Wait.moved_away))
    × (101 ≡ next working
        → 0 < working.cndtr
        → link_pointer_not 101 working ≡ (working, Wait.cndtr_not working.cndtr))
    × (101 ≡ next working
        → working.cndtr ≡ 0
        → link_pointer_not 101 working ≡ (working, Wait.yield))
link_pointer_lem_example =
    link_pointer_lem working 101 working-IsRunning (omega arith) (omega arith)

-- Channel 3 of the first controller for function 5, or else channel 2 of the second for function 4.
abbrev specs : ℕ
specs = 0x4556

-- Only channel 3 of the first controller is in use.
abbrev one_taken : Controllers
one_taken = record {
  ccr = λ d k. if (d == 0) && (k == 3) then 129 else 0;
  cselr = λ d. 0;
  clocked = λ d. d == 0;
}

no_place : (i : ℕ) → from_place i 0 ≡ 0
no_place zero = refl
no_place (suc i) = no_place i

specs-AreNumbered : AreNumbered specs
specs-AreNumbered zero more = omega arith
specs-AreNumbered (suc zero) more = omega arith
specs-AreNumbered (suc (suc i)) more = absurd (more (no_place i))

claim_channel-Outcome_example : Outcome specs one_taken (claim_channel specs one_taken)
claim_channel-Outcome_example =
    claim_channel-Outcome specs one_taken specs-AreNumbered (omega arith)

claimed_test : (claim_channel specs one_taken).1 ≡ some (1, 2)
unfolding claim_channel claim_loop
claimed_test = refl
