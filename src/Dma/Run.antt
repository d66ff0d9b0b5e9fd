-- ===== src/Dma/Run.antt =====
-- targets/stm32/hw/DMA.cpp: a channel at work, in any interleaving of its hardware, its interrupt and
-- the program.
use lib_stm.Base.{ℕ, ◌<◌, ap, ◌∙◌, List, [], ◌∷◌, ◌++◌, Bool-cases, inl, inr, range, if◌then◌else◌}
use mathlib.Core.List.{append_assoc}
use lib_stm.Dma.{Channel, try_link_buffer, link_handler, transfer}
use lib_stm.Dma.Queue.{to_move, IsLive, Kept, same-Kept, transfer-Kept, handler-Kept}
use lib_stm.Dma.Link.{IsLeft, IsProper, try_link_buffer-Kept}

pub data Event : Type 0 where
  unit : Event
  interrupt : Event
  link : ℕ → ℕ → Event

-- The handler runs while its interrupt is pending.
unfoldable pub serve : Channel → Channel
serve c = if c.requested then link_handler c else c

pub serve-Kept : (ndt : ℕ) (c : Channel) → IsLive ndt c → Kept ndt c (serve c) []
unfolding serve
serve-Kept ndt c v = elim (Bool-cases c.requested) [
  | inl q ↦ simp q (handler-Kept ndt c v q)
  | inr idle ↦ simp idle (same-Kept ndt c v)
]

unfoldable pub step : (ℕ → ℕ → ℕ) → ℕ → Channel → Event → Channel
step left ndt c unit = transfer c
step left ndt c interrupt = serve c
step left ndt c (link p len) = (try_link_buffer left ndt p len c).0

-- The addresses that an event hands over.
unfoldable pub accepted : (ℕ → ℕ → ℕ) → ℕ → Channel → Event → List ℕ
accepted left ndt c unit = []
accepted left ndt c interrupt = []
accepted left ndt c (link p len) = range p (try_link_buffer left ndt p len c).1

unfoldable pub run_channel : (ℕ → ℕ → ℕ) → ℕ → Channel → List Event → Channel
run_channel left ndt c [] = c
run_channel left ndt c (ev ∷ evs) = run_channel left ndt (step left ndt c ev) evs

unfoldable pub run_accepted : (ℕ → ℕ → ℕ) → ℕ → Channel → List Event → List ℕ
run_accepted left ndt c [] = []
run_accepted left ndt c (ev ∷ evs) =
    accepted left ndt c ev ++ run_accepted left ndt (step left ndt c ev) evs

abbrev pub AllProper : List Event → Type 0
AllProper [] = Unit
AllProper (link p len ∷ evs) = IsProper p len × AllProper evs
AllProper (unit ∷ evs) = AllProper evs
AllProper (interrupt ∷ evs) = AllProper evs

pub then-Kept :
    (ndt : ℕ) {c d e : Channel} {new more : List ℕ}
    → Kept ndt c d new
    → Kept ndt d e more
    → Kept ndt c e (new ++ more)
then-Kept ndt {c} {d} {e} {new} {more} h k = record {
  live = k.live;
  order = k.order ∙ ap (λ l. l ++ more) h.order ∙ append_assoc (c.moved ++ to_move c) new more;
}

-- In any interleaving of units that move, interrupts and calls of `TryLinkBuffer` with proper
-- buffers: the addresses moved and then those to move are those at the start, and behind them the
-- accepted parts of the buffers in their order, none lost or moved twice; and the interrupt handler
-- is never called before the running transfer is over, which its assertion demands.
pub run_channel-Kept :
    (left : ℕ → ℕ → ℕ)
    → IsLeft left
    → (ndt : ℕ) (evs : List Event) (c : Channel) → 0 < ndt
    → ndt < 4294967296
    → IsLive ndt c
    → AllProper evs
    → Kept ndt c (run_channel left ndt c evs) (run_accepted left ndt c evs)
unfolding run_channel run_accepted step accepted
run_channel-Kept left is_left ndt [] c some_size small v h = same-Kept ndt c v
run_channel-Kept left is_left ndt (unit ∷ evs) c some_size small v h =
    let k = transfer-Kept ndt c v in
    then-Kept ndt k (run_channel-Kept left is_left ndt evs (transfer c) some_size small k.live h)
run_channel-Kept left is_left ndt (interrupt ∷ evs) c some_size small v h =
    let k = serve-Kept ndt c v in
    then-Kept ndt k (run_channel-Kept left is_left ndt evs (serve c) some_size small k.live h)
run_channel-Kept left is_left ndt (link p len ∷ evs) c some_size small v h =
    let k = try_link_buffer-Kept left is_left ndt p len c h.0 some_size small v in
    then-Kept ndt k (
      run_channel-Kept left is_left ndt evs (try_link_buffer left ndt p len c).0 some_size small
        k.live h.1)
