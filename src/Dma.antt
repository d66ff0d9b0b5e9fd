-- ===== src/Dma.antt =====
-- targets/stm32/hw/DMA.cpp: a DMA channel, and the buffers that are linked to its transfer.
pub mod Flags
pub mod Queue
pub mod Link
pub mod Pointer
pub mod Claim
mod Tests
pub mod Run
pub mod Drain
use lib_stm.Base.{
  ℕ, ◌+◌, ◌-◌, ◌*◌, ◌/◌, ◌%◌, ◌==◌, Bool, true, false, not, List, [], ◌∷◌, ◌++◌, bit_and, bit_or,
  if◌then◌else◌, u16, u32, sub32, not32, ◌&&◌, ◌||◌,
}

-- `DMAChannel`, with the `DMAChannelLink` of the channel. The last three fields stand for the
-- hardware: the value last written to CNDTR, whether the interrupt is pending, and the addresses of
-- the units moved so far.
pub record Channel : Type 0 where
  pub ccr : ℕ
  pub cndtr : ℕ
  pub cpar : ℕ
  pub cmar : ℕ
  pub link_ccr : ℕ
  pub link_cndtr : ℕ
  pub link_cpar : ℕ
  pub link_cmar : ℕ
  pub cndtr0 : ℕ
  pub loaded : ℕ
  pub requested : Bool
  pub moved : List ℕ

-- `Enable`, `Disable` and `IsEnabled`, on the register CCR.
abbrev pub ccr_en : ℕ
ccr_en = 1

abbrev pub ccr_tcie : ℕ
ccr_tcie = 2

unfoldable pub enable : ℕ → ℕ
enable ccr = bit_or ccr ccr_en

unfoldable pub disable : ℕ → ℕ
disable ccr = bit_and ccr (not32 ccr_en)

unfoldable pub is_enabled : ℕ → Bool
is_enabled ccr = not (bit_and ccr ccr_en == 0)

-- `DMALinkStatus`, with `end` under another name.
pub record LinkStatus : Type 0 where
  pub stop : ℕ
  pub cndtr : ℕ
  pub cndtr0 : ℕ

-- `GetStatus`: the channel, suspended on the way, and the status.
unfoldable pub get_status : Channel → Channel × LinkStatus
get_status c =
    let ccr = disable c.ccr in
    (
      record c { ccr = if is_enabled c.ccr then enable ccr else ccr },
      record { stop = u32 (c.cmar + u16 c.cndtr0); cndtr = u16 c.cndtr; cndtr0 = u16 c.cndtr0 },
    )

unfoldable pub link_pointer : Channel → Channel × ℕ
link_pointer c = let (c', s) = get_status c in (c', sub32 s.stop s.cndtr)

-- How `LinkPointerNot` waits: not at all, for CNDTR to differ from a value, or until the next round.
pub data Wait : Type 0 where
  moved_away : Wait
  cndtr_not : ℕ → Wait
  yield : Wait

unfoldable pub link_pointer_not : ℕ → Channel → Channel × Wait
link_pointer_not p c =
    let (c', s) = get_status c in
    let cndtr = sub32 s.stop p in
    (
      c',
      (if not (sub32 s.stop s.cndtr == p)
          then moved_away
          else if not (cndtr == 0)
          then cndtr_not cndtr
          else yield),
    )

-- `TryLinkBuffer` for a buffer of `len` bytes at `p`: `ndt` is the largest transfer, and `left len n`
-- the length of `Span.Left`. The result is the number of bytes that are linked.
unfoldable pub link_buffer : (ℕ → ℕ → ℕ) → ℕ → ℕ → ℕ → Channel → Channel × ℕ
link_buffer left ndt p len c =
    if c.link_ccr == 0
    then (
      record c {
        link_ccr = bit_or (bit_or c.ccr ccr_tcie) ccr_en;
        link_cpar = c.cpar;
        link_cmar = p;
        link_cndtr = left len ndt;
      },
      left len ndt,
    )
    else if u32 (c.link_cmar + c.link_cndtr) == p
    then (
      record c { link_cndtr = u32 (c.link_cndtr + left len (sub32 ndt c.link_cndtr)) },
      left len (sub32 ndt c.link_cndtr),
    )
    else (c, 0)

unfoldable pub try_link_buffer : (ℕ → ℕ → ℕ) → ℕ → ℕ → ℕ → Channel → Channel × ℕ
try_link_buffer left ndt p len c =
    let (c', n) = link_buffer left ndt p len c in
    ((if is_enabled c'.ccr then c' else record c' { requested = true }), n)

-- `LinkHandler`: the interrupt is no longer pending, the channel stops, and a linked buffer starts.
unfoldable pub link_handler : Channel → Channel
link_handler c =
    let c' = record c { ccr = disable c.ccr; requested = false } in
    if c'.link_ccr == 0 then c' else record c' {
      cndtr0 = c'.link_cndtr;
      cndtr = c'.link_cndtr;
      loaded = c'.link_cndtr;
      cpar = c'.link_cpar;
      cmar = c'.link_cmar;
      ccr = c'.link_ccr;
      link_ccr = 0;
    }

unfoldable pub unlink : Channel → Channel
unlink c = record c {
  ccr = disable c.ccr;
  link_ccr = 0;
  link_cndtr = 0;
  link_cpar = 0;
  link_cmar = 0;
  cndtr0 = 0;
}

-- The hardware moves one unit, if the channel is enabled and has one to move: the one behind those
-- moved since CNDTR was written. The last one requests the interrupt, if that is enabled.
unfoldable pub transfer : Channel → Channel
transfer c = if not (is_enabled c.ccr) || (c.cndtr == 0) then c else record c {
  cndtr = c.cndtr - 1;
  moved = c.moved ++ (c.cmar + (c.loaded - c.cndtr)) ∷ [];
  requested = c.requested || ((c.cndtr == 1) && not (bit_and c.ccr ccr_tcie == 0));
}
