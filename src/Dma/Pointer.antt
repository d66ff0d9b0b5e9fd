-- ===== src/Dma/Pointer.antt =====
-- targets/stm32/hw/DMA.cpp: the position of a running transfer, asked for without disturbing it.
use lib_stm.Base.{
  ℕ, ◌+◌, ◌-◌, ◌<◌, ◌==◌, true, false, ◌≡◌, ◌≢◌, refl, Bool-cases, inl, inr, u16, u32, sub32, arith,
}
use lib_stm.Dma.{Channel, get_status, link_pointer, link_pointer_not, Wait, is_enabled}
use lib_stm.Dma.Flags.{enable-disable, disable-disabled}
use lib_stm.Dma.Queue.{IsRunning}

-- The address of the unit that moves next.
abbrev pub next : Channel → ℕ
next c = c.cmar + (c.loaded - c.cndtr)

-- The channel is as before.
get_status-kept :
    (c : Channel)
    → c.ccr < 4294967296
    → get_status c ≡ (
      c,
      record { stop = u32 (c.cmar + u16 c.cndtr0); cndtr = u16 c.cndtr; cndtr0 = u16 c.cndtr0 },
    )
unfolding get_status
get_status-kept c h = elim (Bool-cases (is_enabled c.ccr)) [
  | inl e ↦ rw (e, enable-disable c.ccr h e) refl
  | inr e ↦ rw (e, disable-disabled c.ccr h e) refl
]

next_lem :
    (c : Channel)
    → IsRunning c
    → c.loaded < 65536
    → sub32 (u32 (c.cmar + u16 c.cndtr0)) (u16 c.cndtr) ≡ next c
next_lem c r small = omega (arith, r.within, r.recorded, r.addressed)

-- While a transfer of at most 65535 units runs, `LinkPointer` returns the address of the unit that moves next and leaves
-- the channel as it was, and `LinkPointerNot p` returns at once if that address is not `p`; if it is,
-- it waits for CNDTR to change from its value, or for the next round if no unit is left.
pub link_pointer_lem :
    (c : Channel) (p : ℕ)
    → IsRunning c
    → c.ccr < 4294967296
    → c.loaded < 65536
    → (link_pointer c ≡ (c, next c))
      × (p ≢ next c → link_pointer_not p c ≡ (c, Wait.moved_away))
      × (p ≡ next c → 0 < c.cndtr → link_pointer_not p c ≡ (c, Wait.cndtr_not c.cndtr))
      × (p ≡ next c → c.cndtr ≡ 0 → link_pointer_not p c ≡ (c, Wait.yield))
unfolding link_pointer link_pointer_not
link_pointer_lem c p r h small =
    rw (get_status-kept c h, next_lem c r small)
      (
        refl,
        λ e. let t : (next c == p) ≡ false = ground arith in rw t refl,
        λ e k.
            let t : (next c == p) ≡ true = ground arith in
            let more : (c.cndtr == 0) ≡ false = ground arith in rw (t, left p e, more) refl,
        λ e k.
            let t : (next c == p) ≡ true = ground arith in
            let none_left : (c.cndtr == 0) ≡ true = ground arith in
            rw (t, left p e, none_left) refl,
      )
  where
    left : (p : ℕ) → p ≡ next c → sub32 (u32 (c.cmar + u16 c.cndtr0)) p ≡ c.cndtr
    left p e = omega (arith, e, r.within, r.recorded, r.addressed)
