-- ===== src/Dma/Queue.antt =====
-- targets/stm32/hw/DMA.cpp: the linked buffers of a channel are a queue of addresses.
use lib_stm.Base.{
  ℕ, suc, ◌+◌, ◌-◌, ◌≤◌, ◌<◌, ◌==◌, true, false, not, ◌&&◌, ◌||◌, ◌≡◌, refl, sym, ◌∙◌, List, [],
  ◌∷◌, ◌++◌, Bool-cases, inl, inr, bit_and, range, range-cons, if◌then◌else◌, arith,
}
use mathlib.Core.List.{append-nil, append_assoc}
use lib_stm.Dma.{Channel, is_enabled, disable, ccr_tcie, link_handler, transfer}
use lib_stm.Dma.Flags.{IsStarted, is_enabled-disable}

-- The addresses that the running transfer has to go, then those of the linked buffer.
unfoldable pub running : Channel → List ℕ
running c = if is_enabled c.ccr then range (c.cmar + (c.loaded - c.cndtr)) c.cndtr else []

unfoldable pub linked : Channel → List ℕ
linked c = if c.link_ccr == 0 then [] else range c.link_cmar c.link_cndtr

abbrev pub to_move : Channel → List ℕ
to_move c = running c ++ linked c

-- The running transfer, as the registers and `CNDTR0` have it.
pub record IsRunning (c : Channel) : Type 0 where
  pub ready : IsStarted c.ccr
  pub within : c.cndtr ≤ c.loaded
  pub recorded : c.cndtr0 ≡ c.loaded
  pub addressed : c.cmar + c.loaded < 4294967296

pub record IsLinked (ndt : ℕ) (c : Channel) : Type 0 where
  pub ready : IsStarted c.link_ccr
  pub some_units : 0 < c.link_cndtr
  pub fits : c.link_cndtr ≤ ndt
  pub addressed : c.link_cmar + c.link_cndtr < 4294967296

-- The interrupt is pending only when the transfer is over, and it is if there is more to do.
pub record IsLive (ndt : ℕ) (c : Channel) : Type 0 where
  pub run : is_enabled c.ccr ≡ true → IsRunning c
  pub link : (c.link_ccr == 0) ≡ false → IsLinked ndt c
  pub over : c.requested ≡ true → c.cndtr ≡ 0
  pub stopped : is_enabled c.ccr ≡ false → c.cndtr ≡ 0
  pub finished : is_enabled c.ccr ≡ true → c.cndtr ≡ 0 → c.requested ≡ true
  pub waiting : is_enabled c.ccr ≡ false → (c.link_ccr == 0) ≡ false → c.requested ≡ true

-- From `c` to `d` nothing is lost, and `new` joins the end of the queue.
pub record Kept (ndt : ℕ) (c d : Channel) (new : List ℕ) : Type 0 where
  pub live : IsLive ndt d
  pub order : d.moved ++ to_move d ≡ (c.moved ++ to_move c) ++ new

pub same-Kept : (ndt : ℕ) (c : Channel) → IsLive ndt c → Kept ndt c c []
same-Kept ndt c v = record { live = v; order = sym (append-nil _) }

pub transfer-idle :
    (c : Channel) → (not (is_enabled c.ccr) || (c.cndtr == 0)) ≡ true → transfer c ≡ c
unfolding transfer
transfer-idle c h = rw h refl

-- What a unit that moves leaves.
unfoldable pub one_on : Channel → Channel
one_on c = record c {
  cndtr = c.cndtr - 1;
  moved = c.moved ++ (c.cmar + (c.loaded - c.cndtr)) ∷ [];
  requested = c.requested || ((c.cndtr == 1) && not (bit_and c.ccr ccr_tcie == 0));
}

pub transfer-busy :
    (c : Channel) → (not (is_enabled c.ccr) || (c.cndtr == 0)) ≡ false → transfer c ≡ one_on c
unfolding transfer one_on
transfer-busy c h = rw h refl

one_on-order :
    (c : Channel)
    → IsRunning c
    → is_enabled c.ccr ≡ true
    → 0 < c.cndtr
    → (one_on c).moved ++ to_move (one_on c) ≡ c.moved ++ to_move c
unfolding one_on running linked
one_on-order c r e h =
    let next : suc (c.cmar + (c.loaded - c.cndtr)) ≡ c.cmar + (c.loaded - (c.cndtr - 1)) =
      omega (arith, r.within) in
    rw (e, append_assoc, range-cons (c.cmar + (c.loaded - c.cndtr)) c.cndtr h, next) refl

one_on-IsLive :
    (ndt : ℕ) (c : Channel)
    → IsLive ndt c
    → is_enabled c.ccr ≡ true
    → (c.cndtr == 0) ≡ false
    → IsLive ndt (one_on c)
unfolding one_on
one_on-IsLive ndt c v e h =
    let r = v.run e in
    record {
      run = λ _. record {
        ready = r.ready;
        within = omega (arith, r.within);
        recorded = r.recorded;
        addressed = r.addressed;
      };
      link = λ k.
          let l = v.link k in
          record {
            ready = l.ready;
            some_units = l.some_units;
            fits = l.fits;
            addressed = l.addressed;
          };
      over = λ q. ground (arith, v.over);
      stopped = λ k. cc (e, k);
      finished = λ _ z. ground (arith, r.ready.interrupts);
      waiting = λ k. cc (e, k);
    }

pub transfer-Kept : (ndt : ℕ) (c : Channel) → IsLive ndt c → Kept ndt c (transfer c) []
transfer-Kept ndt c v = elim (Bool-cases (not (is_enabled c.ccr) || (c.cndtr == 0))) [
  | inl idle ↦ rw (transfer-idle c idle) (same-Kept ndt c v)
  | inr busy ↦
      let e : is_enabled c.ccr ≡ true = ground arith in
      let some_left : (c.cndtr == 0) ≡ false = ground arith in
      rw (transfer-busy c busy) (record {
        live = one_on-IsLive ndt c v e some_left;
        order = one_on-order c (v.run e) e (ground arith) ∙ sym (append-nil _);
      })
]

-- The interrupt with nothing linked: the channel stops.
pub handler-stop :
    (c : Channel)
    → (c.link_ccr == 0) ≡ true
    → link_handler c ≡ record c { ccr = disable c.ccr; requested = false }
unfolding link_handler
handler-stop c h = rw h refl

-- The interrupt with a linked buffer: the buffer starts.
pub handler-start :
    (c : Channel)
    → (c.link_ccr == 0) ≡ false
    → link_handler c ≡ record c {
      ccr = c.link_ccr;
      requested = false;
      cndtr0 = c.link_cndtr;
      cndtr = c.link_cndtr;
      loaded = c.link_cndtr;
      cpar = c.link_cpar;
      cmar = c.link_cmar;
      link_ccr = 0;
    }
unfolding link_handler
handler-start c h = rw h refl

-- A transfer that is over leaves only the linked buffer.
to_move-over : (c : Channel) → c.cndtr ≡ 0 → to_move c ≡ linked c
unfolding running
to_move-over c h = elim (Bool-cases (is_enabled c.ccr)) [
  | inl e ↦ rw (e, h) refl
  | inr e ↦ rw e refl
]

pub handler-Kept :
    (ndt : ℕ) (c : Channel) → IsLive ndt c → c.requested ≡ true → Kept ndt c (link_handler c) []
unfolding running linked
handler-Kept ndt c v q = elim (Bool-cases (c.link_ccr == 0)) [
  | inl nothing ↦ rw (handler-stop c nothing) (record {
    live = record {
      run = λ e. cc (e, is_enabled-disable c.ccr);
      link = λ k. cc (nothing, k);
      over = λ k. v.over q;
      stopped = λ e. v.over q;
      finished = λ e. cc (e, is_enabled-disable c.ccr);
      waiting = λ e k. cc (nothing, k);
    };
    order = rw (to_move-over c (v.over q), is_enabled-disable c.ccr, nothing) (sym (append-nil _));
  })
  | inr there ↦
      let l = v.link there in
      let first : c.link_cmar + (c.link_cndtr - c.link_cndtr) ≡ c.link_cmar = omega arith in
      rw (handler-start c there) (record {
        live = record {
          run = λ e. record {
            ready = l.ready;
            within = omega arith;
            recorded = refl;
            addressed = l.addressed;
          };
          link = λ k. cc k;
          over = λ k. cc k;
          stopped = λ e. cc (e, l.ready.enabled);
          finished = λ e z. absurd (omega (arith, l.some_units));
          waiting = λ e k. cc k;
        };
        order =
            rw (to_move-over c (v.over q), l.ready.enabled, first, there)
              (rw (append-nil, append-nil) refl);
      })
]
