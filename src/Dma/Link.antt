-- ===== src/Dma/Link.antt =====
-- targets/stm32/hw/DMA.cpp: a buffer that is linked joins the end of the queue.
use lib_stm.Base.{
  ℕ, ◌+◌, ◌-◌, ◌<◌, ◌==◌, ==_iff, true, false, ◌≡◌, refl, sym, ap, ◌∙◌, List, [], ◌++◌, Bool-cases,
  inl, inr, bit_or, range, range-append, if◌then◌else◌, u32, sub32, min, arith,
}
use mathlib.Core.List.{append-nil, append_assoc}
use lib_stm.Dma.{Channel, is_enabled, ccr_tcie, ccr_en, link_buffer, try_link_buffer}
use lib_stm.Dma.Flags.{link_ccr-IsStarted, nonzero}
use lib_stm.Dma.Queue.{running, linked, to_move, IsRunning, IsLinked, IsLive, Kept}

-- What `Span.Left` does to a length.
abbrev pub IsLeft : (ℕ → ℕ → ℕ) → Type 0
IsLeft left = (len n : ℕ) → left len n ≡ min len n

-- A buffer that is handed over is not empty, and lies below the end of the address space.
pub record IsProper (p len : ℕ) : Type 0 where
  pub some_bytes : 0 < len
  pub addressed : p + len < 4294967296

link-first :
    (left : ℕ → ℕ → ℕ) (ndt p len : ℕ) (c : Channel)
    → (c.link_ccr == 0) ≡ true
    → link_buffer left ndt p len c ≡ (
      record c {
        link_ccr = bit_or (bit_or c.ccr ccr_tcie) ccr_en;
        link_cpar = c.cpar;
        link_cmar = p;
        link_cndtr = left len ndt;
      },
      left len ndt,
    )
unfolding link_buffer
link-first left ndt p len c h = rw h refl

link-more :
    (left : ℕ → ℕ → ℕ) (ndt p len : ℕ) (c : Channel)
    → (c.link_ccr == 0) ≡ false
    → (u32 (c.link_cmar + c.link_cndtr) == p) ≡ true
    → link_buffer left ndt p len c ≡ (
      record c { link_cndtr = u32 (c.link_cndtr + left len (sub32 ndt c.link_cndtr)) },
      left len (sub32 ndt c.link_cndtr),
    )
unfolding link_buffer
link-more left ndt p len c h k = rw (h, k) refl

link-none :
    (left : ℕ → ℕ → ℕ) (ndt p len : ℕ) (c : Channel)
    → (c.link_ccr == 0) ≡ false
    → (u32 (c.link_cmar + c.link_cndtr) == p) ≡ false
    → link_buffer left ndt p len c ≡ (c, 0)
unfolding link_buffer
link-none left ndt p len c h k = rw (h, k) refl

-- The part of the invariant that `link_buffer` keeps: all but the request for the interrupt.
pub record IsQueued (ndt : ℕ) (c d : Channel) (new : List ℕ) : Type 0 where
  pub same_ccr : d.ccr ≡ c.ccr
  pub same_cndtr : d.cndtr ≡ c.cndtr
  pub same_request : d.requested ≡ c.requested
  pub same_run : IsRunning c → IsRunning d
  pub link : (d.link_ccr == 0) ≡ false → IsLinked ndt d
  pub order : d.moved ++ to_move d ≡ (c.moved ++ to_move c) ++ new

join : (m r l new : List ℕ) → m ++ (r ++ (l ++ new)) ≡ (m ++ (r ++ l)) ++ new
join m r l new = ap (λ k. m ++ k) (sym (append_assoc r l new)) ∙ sym (append_assoc m (r ++ l) new)

first-IsQueued :
    (left : ℕ → ℕ → ℕ)
    → IsLeft left
    → (ndt p len : ℕ) (c : Channel) → IsProper p len
    → 0 < ndt
    → (c.link_ccr == 0) ≡ true
    → IsQueued ndt c (link_buffer left ndt p len c).0 (range p (link_buffer left ndt p len c).1)
unfolding running linked
first-IsQueued left is_left ndt p len c g h free =
    let s = link_ccr-IsStarted c.ccr in
    rw (link-first left ndt p len c free) (record {
      same_ccr = refl;
      same_cndtr = refl;
      same_request = refl;
      same_run = λ r. record {
        ready = r.ready;
        within = r.within;
        recorded = r.recorded;
        addressed = r.addressed;
      };
      link = λ _. record {
        ready = s;
        some_units = omega (arith, is_left len ndt, g.some_bytes);
        fits = omega (arith, is_left len ndt);
        addressed = omega (arith, is_left len ndt, g.addressed);
      };
      order =
          rw (free, nonzero (bit_or (bit_or c.ccr ccr_tcie) ccr_en) s)
            (join c.moved (running c) [] (range p (left len ndt)));
    })

more-IsQueued :
    (left : ℕ → ℕ → ℕ)
    → IsLeft left
    → (ndt p len : ℕ) (c : Channel) → IsProper p len
    → ndt < 4294967296
    → IsLinked ndt c
    → (c.link_ccr == 0) ≡ false
    → (u32 (c.link_cmar + c.link_cndtr) == p) ≡ true
    → IsQueued ndt c (link_buffer left ndt p len c).0 (range p (link_buffer left ndt p len c).1)
unfolding running linked
more-IsQueued left is_left ndt p len c g h l there at_end =
    rw (link-more left ndt p len c there at_end) (record {
      same_ccr = refl;
      same_cndtr = refl;
      same_request = refl;
      same_run = λ r. record {
        ready = r.ready;
        within = r.within;
        recorded = r.recorded;
        addressed = r.addressed;
      };
      link = λ _. record {
        ready = l.ready;
        some_units = omega (arith, sum, l.some_units);
        fits = omega (arith, sum, n_lem, room, l.fits);
        addressed = omega (arith, sum, p_lem, n_lem, g.addressed);
      };
      order =
          rw (there, sum)
            (ap (λ l. c.moved ++ (running c ++ l)) grown
              ∙ join c.moved (running c) (range c.link_cmar c.link_cndtr) (range p n));
    })
  where
    n : ℕ
    n = left len (sub32 ndt c.link_cndtr)

    p_lem : c.link_cmar + c.link_cndtr ≡ p
    p_lem = omega (arith, (==_iff (u32 (c.link_cmar + c.link_cndtr)) p).0 at_end, l.addressed)

    room : sub32 ndt c.link_cndtr ≡ ndt - c.link_cndtr
    room = omega (arith, l.fits)

    n_lem : n ≡ min len (sub32 ndt c.link_cndtr)
    n_lem = is_left len (sub32 ndt c.link_cndtr)

    sum : u32 (c.link_cndtr + n) ≡ c.link_cndtr + n
    sum = omega (arith, l.fits, n_lem, room)

    grown : range c.link_cmar (c.link_cndtr + n) ≡ range c.link_cmar c.link_cndtr ++ range p n
    grown = rw (sym p_lem) (sym (range-append c.link_cmar c.link_cndtr n))

-- `link_buffer` in all its cases: what is linked joins the end.
link-IsQueued :
    (left : ℕ → ℕ → ℕ)
    → IsLeft left
    → (ndt p len : ℕ) (c : Channel) → IsProper p len
    → 0 < ndt
    → ndt < 4294967296
    → IsLive ndt c
    → IsQueued ndt c (link_buffer left ndt p len c).0 (range p (link_buffer left ndt p len c).1)
link-IsQueued left is_left ndt p len c g some_size small v = elim (Bool-cases (c.link_ccr == 0)) [
  | inl free ↦ first-IsQueued left is_left ndt p len c g some_size free
  | inr there ↦ elim (Bool-cases (u32 (c.link_cmar + c.link_cndtr) == p)) [
    | inl at_end ↦ more-IsQueued left is_left ndt p len c g small (v.link there) there at_end
    | inr elsewhere ↦ rw (link-none left ndt p len c there elsewhere) (record {
      same_ccr = refl;
      same_cndtr = refl;
      same_request = refl;
      same_run = λ r. r;
      link = v.link;
      order = sym (append-nil _);
    })
  ]
]

-- The interrupt is requested if the channel stands still.
queued-Kept :
    (ndt : ℕ) (c d : Channel) (new : List ℕ)
    → IsLive ndt c
    → IsQueued ndt c d new
    → Kept ndt c (if is_enabled d.ccr then d else record d { requested = true }) new
unfolding running linked
queued-Kept ndt c d new v q = elim (Bool-cases (is_enabled d.ccr)) [
  | inl e ↦ rw e (record {
    live = record {
      run = λ k. q.same_run (v.run (cc (k, q.same_ccr)));
      link = q.link;
      over = λ k. cc (q.same_cndtr, v.over (cc (k, q.same_request)));
      stopped = λ k. cc (e, k);
      finished = λ k z. cc (q.same_request, v.finished (cc (k, q.same_ccr)) (cc (z, q.same_cndtr)));
      waiting = λ k. cc (e, k);
    };
    order = q.order;
  })
  | inr e ↦ rw e (record {
    live = record {
      run = λ k. cc (e, k);
      link = λ k.
          let l = q.link k in
          record {
            ready = l.ready;
            some_units = l.some_units;
            fits = l.fits;
            addressed = l.addressed;
          };
      over = λ k. cc (q.same_cndtr, v.stopped (cc (e, q.same_ccr)));
      stopped = λ k. cc (q.same_cndtr, v.stopped (cc (e, q.same_ccr)));
      finished = λ k. cc (e, k);
      waiting = λ k l. refl;
    };
    order = q.order;
  })
]

pub try_link_buffer-Kept :
    (left : ℕ → ℕ → ℕ)
    → IsLeft left
    → (ndt p len : ℕ) (c : Channel) → IsProper p len
    → 0 < ndt
    → ndt < 4294967296
    → IsLive ndt c
    → Kept ndt c (try_link_buffer left ndt p len c).0 (range p (try_link_buffer left ndt p len c).1)
unfolding try_link_buffer
try_link_buffer-Kept left is_left ndt p len c g some_size small v =
    queued-Kept ndt c (link_buffer left ndt p len c).0 (range p (link_buffer left ndt p len c).1) v
      (link-IsQueued left is_left ndt p len c g some_size small v)
