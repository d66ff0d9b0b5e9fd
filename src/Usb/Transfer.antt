-- ===== src/Usb/Transfer.antt =====
-- targets/stm32-otgfs/usb/Device.cpp: the data stage of a control transfer towards the host.
use lib_stm.Base.{
  ℕ, zero, suc, ◌≤◌, ◌<◌, ◌==◌, ==_iff, ◌≡◌, refl, sym, ◌∙◌, Bool-cases, inl, inr, true, false,
  List, [], ◌∷◌, ◌++◌, length, take, drop, if◌then◌else◌, leb, take-append-drop, length-drop,
  length-take, arith,
}
use mathlib.Core.List.{append_assoc, append-nil}
use lib_stm.Usb.Types.{processing, data_tx, status_rx, dir_in, Action, transmit, receive, Device}
use lib_stm.Usb.Control.{answer, control_success, in_complete, handle_in_control}
use lib_stm.Usb.Answer.{success-open}

-- The bytes of the packets that were handed to the host, in order.
abbrev pub payload : Action → List ℕ
payload (transmit bytes) = bytes
payload _ = []

unfoldable pub sent : List Action → List ℕ
sent [] = []
sent (a ∷ as') = payload a ++ sent as'

-- No packet is longer than the packet size.
abbrev pub AllShort : ℕ → List Action → Type 0
AllShort n [] = Unit
AllShort n (a ∷ as') = (length (payload a) ≤ n) × AllShort n as'

sent-append : (xs ys : List Action) → sent (xs ++ ys) ≡ sent xs ++ sent ys
unfolding sent
sent-append [] ys = refl
sent-append (x ∷ xs) ys =
    rw (sent-append xs ys) (sym (append_assoc (payload x) (sent xs) (sent ys)))

AllShort-append :
    (n : ℕ) (xs ys : List Action) → AllShort n xs → AllShort n ys → AllShort n (xs ++ ys)
AllShort-append n [] ys h k = k
AllShort-append n (x ∷ xs) ys h k = (h.0, AllShort-append n xs ys h.1 k)

-- `n` interrupts for a completed packet on IN endpoint 0.
unfoldable pub completions : ℕ → Device → Device
completions zero d = d
completions (suc n) d = completions n (handle_in_control true d)

-- From `d` to `e` the bytes `content` were sent in packets that fit, and the host may acknowledge.
pub record Delivered (d e : Device) (content : List ℕ) : Type 0 where
  pub acknowledged : e.ctrl_state ≡ status_rx
  pub in_order : sent e.actions ≡ sent d.actions ++ content
  pub short : AllShort d.packet_size e.actions

length-take_le : (n : ℕ) (xs : List ℕ) → length (take n xs) ≤ n
length-take_le n xs = omega (arith, length-take n xs)

completions-status : (n : ℕ) (d : Device) → d.ctrl_state ≡ status_rx → completions n d ≡ d
unfolding completions handle_in_control in_complete
completions-status zero d c = refl
completions-status (suc n) d c = simp c (completions-status n d c)

complete_last :
    (d : Device)
    → d.ctrl_state ≡ data_tx
    → (length d.tx_remain == 0) ≡ true
    → handle_in_control true d
      ≡ record d { ctrl_state = status_rx; actions = d.actions ++ receive 64 ∷ [] }
unfolding handle_in_control in_complete
complete_last d c h = simp (c, h)

complete_more :
    (d : Device)
    → d.ctrl_state ≡ data_tx
    → (length d.tx_remain == 0) ≡ false
    → handle_in_control true d ≡ record d {
      tx_remain = drop d.packet_size d.tx_remain;
      actions = d.actions ++ transmit (take d.packet_size d.tx_remain) ∷ [];
    }
unfolding handle_in_control in_complete
complete_more d c h = simp (c, h)

length-zero : (xs : List ℕ) → (length xs == 0) ≡ true → xs ≡ []
length-zero [] h = refl
length-zero (x ∷ xs) h = absurd (omega (arith, (==_iff (suc (length xs)) 0).0 h))

-- The rest of the data goes out in as many completions as it has bytes, and one.
remainder :
    (n : ℕ) (d : Device)
    → d.ctrl_state ≡ data_tx
    → 0 < d.packet_size
    → length d.tx_remain < n
    → AllShort d.packet_size d.actions
    → Delivered d (completions n d) d.tx_remain
unfolding completions sent
remainder zero d c p h a = elim h [ ]
remainder (suc n) d c p h a = elim (Bool-cases (length d.tx_remain == 0)) [
  | inl done ↦
      let d' = record d { ctrl_state = status_rx; actions = d.actions ++ receive 64 ∷ [] } in
      rw (complete_last d c done, completions-status n d' refl, length-zero d.tx_remain done)
        (record {
          acknowledged = refl;
          in_order = sent-append d.actions (receive 64 ∷ []);
          short = AllShort-append d.packet_size d.actions (receive 64 ∷ []) a (omega arith);
        })
  | inr more ↦
      let front = take d.packet_size d.tx_remain in
      let d' = record d {
        tx_remain = drop d.packet_size d.tx_remain;
        actions = d.actions ++ transmit front ∷ [];
      } in
      let r = remainder n d' c p (shorter d.tx_remain d.packet_size p h more) (
        AllShort-append d.packet_size d.actions (transmit front ∷ []) a
          (length-take_le d.packet_size d.tx_remain, tt)) in
      rw (complete_more d c more) (record {
        acknowledged = r.acknowledged;
        in_order = r.in_order ∙ joined d.actions d.packet_size d.tx_remain;
        short = r.short;
      })
]
  where
    shorter :
        (xs : List ℕ) (k : ℕ)
        → 0 < k
        → length xs < suc n
        → (length xs == 0) ≡ false
        → length (drop k xs) < n
    shorter xs k hk hn hx = ground (arith, length-drop k xs)

    joined :
        (as' : List Action) (k : ℕ) (xs : List ℕ)
        → sent (as' ++ transmit (take k xs) ∷ []) ++ drop k xs ≡ sent as' ++ xs
    joined as' k xs = rw (sent-append, append-nil, append_assoc, take-append-drop)

-- The device once the first packet of the answer `cut` is handed out.
abbrev answered : List ℕ → Device → Device
answered cut d = record d {
  ctrl_state = data_tx;
  has_result = true;
  content = if leb (length cut) 64 then cut ++ drop (length cut) d.content else d.content;
  tx_remain = drop d.packet_size cut;
  actions = d.actions ++ transmit (take d.packet_size cut) ∷ [];
}

answer-in :
    (content : List ℕ) (d : Device)
    → d.setup.direction ≡ dir_in
    → answer content d ≡ answered (take d.setup.w_length content) d
unfolding answer
answer-in content d e = simp e

first-Delivered :
    (n : ℕ) (cut : List ℕ) (d : Device)
    → 0 < d.packet_size
    → AllShort d.packet_size d.actions
    → length cut < n
    → Delivered d (completions n (answered cut d)) cut
unfolding sent
first-Delivered n cut d p a h = record {
  acknowledged = q.acknowledged;
  in_order = q.in_order ∙ joined;
  short = q.short;
}
  where
    q : Delivered (answered cut d) (completions n (answered cut d)) (drop d.packet_size cut)
    q = remainder n (answered cut d) refl p (omega (arith, length-drop d.packet_size cut)) (
        AllShort-append d.packet_size d.actions (transmit (take d.packet_size cut) ∷ []) a
          (length-take_le d.packet_size cut, tt))

    joined : sent (answered cut d).actions ++ drop d.packet_size cut ≡ sent d.actions ++ cut
    joined = rw (sent-append, append-nil, append_assoc, take-append-drop)

-- A successful IN request is answered with the data cut to the length that the host asked for: after
-- its packets are complete, those bytes were sent in order, in packets of at most the packet size,
-- and the device waits for the host's acknowledgement. The completions are more than the bytes.
pub control_success-Delivered :
    (content : List ℕ) (n : ℕ) (d : Device)
    → d.has_result ≡ false
    → d.ctrl_state ≡ processing
    → d.setup.direction ≡ dir_in
    → 0 < d.packet_size
    → AllShort d.packet_size d.actions
    → length (take d.setup.w_length content) < n
    → Delivered d (completions n (control_success content d)) (take d.setup.w_length content)
control_success-Delivered content n d r c e p a h =
    rw (success-open content d r c, answer-in content d e)
      (first-Delivered n (take d.setup.w_length content) d p a h)
