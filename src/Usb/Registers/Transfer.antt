-- ===== src/Usb/Registers/Transfer.antt =====
-- targets/stm32-otgfs/hw/USB.cpp: the transfer of a packet, as the registers of its endpoint have it.
use lib_stm.Base.{
  ℕ, ◌+◌, ◌-◌, ◌*◌, ◌/◌, ◌%◌, ◌^◌, ◌≤◌, ◌<◌, ◌==◌, ==_iff, ltb, ◌≡◌, ◌⊎◌, refl, ◌∙◌, bit_or, u32,
  bit_and-ones, bit_or_comm, bit_or_fields, Bool, ◌||◌, Bool-cases, inl, inr, true, false, none,
  some, arith, tests,
}
use lib_stm.Base.Places.{place, place-lt}
use lib_stm.Base.Masks.{place-modmask}
use lib_stm.Base.Table.{all_below}
use lib_stm.Usb.Registers.{Registers, packet_size, max_transfer_size, control, transmit_packet}
use lib_stm.Usb.Registers.Words.{constant, mod-eq_of_places, set-place}

-- A command leaves the packet size as it is.
control-size :
    (cmd : ℕ) (r : Registers)
    → all_below (λ j. place (0 + j) cmd == 0) 11 ≡ true
    → (control cmd r).ctl % 2 ^ 11 ≡ r.ctl % 2 ^ 11
unfolding control
control-size cmd r clear = mod-eq_of_places 11 _ r.ctl (λ i h. omega (
  arith,
  place-modmask i r.ctl 4229955584 cmd (omega arith) (omega arith),
  constant 4229955584 0 0 11 none_masked i (omega arith) h,
  constant cmd 0 0 11 clear i (omega arith) h,
  place-lt i r.ctl,
))
  where
    none_masked : all_below (λ j. place (0 + j) 4229955584 == 0) 11 ≡ true
    none_masked = unfold all_below in refl

-- What is set up for a packet of `size` bytes that goes in `count` parts.
pub record IsSetUp (index size count : ℕ) (r q : Registers) : Type 0 where
  pub bytes : q.tsiz % 2 ^ 19 ≡ size
  pub parts : q.tsiz / 2 ^ 19 ≡ count
  pub enabled : place 31 q.ctl ≡ 1
  pub runs : q.running ≡ true
  pub clears_nak : place 26 q.ctl ≡ 1
  pub same_size : packet_size index q ≡ packet_size index r

commanded :
    (index size count tsiz : ℕ) (r : Registers)
    → tsiz % 2 ^ 19 ≡ size
    → tsiz / 2 ^ 19 ≡ count
    → IsSetUp index size count r (control 2214592512 (record r { tsiz = tsiz }))
unfolding control
commanded index size count tsiz r hb hp = record {
  bytes = hb;
  parts = hp;
  enabled = set-place 31 r.ctl 4229955584 2214592512 (omega arith) (omega arith) refl;
  runs = or_true r.running;
  clears_nak = set-place 26 r.ctl 4229955584 2214592512 (omega arith) (omega arith) refl;
  same_size =
      unfold packet_size in
      (ground (
        arith,
        control-size 2214592512 r (unfold all_below in refl),
        bit_and-ones 11 r.ctl,
        bit_and-ones 11 (control 2214592512 r).ctl,
        bit_and-ones 2 r.ctl,
        bit_and-ones 2 (control 2214592512 r).ctl,
      ));
}
  where
    or_true : (b : Bool) → (b || true) ≡ true
    or_true true = refl
    or_true false = refl

-- The parts of a packet hold it, and the last one is needed.
parts_enough : (n m : ℕ) → 0 < m → (n / m * m ≤ n) × (n < (n / m + 1) * m)
parts_enough n m h = grind arith

-- `TransmitPacket`, and `ReceivePacket` with the same words: for a packet within the transfer size, the
-- transfer has the size of the packet, or one part if it is empty, as many parts of the packet size
-- of the endpoint as the packet fills, the last one perhaps in part, and the endpoint is
-- enabled and answers, with the packet size that it had. For a greater packet the assertion fails. The
-- number of parts fits its field of ten bits.
pub transmit_packet_cases :
    (index size : ℕ) (r : Registers)
    → 0 < packet_size index r
    → (size - 1) / packet_size index r < 1023
    → ((max_transfer_size index < size) × (transmit_packet index size r ≡ none))
      ⊎ ((count : ℕ) × (q : Registers) × (transmit_packet index size r ≡ some q)
          × IsSetUp index size count r q
          × (size ≤ count * packet_size index r)
          × (1 ≤ count)
          × ((count - 1) * packet_size index r ≤ size - 1))
unfolding transmit_packet
transmit_packet_cases index size r full few = elim (Bool-cases (size == 0)) [
  | inl empty ↦
      let e : size ≡ 0 = (==_iff size 0).0 empty in
      rw empty (
        inr (
          1,
          control 2214592512 (record r { tsiz = 2 ^ 19 }),
          refl,
          commanded index size 1 (2 ^ 19) r (omega (arith, e)) refl,
          omega (arith, e),
          omega arith,
          omega arith,
        ))
  | inr full_packet ↦ rw full_packet (elim (Bool-cases (ltb (max_transfer_size index) size)) [
    | inl over ↦ rw over (inl (omega (tests, over), refl))
    | inr fits ↦
        let less = small fits in
        let w = word less in
        rw fits (
          inr (
            (size - 1) / mps + 1,
            control 2214592512
                (record r { tsiz = bit_or (u32 (((size - 1) / mps + 1) * 2 ^ 19)) size }),
            refl,
            commanded index size ((size - 1) / mps + 1) _ r (omega (arith, w, less))
                (omega (arith, w, less)),
            omega (arith, (parts_enough (size - 1) mps full).1),
            omega arith,
            let e : (size - 1) / mps + 1 - 1 ≡ (size - 1) / mps = omega arith in
                rw e (parts_enough (size - 1) mps full).0,
          ))
  ])
]
  where
    mps : ℕ
    mps = packet_size index r

    small : ltb (max_transfer_size index) size ≡ false → size < 524288
    small fits = unfold max_transfer_size in ground arith

    word :
        size < 524288
        → bit_or (u32 (((size - 1) / mps + 1) * 2 ^ 19)) size
          ≡ size + ((size - 1) / mps + 1) * 524288
    word h =
        let e : u32 (((size - 1) / mps + 1) * 2 ^ 19) ≡ ((size - 1) / mps + 1) * 2 ^ 19 =
          omega (arith, few) in
        rw e (
          bit_or_comm (((size - 1) / mps + 1) * 2 ^ 19) size
          ∙ bit_or_fields 19 ((size - 1) / mps + 1) size h)
