-- ===== src/Usb/Registers/Tests.antt =====
-- targets/stm32-otgfs/hw: a packet of 100 bytes on an endpoint with packets of 64.
use lib_stm.Base.{ℕ, ◌-◌, ◌*◌, ◌/◌, ◌≤◌, ◌<◌, ◌≡◌, ◌⊎◌, refl, false, true, none, some, arith}
use lib_stm.Base.Masks.{modmask}
use lib_stm.Usb.Registers.{Registers, packet_size, max_transfer_size, control, transmit_packet}
use lib_stm.Usb.Registers.Transfer.{IsSetUp, transmit_packet_cases}

abbrev bulk : Registers
bulk = record { ctl = 557120; tsiz = 0; running = false }

bulk_size : packet_size 1 bulk ≡ 64
unfolding packet_size
bulk_size = refl

transmit_packet_cases_example :
    ((max_transfer_size 1 < 100) × (transmit_packet 1 100 bulk ≡ none))
    ⊎ ((count : ℕ) × (q : Registers) × (transmit_packet 1 100 bulk ≡ some q)
        × IsSetUp 1 100 count bulk q
        × (100 ≤ count * packet_size 1 bulk)
        × (1 ≤ count)
        × ((count - 1) * packet_size 1 bulk ≤ 100 - 1))
transmit_packet_cases_example = transmit_packet_cases 1 100 bulk (omega (arith, bulk_size)) few
  where
    few : (100 - 1) / packet_size 1 bulk < 1023
    few = rw bulk_size (omega arith)

transmit_test :
    transmit_packet 1 100 bulk ≡ some (record { ctl = 2215149632; tsiz = 1048676; running = true })
unfolding transmit_packet max_transfer_size packet_size control modmask
transmit_test = refl
