-- ===== src/Usb/Dispatch/Tests.antt =====
-- targets/stm32-otgfs/usb/Device.cpp, `HandleIn` and `HandleOut`: two endpoints each, one of them reached.
use lib_stm.Base.{
  ◌+◌, if◌then◌else◌, ◌≡◌, refl, false, true, List, [], ◌∷◌, get_elem?, length, arith,
}
use mathlib.Core.Option
use lib_stm.Usb.Types.{Device, idle}
use lib_stm.Usb.Tests.{device, get_device}
use lib_stm.Usb.Endpoints.{InEndpoint, OutEndpoint, words, fifo_empty, handle_in_interrupts}
use lib_stm.Usb.Dispatch.{
  get_bit, reach, rounds, Pending, reach_in, reach_out, handle_in, handle_out,
}
use lib_stm.Usb.Dispatch.Reached.{handle_endpoints_lem}

-- IN endpoint 2 has room for its data; OUT endpoint 1 has a complete transfer.
abbrev two_bits : Pending
two_bits = record {
  mask = 131076;
  in_status = λ i. 128;
  out_status = λ i. 1;
  room = λ i. 16;
  memory = λ i. i;
}

abbrev filling : InEndpoint
filling = record {
  tx_ptr = 4;
  tx_words = 3;
  transfer_complete = false;
  endpoint_disabled = false;
  empty_enabled = true;
  requested = 12 ∷ [];
  pushed = [];
}

abbrev expecting : OutEndpoint
expecting = record {
  packet_buffer = 1 ∷ 2 ∷ [];
  transfer_complete = false;
  endpoint_disabled = false;
  fifo_read = 0;
}

abbrev asked_device : Device
asked_device = device get_device idle

abbrev ins : List InEndpoint
ins = filling ∷ filling ∷ []

abbrev outs : List OutEndpoint
outs = expecting ∷ expecting ∷ []

handle_endpoints_lem_example :
    let after_in = (handle_in two_bits (asked_device, ins)).1 in
    let after_out = (handle_out two_bits get_device 0 (asked_device, outs)).1 in
    (get_elem? after_in 1
      ≡ Option.map (λ e. if get_bit 131076 2 then reach_in two_bits 2 e else e) (get_elem? ins 1))
    × (get_elem? after_out 0
        ≡ Option.map
            (λ e. if get_bit 131076 (16 + 1) then reach_out two_bits 1 e else e)
            (get_elem? outs 0))
    × (length after_in ≡ length ins)
    × (length after_out ≡ length outs)
handle_endpoints_lem_example =
    handle_endpoints_lem two_bits get_device 0 asked_device ins outs 1 0 (omega arith) (omega arith)

-- The endpoint that is reached sends its words, the other one waits.
reached_test :
    (handle_in two_bits (asked_device, ins)).1
    ≡ filling
      ∷ record filling { tx_ptr = 7; tx_words = 0; empty_enabled = false; pushed = 4 ∷ 5 ∷ 6 ∷ [] }
      ∷ []
unfolding handle_in rounds reach get_bit reach_in handle_in_interrupts fifo_empty words
reached_test = refl
