-- ===== src/Usb/Endpoints/Tests.antt =====
-- targets/stm32-otgfs/usb/DeviceEndpoints.cpp: transfers that end in time, and some that do not.
use lib_stm.Base.{
  ℕ, ◌+◌, ◌/◌, ◌<◌, ◌||◌, if◌then◌else◌, min, ◌≡◌, ◌⊎◌, refl, true, false, some, none, [], ◌∷◌,
  ◌++◌, length,
}
use mathlib.Core.Option
use lib_stm.Usb.Endpoints.{
  InEndpoint, OutEndpoint, words, send_packet, receive_packet, receive_result,
  handle_out_interrupts,
}
use lib_stm.Usb.Endpoints.Send.{Interrupt, interrupts}
use lib_stm.Usb.Endpoints.Timeout.{
  OutPort, quiet, any, delivered, received, send_end, receive_end, receive_end_cases,
  send_end_cases,
}
use lib_stm.Usb.Tests.{counting, idle_in}
use lib_stm.Base.Masks.{modmask}
use lib_stm.Usb.Registers.{Registers, reset, control, stop_command, is_enabled}

abbrev active : Registers
active = record { ctl = 32832; tsiz = 0; running = false }

abbrev fresh_out : OutEndpoint
fresh_out = record {
  packet_buffer = [];
  transfer_complete = true;
  endpoint_disabled = true;
  fifo_read = 3;
}

abbrev little_room : Interrupt
little_room = record { txfe = true; xfrc = false; epdisd = false; room = 2 }

receive_end_cases_example :
    let waiting = quiet (false ∷ []) (receive_packet (7 ∷ 8 ∷ 9 ∷ []) fresh_out) in
    let late = quiet (true ∷ []) waiting in
    let after = quiet (true ∷ []) (delivered counting 2 late) in
    let done : OutPort = record { endpoint = delivered counting 2 waiting; registers = active } in
    (receive_end (quiet (true ∷ [])) (record { endpoint = waiting; registers = active }) ≡ (
      if any (false ∷ []) || any (true ∷ [])
      then some (0, record { endpoint = late; registers = reset active })
      else none))
    × (late.packet_buffer ≡ 7 ∷ 8 ∷ 9 ∷ [])
    × (receive_end (quiet (true ∷ [])) done ≡ some (received 2 (7 ∷ 8 ∷ 9 ∷ []), done))
    × (length done.endpoint.packet_buffer ≡ received 2 (7 ∷ 8 ∷ 9 ∷ []))
    × (receive_end
          (λ d. quiet (true ∷ []) (delivered counting 2 (quiet (true ∷ []) d)))
          (record { endpoint = waiting; registers = active })
        ≡ some (received 2 (7 ∷ 8 ∷ 9 ∷ []), record { endpoint = after; registers = reset active }))
    × ((delivered counting 0 waiting).packet_buffer ≡ 7 ∷ 8 ∷ 9 ∷ [])
receive_end_cases_example =
    receive_end_cases (7 ∷ 8 ∷ 9 ∷ []) (false ∷ []) (true ∷ []) counting 2 fresh_out active

-- Three bytes are reported for a packet without bytes.
empty_test :
    Option.map
      (λ r. r.0)
      (receive_end (quiet []) (record {
        endpoint = delivered counting 0 (receive_packet (7 ∷ 8 ∷ 9 ∷ []) fresh_out);
        registers = active;
      }))
    ≡ some 3
unfolding receive_end delivered receive_packet receive_result handle_out_interrupts
empty_test = refl

-- Two words of three go out before the time is over.
abbrev disabled_interrupt : Interrupt
disabled_interrupt = record { txfe = false; xfrc = false; epdisd = true; room = 0 }

send_end_cases_example :
    let f = interrupts counting (little_room ∷ []) (send_packet 64 5 10 idle_in) in
    let g = interrupts counting (disabled_interrupt ∷ []) f in
    let total = (min 64 10 + 3) / 4 in
    let end =
      send_end
        (interrupts counting (disabled_interrupt ∷ []))
        5
        (record { endpoint = f; registers = active }) in
    (0 < f.tx_words → f.empty_enabled ≡ true)
    × (((f.transfer_complete ≡ true)
          × ((sent : ℕ) × (end ≡ some (sent, record { endpoint = f; registers = active }))
              × (f.pushed ≡ [] ++ words counting 5 sent)
              × (sent + f.tx_words ≡ total)))
        ⊎ (((f.transfer_complete ≡ false) × (g.endpoint_disabled ≡ false) × (end ≡ none))
            ⊎ ((f.transfer_complete ≡ false)
                × (g.endpoint_disabled ≡ true)
                × ((sent : ℕ) × (q : InEndpoint) × (end
                      ≡ some (sent, record { endpoint = q; registers = reset active }))
                    × (q.pushed ≡ [] ++ words counting 5 sent)
                    × (sent + g.tx_words ≡ total)
                    × ((interrupts counting (little_room ∷ []) q).pushed ≡ q.pushed)))))
send_end_cases_example =
    send_end_cases counting 64 5 10 (little_room ∷ []) (disabled_interrupt ∷ []) (little_room ∷ [])
      idle_in active

-- The registers' reset at the end of a transfer that was running: only commands are given.
reset_test : (reset active).ctl ≡ 134250560
unfolding reset control stop_command is_enabled modmask
reset_test = refl
