-- ===== src/Usb/Sent.antt =====
-- targets/stm32-otgfs/usb/Device.cpp: the packets of answers among what was done to the peripheral.
use lib_stm.Base.{ℕ, ◌≡◌, refl, Bool, List, [], ◌∷◌, ◌++◌, ◌+◌, arith}
use lib_stm.Usb.Types.{Action, transmit, halt}

-- A first packet of an answer, as `TransmitPacket` sends it.
abbrev pub first_packet : Action → ℕ
first_packet (transmit packet) = 1
first_packet _ = 0

-- The packets of answers among the actions.
abbrev pub sent : List Action → ℕ
sent [] = 0
sent (a ∷ as') = first_packet a + sent as'

pub sent-append :
    (as' : List Action) (a : Action) → sent (as' ++ a ∷ []) ≡ sent as' + first_packet a
sent-append [] a = omega arith
sent-append (b ∷ bs) a = omega (arith, sent-append bs a)

pub append_other :
    (as' : List Action) (a : Action) → first_packet a ≡ 0 → sent (as' ++ a ∷ []) ≡ sent as'
append_other as' a e = omega (arith, sent-append as' a, e)

pub append_halt :
    (as' : List Action) (inward : Bool) (num : ℕ) (on : Bool)
    → sent (as' ++ halt inward num on ∷ []) ≡ sent as'
append_halt as' inward num on = append_other as' (halt inward num on) refl
