-- ===== src/Usart/Tests.antt =====
-- targets/stm32l/io/USARTInterrupt.cpp: two buffers, sent and filled.
use lib_stm.Base.{◌≡◌, refl, true, false, List, [], ◌∷◌, arith}
use lib_stm.Usart.{
  Buf, empty_buf, Usart, advance, write, read_into, rx_interrupt, tx_interrupt, handler, add,
  add_buffer, reset_tx, reset_rx,
}
use lib_stm.Usart.Slots.{slots, IsValid}
use lib_stm.Usart.Queue.{IsLive, Event, ready, submit, Kept, run, run_accepted, step, run-Kept}

-- Room for two bytes at 100.
abbrev room : Buf
room = record { p = 100; e = 102; p2 = 0; e2 = 0 }

abbrev start : Usart
start = record {
  tx = empty_buf;
  rx = room;
  txeie = false;
  rxneie = true;
  irq_enabled = true;
  memory = λ a. a;
  sent = [];
}

empty-IsValid : IsValid empty_buf
empty-IsValid = record {
  first = omega arith;
  second = omega arith;
  null_second = λ h. refl;
  no_gap = λ h. refl;
}

room-IsValid : IsValid room
room-IsValid = record {
  first = omega arith;
  second = omega arith;
  null_second = λ h. refl;
  no_gap = λ h. refl;
}

start-IsLive : IsLive start
unfolding slots
start-IsLive = record { valid = empty-IsValid; enabled = λ h. absurd (h refl) }

-- Two buffers that follow each other, sent byte by byte.
abbrev events : List Event
events = submit 10 12 ∷ submit 20 21 ∷ ready ∷ ready ∷ ready ∷ ready ∷ []

run-Kept_example : Kept start (run start events) (run_accepted start events)
run-Kept_example =
    run-Kept events start start-IsLive
      ((omega arith, omega arith), ((omega arith, omega arith), (tt, (tt, (tt, (tt, tt))))))

sent_test : (run start events).sent ≡ 10 ∷ 11 ∷ 20 ∷ []
unfolding run step add_buffer add handler tx_interrupt read_into advance
sent_test = refl

-- The last interrupt finds nothing to send, and disables itself.
disabled_test : (run start events).txeie ≡ false
unfolding run step add_buffer add handler tx_interrupt read_into advance
disabled_test = refl

rx_test : (handler true true 7 start).memory 100 ≡ 7
unfolding handler rx_interrupt write advance
rx_test = refl

reset_test : (reset_tx (reset_rx start)).rx ≡ empty_buf
unfolding reset_tx reset_rx
reset_test = refl
