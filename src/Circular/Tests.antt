-- ===== src/Circular/Tests.antt =====
-- targets/stm32l/io/DMAReceiverCircular.cpp: a ring of eight bytes, read across its end.
use lib_stm.Base.{ℕ, ◌≡◌, refl, [], ◌∷◌, arith}
use lib_stm.Circular.{Receiver, receiver, copy, copy_to_end, get_write_pointer, try_add_buffer}
use lib_stm.Circular.Unread.{IsRing, Moved}
use lib_stm.Circular.Ring.{get_write_pointer-Moved}

-- The read position is two bytes before the end, and the write position three behind the start.
abbrev wrapped : Receiver
wrapped = record { base = 100; end = 108; r = 106; cndtr = 5 }

abbrev memory : ℕ → ℕ
memory a = a

wrapped-IsRing : IsRing wrapped
wrapped-IsRing = record {
  read = omega arith;
  before_end = omega arith;
  counting = omega arith;
  whole = omega arith;
}

get_write_pointer-Moved_example :
    Moved memory 4 wrapped
      (get_write_pointer memory 4 wrapped).1
      (get_write_pointer memory 4 wrapped).0
get_write_pointer-Moved_example = get_write_pointer-Moved memory 4 wrapped wrapped-IsRing

stored_test : (get_write_pointer memory 4 wrapped).0 ≡ 106 ∷ 107 ∷ 100 ∷ 101 ∷ []
unfolding get_write_pointer copy_to_end copy
stored_test = refl

-- A new receiver has nothing to hand out, and takes one buffer only.
start_test : (get_write_pointer memory 4 (receiver 100 8)).0 ≡ []
unfolding get_write_pointer copy_to_end copy receiver
start_test = refl

second_buffer_test : try_add_buffer 4 16 ≡ 0
unfolding try_add_buffer
second_buffer_test = refl
