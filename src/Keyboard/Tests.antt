-- ===== src/Keyboard/Tests.antt =====
-- Bytes of the keyboard, and the theorems at them.
use sparrow_os.Common.{◌≡◌, refl, true, false, none, some, arith}
use sparrow_os.IoQueue.{IoQueue}
use sparrow_os.Keyboard.{
  Flags, scan, press, release, char_of, shift_of, two_characters, intr_keyboard_handler,
}
use sparrow_os.Keyboard.Scan.{user_view, sent}
use sparrow_os.Keyboard.Buffer.{Taken, intr_keyboard_handler-Taken}

-- Left shift is held.
abbrev shifted : Flags
shifted = record {
  ctrl_status = false;
  shift_status = true;
  alt_status = false;
  caps_lock_status = false;
  ext_scancode = false;
}

abbrev empty_ring : IoQueue
empty_ring = record {
  lock = none;
  producer = none;
  consumer = none;
  buf = λ k. 0;
  head = 0;
  tail = 0;
}

-- The key Q with shift.
capital_q : scan shifted 0x10 ≡ (shifted, some 81)
unfolding scan press release char_of shift_of two_characters
capital_q = refl

intr_keyboard_handler-Taken_example :
    ((intr_keyboard_handler 3 shifted empty_ring 0x10).0 ≡ user_view shifted 0x10)
    × Taken empty_ring (sent shifted 0x10) (intr_keyboard_handler 3 shifted empty_ring 0x10).1
intr_keyboard_handler-Taken_example =
    intr_keyboard_handler-Taken 3 shifted empty_ring 0x10
      (record { head_in = omega arith; tail_in = omega arith }) (omega arith)
