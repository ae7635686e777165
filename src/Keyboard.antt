-- ===== src/Keyboard.antt =====
-- sparrow/device/keyboard.c: the interrupt handler of the keyboard. The status variables are
-- Booleans; the byte from the port is an argument, and characters are their codes.
pub mod Scan
pub mod Buffer
pub mod Tests
use Prim.Native.Nat.{bit_and, bit_or}
use sparrow_os.Common.{
  ℕ, ◌-◌, Bool, true, false, not, ◌&&◌, ◌||◌, Option, none, some, List, [], ◌∷◌, ltb, ◌==◌,
  if◌then◌else◌, get_or,
}
use sparrow_os.IoQueue.{IoQueue, Call, returns, ioq_full, ioq_putchar}

-- The characters of the keys 0x00 to 0x3a, without and with shift.
abbrev pub keymap : List (ℕ × ℕ)
keymap =
    (0, 0)
    ∷ (27, 27)
    ∷ (49, 33)
    ∷ (50, 64)
    ∷ (51, 35)
    ∷ (52, 36)
    ∷ (53, 37)
    ∷ (54, 94)
    ∷ (55, 38)
    ∷ (56, 42)
    ∷ (57, 40)
    ∷ (48, 41)
    ∷ (45, 95)
    ∷ (61, 43)
    ∷ (8, 8)
    ∷ (9, 9)
    ∷ (113, 81)
    ∷ (119, 87)
    ∷ (101, 69)
    ∷ (114, 82)
    ∷ (116, 84)
    ∷ (121, 89)
    ∷ (117, 85)
    ∷ (105, 73)
    ∷ (111, 79)
    ∷ (112, 80)
    ∷ (91, 123)
    ∷ (93, 125)
    ∷ (13, 13)
    ∷ (0, 0)
    ∷ (97, 65)
    ∷ (115, 83)
    ∷ (100, 68)
    ∷ (102, 70)
    ∷ (103, 71)
    ∷ (104, 72)
    ∷ (106, 74)
    ∷ (107, 75)
    ∷ (108, 76)
    ∷ (59, 58)
    ∷ (39, 34)
    ∷ (96, 126)
    ∷ (0, 0)
    ∷ (92, 124)
    ∷ (122, 90)
    ∷ (120, 88)
    ∷ (99, 67)
    ∷ (118, 86)
    ∷ (98, 66)
    ∷ (110, 78)
    ∷ (109, 77)
    ∷ (44, 60)
    ∷ (46, 62)
    ∷ (47, 63)
    ∷ (0, 0)
    ∷ (42, 42)
    ∷ (0, 0)
    ∷ (32, 32)
    ∷ (0, 0)
    ∷ []

pub record Flags : Type 0 where
  pub ctrl_status : Bool
  pub shift_status : Bool
  pub alt_status : Bool
  pub caps_lock_status : Bool
  pub ext_scancode : Bool

-- A break code: a control key is released.
pub release : Flags → ℕ → Flags
release f make_code =
    if (make_code == 0x1d) || (make_code == 0xe01d)
    then record f { ctrl_status = false }
    else if (make_code == 0x2a) || (make_code == 0x36)
    then record f { shift_status = false }
    else if (make_code == 0x38) || (make_code == 0xe038)
    then record f { alt_status = false }
    else f

-- The keys with two characters that are not letters.
pub two_characters : ℕ → Bool
two_characters scancode =
    ltb scancode 0x0e
    || (scancode == 0x29)
    || (scancode == 0x1a)
    || (scancode == 0x1b)
    || (scancode == 0x2b)
    || (scancode == 0x27)
    || (scancode == 0x28)
    || (scancode == 0x33)
    || (scancode == 0x34)
    || (scancode == 0x35)

-- `shift_status + caps_lock_status == 1` for a letter.
pub shift_of : Flags → ℕ → Bool
shift_of f scancode =
    if two_characters scancode
    then f.shift_status
    else if f.shift_status
    then not f.caps_lock_status
    else f.caps_lock_status

-- The character that goes to the buffer, if any: ctrl+l and ctrl+u have codes of their own.
pub char_of : Flags → ℕ → Option ℕ
char_of f scancode =
    let row = get_or keymap (bit_and scancode 0x00ff) (0, 0) in
    let cur_char = if shift_of f scancode then row.1 else row.0 in
    if cur_char == 0
    then none
    else if (f.ctrl_status && (cur_char == 108)) || (f.ctrl_status && (cur_char == 117))
    then some (cur_char - 97)
    else some cur_char

-- A make code; an unknown key only prints a message.
pub press : Flags → ℕ → Flags × Option ℕ
press f scancode =
    if (ltb 0x00 scancode && ltb scancode 0x3b) || (scancode == 0xe038) || (scancode == 0xe01d)
    then if (scancode == 0x1d) || (scancode == 0xe01d)
      then (record f { ctrl_status = true }, none)
      else if (scancode == 0x2a) || (scancode == 0x36)
      then (record f { shift_status = true }, none)
      else if (scancode == 0x38) || (scancode == 0xe038)
      then (record f { alt_status = true }, none)
      else if scancode == 0x3a
      then (record f { caps_lock_status = not f.caps_lock_status }, none)
      else (f, char_of f scancode)
    else (f, none)

-- What the handler does with a byte, up to the buffer.
pub scan : Flags → ℕ → Flags × Option ℕ
scan f byte =
    if byte == 0xe0
    then (record f { ext_scancode = true }, none)
    else (let scancode = if f.ext_scancode then bit_or 0xe000 byte else byte in
        let f' = record f { ext_scancode = false } in
        if not (bit_and scancode 0x0080 == 0)
        then (release f' (bit_and scancode 0xff7f), none)
        else press f' scancode)

pub put_char : ℕ → IoQueue → Option ℕ → Call (Unit {0})
put_char self kbd_buf none = returns tt none kbd_buf
put_char self kbd_buf (some cur_char) =
    if not (ioq_full kbd_buf) then ioq_putchar self kbd_buf cur_char else returns tt none kbd_buf

-- The handler runs on the task `self`.
pub intr_keyboard_handler : ℕ → Flags → IoQueue → ℕ → Flags × Call (Unit {0})
intr_keyboard_handler self f kbd_buf byte =
    let (f', out) = scan f byte in (f', put_char self kbd_buf out)
