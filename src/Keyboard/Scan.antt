-- ===== src/Keyboard/Scan.antt =====
-- What the bytes of sparrow/device/keyboard.c mean: a description of the keyboard as key events,
-- and the handler against it.

use sparrow_os.Common.{
  bool_eq, bool_eq_sound, and-split, ℕ, ◌≡◌, ◌<◌, ◌-◌, refl, ap, Bool, true, false, not, ◌&&◌, ◌||◌,
  Option, none, some, ltb, leb, ◌==◌, if◌then◌else◌, arith, get_or, holds_below,
  test_of_holds_below, eq-true,
}
use sparrow_os.Keyboard.{Flags, keymap, release, two_characters, shift_of, char_of, press, scan}

-- The keys that a byte can tell of: plain, or behind the prefix 0xe0.
abbrev is_ctrl : Bool → ℕ → Bool
is_ctrl extended key = key == 0x1d

abbrev is_shift : Bool → ℕ → Bool
is_shift extended key = not extended && ((key == 0x2a) || (key == 0x36))

abbrev is_alt : Bool → ℕ → Bool
is_alt extended key = key == 0x38

abbrev is_caps : Bool → ℕ → Bool
is_caps extended key = not extended && (key == 0x3a)

-- The keyboard as a user sees it: a byte below 128 presses a key, one from 128 on releases it.
-- Ctrl, shift and alt are held between the two, and caps lock changes when it is pressed.
abbrev pub held : Bool → Bool → Bool → Bool
held concerned pressed old = if concerned then pressed else old

abbrev pub user_view : Flags → ℕ → Flags
user_view f byte =
    if byte == 0xe0
    then record f { ext_scancode = true }
    else (let pressed = ltb byte 128 in
        let key = if pressed then byte else byte - 128 in
        let extended = f.ext_scancode in
        record {
          ctrl_status = held (is_ctrl extended key) pressed f.ctrl_status;
          shift_status = held (is_shift extended key) pressed f.shift_status;
          alt_status = held (is_alt extended key) pressed f.alt_status;
          caps_lock_status =
              if is_caps extended key && pressed
              then not f.caps_lock_status
              else f.caps_lock_status;
          ext_scancode = false;
        })

abbrev flags_eq : Flags → Flags → Bool
flags_eq f g =
    bool_eq f.ctrl_status g.ctrl_status
    && bool_eq f.shift_status g.shift_status
    && bool_eq f.alt_status g.alt_status
    && bool_eq f.caps_lock_status g.caps_lock_status
    && bool_eq f.ext_scancode g.ext_scancode

-- A test at both Booleans.
at_both : (Bool → Bool) → Bool
at_both test = test true && test false

test_of_at_both : (test : Bool → Bool) (b : Bool) → at_both test ≡ true → test b ≡ true
unfolding at_both
test_of_at_both test true h = (and-split (test true) (test false) h).0
test_of_at_both test false h = (and-split (test true) (test false) h).1

abbrev flags_of : Bool → Bool → Bool → Bool → Bool → Flags
flags_of c s a k e = record {
  ctrl_status = c;
  shift_status = s;
  alt_status = a;
  caps_lock_status = k;
  ext_scancode = e;
}

-- A test of all flags and all bytes, one status after the other.
module _ (test : Flags → ℕ → Bool) where
  abbrev any_byte : Bool → Bool → Bool → Bool → Bool → Bool
  any_byte c s a k e = holds_below (test (flags_of c s a k e)) 256

  abbrev any_ext : Bool → Bool → Bool → Bool → Bool
  any_ext c s a k = at_both (λ e. any_byte c s a k e)

  abbrev any_caps : Bool → Bool → Bool → Bool
  any_caps c s a = at_both (λ k. any_ext c s a k)

  abbrev any_alt : Bool → Bool → Bool
  any_alt c s = at_both (λ a. any_caps c s a)

  abbrev any_shift : Bool → Bool
  any_shift c = at_both (λ s. any_alt c s)

  at_all : Bool
  at_all = at_both any_shift

  test_of_at_all : (f : Flags) (byte : ℕ) → byte < 256 → at_all ≡ true → test f byte ≡ true
  unfolding at_all
  test_of_at_all f byte small h =
      let c = f.ctrl_status in
      let s = f.shift_status in
      let a = f.alt_status in
      let k = f.caps_lock_status in
      let h1 = test_of_at_both any_shift c h in
      let h2 = test_of_at_both (λ s. any_alt c s) s h1 in
      let h3 = test_of_at_both (λ a. any_caps c s a) a h2 in
      let h4 = test_of_at_both (λ k. any_ext c s a k) k h3 in
      test_of_holds_below (test f) byte 256 small
        (test_of_at_both (λ e. any_byte c s a k e) f.ext_scancode h4)

flags_eq_sound : (f g : Flags) → flags_eq f g ≡ true → f ≡ g
flags_eq_sound f g h =
    let (h4, e) = and-split _ _ h in
    let (h3, k) = and-split _ _ h4 in
    let (h2, a) = and-split _ _ h3 in
    let (c, s) = and-split _ _ h2 in
    λ i. record {
      ctrl_status = bool_eq_sound f.ctrl_status g.ctrl_status c i;
      shift_status = bool_eq_sound f.shift_status g.shift_status s i;
      alt_status = bool_eq_sound f.alt_status g.alt_status a i;
      caps_lock_status = bool_eq_sound f.caps_lock_status g.caps_lock_status k i;
      ext_scancode = bool_eq_sound f.ext_scancode g.ext_scancode e i;
    }

abbrev flags_ok : Flags → ℕ → Bool
flags_ok f byte = flags_eq (scan f byte).0 (user_view f byte)

flags_table : at_all flags_ok ≡ true
unfolding at_all at_both holds_below bool_eq scan release press char_of shift_of two_characters
flags_table = refl

-- The status variables after a byte are those of the keyboard as its user sees it, for every byte
-- and every state.
pub scan-user_view : (f : Flags) (byte : ℕ) → byte < 256 → (scan f byte).0 ≡ user_view f byte
scan-user_view f byte small = flags_eq_sound _ _ (test_of_at_all flags_ok f byte small flags_table)

-- A letter of the keymap: the row has a small letter and its capital.
abbrev pub is_letter : ℕ → Bool
is_letter c = leb 97 c && leb c 122

-- The character that a user expects of a plain key.
abbrev pub expected : Flags → ℕ → ℕ
expected f key =
    let (small, large) = get_or keymap key (0, 0) in
    if is_letter small
    then if f.shift_status
      then (if f.caps_lock_status then small else large)
      else if f.caps_lock_status
      then large
      else small
    else if f.shift_status
    then large
    else small

-- A byte that presses a plain key with a character.
abbrev pub is_plain : Flags → ℕ → Bool
is_plain f byte = not f.ext_scancode && ltb byte 0x3b && not ((get_or keymap byte (0, 0)).0 == 0)

abbrev pub sent : Flags → ℕ → Option ℕ
sent f byte =
    if is_plain f byte
    then (if f.ctrl_status && ((expected f byte == 108) || (expected f byte == 117))
        then some (expected f byte - 97)
        else some (expected f byte))
    else none

option_eq : Option ℕ → Option ℕ → Bool
option_eq none none = true
option_eq none (some b) = false
option_eq (some a) none = false
option_eq (some a) (some b) = a == b

option_eq_sound : (a b : Option ℕ) → option_eq a b ≡ true → a ≡ b
unfolding option_eq
option_eq_sound none none h = refl
option_eq_sound none (some b) h = ground arith
option_eq_sound (some a) none h = ground arith
option_eq_sound (some a) (some b) h = ap some (eq-true a b h)

abbrev char_ok : Flags → ℕ → Bool
char_ok f byte = option_eq (scan f byte).1 (sent f byte)

char_table : at_all char_ok ≡ true
unfolding at_all at_both holds_below option_eq scan release press char_of shift_of two_characters
char_table = refl

-- Exactly the plain keys with a character send one, for every byte and every state: a letter is a
-- capital where either shift or caps lock is on, another key follows shift alone, and ctrl makes
-- codes of its own of l and u.
pub scan-sent : (f : Flags) (byte : ℕ) → byte < 256 → (scan f byte).1 ≡ sent f byte
scan-sent f byte small = option_eq_sound _ _ (test_of_at_all char_ok f byte small char_table)
