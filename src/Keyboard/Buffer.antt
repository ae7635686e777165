-- ===== src/Keyboard/Buffer.antt =====
-- `intr_keyboard_handler` of sparrow/device/keyboard.c and its ring.
use sparrow_os.Common.{
  append-nil, ℕ, ◌≡◌, ◌<◌, ◌∙◌, sym, refl, Option, none, some, List, [], ◌∷◌, ◌++◌, if◌then◌else◌,
  Bool-cases, inl, inr,
}
use sparrow_os.IoQueue.{IoQueue, Call, returns, ioq_full}
use sparrow_os.IoQueue.View.{IsValid, contents}
use sparrow_os.IoQueue.Fifo.{stored, stored-IsValid, contents-stored, ioq_putchar-stored}
use sparrow_os.Keyboard.{Flags, put_char, intr_keyboard_handler}
use sparrow_os.Keyboard.Scan.{user_view, sent, scan-user_view, scan-sent}

-- What a byte adds to the ring: its character where there is room.
abbrev pub added : IoQueue → Option ℕ → List ℕ
added kbd_buf none = []
added kbd_buf (some c) = if ioq_full kbd_buf then [] else c ∷ []

-- The call returns, and the ring has taken the character.
pub record Taken (kbd_buf : IoQueue) (out : Option ℕ) (o : Call (Unit {0})) : Type 0 where
  pub woken : Option ℕ
  pub after : IoQueue
  pub runs : o ≡ returns tt woken after
  pub is_valid : IsValid after
  pub text : contents after ≡ contents kbd_buf ++ added kbd_buf out

put_char-Taken :
    (self : ℕ) (q : IoQueue) (out : Option ℕ) → IsValid q → Taken q out (put_char self q out)
unfolding put_char
put_char-Taken self q none v = record {
  woken = none;
  after = q;
  runs = refl;
  is_valid = v;
  text = sym (append-nil (contents q));
}
put_char-Taken self q (some c) v = elim (Bool-cases (ioq_full q)) [
  | inl full ↦ record {
    woken = none;
    after = q;
    runs = rw full refl;
    is_valid = v;
    text = rw full (sym (append-nil (contents q)));
  }
  | inr room ↦ record {
    woken = q.consumer;
    after = stored v self c;
    runs = rw room (ioq_putchar-stored v self c room);
    is_valid = stored-IsValid v self c;
    text = contents-stored v self c room ∙ rw room refl;
  }
]

-- For every byte and every state the handler returns and never sleeps. The status variables are
-- those that the user of the keyboard sees, and the ring has the sent character behind the others,
-- unless it was full.
pub intr_keyboard_handler-Taken :
    (self : ℕ) (f : Flags) (kbd_buf : IoQueue) (byte : ℕ)
    → IsValid kbd_buf
    → byte < 256
    → ((intr_keyboard_handler self f kbd_buf byte).0 ≡ user_view f byte)
      × Taken kbd_buf (sent f byte) (intr_keyboard_handler self f kbd_buf byte).1
unfolding intr_keyboard_handler
intr_keyboard_handler-Taken self f q byte v small = (
  scan-user_view f byte small,
  rw (scan-sent f byte small) (put_char-Taken self q (sent f byte) v),
)
