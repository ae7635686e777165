-- ===== src/IoQueue/Fifo.antt =====
-- `ioq_putchar` and `ioq_getchar` of sparrow/device/ioqueue.c on the bytes that the ring holds.
use sparrow_os.Common.{
  ℕ, suc, ◌<◌, ◌≡◌, ◌≢◌, refl, [], ◌∷◌, ◌++◌, arith, ◌==◌, if◌then◌else◌, length, true, false,
  Option, none, some, Bool-cases, inl, inr,
}
use sparrow_os.IoQueue.{
  IoQueue, Call, returns, waits, waits_lock, panic, next_pos, may_lock, ioq_full, ioq_empty,
  ioq_length, ioqueue_init, producer_sleep, consumer_sleep, store_byte, ioq_getchar, ioq_putchar,
}
use sparrow_os.IoQueue.View.{IsValid, contents, length-contents, ioq_length-mod, window-store}

-- The most that a ring holds: one place stays free.
abbrev pub capacity : ℕ
capacity = 2047

-- What `ioq_putchar` of `byte` by `self` may do.
abbrev pub Put : ℕ → IoQueue → ℕ → Call (Unit {0}) → Type 0
Put self ioq byte (returns u woken ioq') =
    (length (contents ioq) < capacity)
    × (contents ioq' ≡ contents ioq ++ byte ∷ [])
    × (woken ≡ ioq.consumer)
    × (ioq'.consumer ≡ none)
    × (ioq'.producer ≡ ioq.producer)
    × (ioq'.lock ≡ ioq.lock)
    × IsValid ioq'
Put self ioq byte (waits ioq') =
    (length (contents ioq) ≡ capacity)
    × (ioq.producer ≡ none)
    × (ioq' ≡ record ioq { lock = some self; producer = some self })
    × (may_lock self ioq ≡ true)
Put self ioq byte (waits_lock ioq') =
    (length (contents ioq) ≡ capacity) × (may_lock self ioq ≡ false) × (ioq' ≡ ioq)
Put self ioq byte panic = (length (contents ioq) ≡ capacity) × (ioq.producer ≢ none)

-- What `ioq_getchar` by `self` may do.
abbrev pub Get : ℕ → IoQueue → Call ℕ → Type 0
Get self ioq (returns byte woken ioq') =
    (contents ioq ≡ byte ∷ contents ioq')
    × (woken ≡ ioq.producer)
    × (ioq'.producer ≡ none)
    × (ioq'.consumer ≡ ioq.consumer)
    × (ioq'.lock ≡ ioq.lock)
    × IsValid ioq'
Get self ioq (waits ioq') =
    (contents ioq ≡ [])
    × (ioq.consumer ≡ none)
    × (ioq' ≡ record ioq { lock = some self; consumer = some self })
Get self ioq (waits_lock ioq') = (contents ioq ≡ []) × (may_lock self ioq ≡ false) × (ioq' ≡ ioq)
Get self ioq panic = (contents ioq ≡ []) × (ioq.consumer ≢ none)

module _ {ioq : IoQueue} (v : IsValid ioq) (self byte : ℕ) where
  full-length : ioq_full ioq ≡ true → length (contents ioq) ≡ capacity
  unfolding ioq_full next_pos
  full-length h = ground (arith, ioq_length-mod v, length-contents ioq)

  not_full-length : ioq_full ioq ≡ false → ioq_length ioq < capacity
  unfolding ioq_full next_pos
  not_full-length h = ground (arith, ioq_length-mod v)

  abbrev pub stored : IoQueue
  stored = record ioq {
    buf = λ k. if k == ioq.head then byte else ioq.buf k;
    head = next_pos ioq.head;
    consumer = none;
  }

  pub stored-IsValid : IsValid stored
  unfolding next_pos
  stored-IsValid = record { head_in = omega arith; tail_in = v.tail_in }

  ioq_length-stored : ioq_full ioq ≡ false → ioq_length stored ≡ suc (ioq_length ioq)
  unfolding next_pos
  ioq_length-stored h =
      let less = not_full-length h in omega (arith, ioq_length-mod v, ioq_length-mod stored-IsValid)

  pub contents-stored : ioq_full ioq ≡ false → contents stored ≡ contents ioq ++ byte ∷ []
  contents-stored h =
      let less = not_full-length h in
      rw (ioq_length-stored h) (
        window-store ioq.buf byte (ioq_length ioq) ioq.tail ioq.head v.tail_in (omega arith)
          (omega (arith, ioq_length-mod v)))

  -- On a ring that is not full `ioq_putchar` returns.
  pub ioq_putchar-stored :
      ioq_full ioq ≡ false → ioq_putchar self ioq byte ≡ returns tt ioq.consumer stored
  unfolding ioq_putchar store_byte
  ioq_putchar-stored h = rw h refl

  store_byte-Put : ioq_full ioq ≡ false → Put self ioq byte (store_byte ioq byte)
  unfolding store_byte
  store_byte-Put h = (
    rw (length-contents ioq) (not_full-length h),
    contents-stored h,
    refl,
    refl,
    refl,
    refl,
    stored-IsValid,
  )

  producer_sleep-Put :
      (o : Option ℕ)
      → ioq_full ioq ≡ true
      → ioq.producer ≡ o
      → may_lock self ioq ≡ true
      → Put self ioq byte (producer_sleep self ioq o)
  unfolding producer_sleep
  producer_sleep-Put none h e free = (full-length h, e, refl, free)
  producer_sleep-Put (some p) h e free = (full-length h, λ n. cc)

  -- `ioq_putchar` returns exactly where the ring is not full: then the byte is the new last one,
  -- the
  -- sleeping consumer is woken and forgotten, and the rest of the queue is as it was. On a full
  -- ring nothing is stored: the thread sleeps as the producer with the lock in hand, or behind the
  -- lock where another thread holds it, or the ASSERT fails where a producer already sleeps.
  pub ioq_putchar-Put : Put self ioq byte (ioq_putchar self ioq byte)
  unfolding ioq_putchar
  ioq_putchar-Put = elim (Bool-cases (ioq_full ioq)) [
    | inr room ↦ rw room (store_byte-Put room)
    | inl full ↦ rw full (elim (Bool-cases (may_lock self ioq)) [
      | inr busy ↦ rw busy (full-length full, busy, refl)
      | inl free ↦ rw free (producer_sleep-Put ioq.producer full refl free)
    ])
  ]

module _ {ioq : IoQueue} (v : IsValid ioq) (self : ℕ) where
  empty-contents : ioq_empty ioq ≡ true → contents ioq ≡ []
  unfolding ioq_empty
  empty-contents h =
      let nothing : ioq_length ioq ≡ 0 = ground (arith, ioq_length-mod v) in rw nothing

  abbrev taken : IoQueue
  taken = record ioq { tail = next_pos ioq.tail; producer = none }

  taken-IsValid : IsValid taken
  unfolding next_pos
  taken-IsValid = record { head_in = v.head_in; tail_in = omega arith }

  ioq_length-taken : ioq_empty ioq ≡ false → ioq_length ioq ≡ suc (ioq_length taken)
  unfolding next_pos ioq_empty
  ioq_length-taken h = ground (arith, ioq_length-mod v, ioq_length-mod taken-IsValid)

  contents-taken : ioq_empty ioq ≡ false → contents ioq ≡ ioq.buf ioq.tail ∷ contents taken
  unfolding next_pos
  contents-taken h = rw (ioq_length-taken h)

  consumer_sleep-Get :
      (o : Option ℕ)
      → ioq_empty ioq ≡ true
      → ioq.consumer ≡ o
      → Get self ioq (consumer_sleep self ioq o)
  unfolding consumer_sleep
  consumer_sleep-Get none h e = (empty-contents h, e, refl)
  consumer_sleep-Get (some p) h e = (empty-contents h, λ n. cc)

  pub ioq_getchar-Get : Get self ioq (ioq_getchar self ioq)
  unfolding ioq_getchar
  ioq_getchar-Get = elim (Bool-cases (ioq_empty ioq)) [
    | inr some_bytes ↦
        rw some_bytes (contents-taken some_bytes, refl, refl, refl, refl, taken-IsValid)
    | inl nothing ↦ rw nothing (elim (Bool-cases (may_lock self ioq)) [
      | inr busy ↦ rw busy (empty-contents nothing, busy, refl)
      | inl free ↦ rw free (consumer_sleep-Get ioq.consumer nothing refl)
    ])
  ]

-- A new ring is valid and empty, its lock is free and no thread sleeps on it.
pub ioqueue_init-contents :
    (ioq : IoQueue)
    → let q = ioqueue_init ioq in
      IsValid q × (contents q ≡ []) × (q.lock ≡ none) × (q.producer ≡ none) × (q.consumer ≡ none)
unfolding ioqueue_init ioq_length
ioqueue_init-contents ioq =
    (record { head_in = omega arith; tail_in = omega arith }, refl, refl, refl, refl)
