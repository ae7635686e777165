-- ===== src/IoQueue.antt =====
-- sparrow/device/ioqueue.c and the pipe of sparrow/shell/pipe.c: a ring of `bufsize` bytes between
-- a producer and a consumer. A call is made by the thread `self`, with interrupts off. A thread
-- that must wait stops in the middle of its call; the call `waits` is that state, and the call
-- goes on by `resume_putchar` or `resume_getchar` when `self` runs again. A thread that a call wakes
-- is a part of its result; `thread_unblock` of it is in Thread.
pub mod View
pub mod Fifo
pub mod Pipe
pub mod Tests
use sparrow_os.Common.{
  zero, suc, length, take, ℕ, ◌+◌, ◌-◌, ◌%◌, Bool, true, Option, none, some, List, [], ◌∷◌, ◌++◌,
  ltb, leb, ◌==◌, if◌then◌else◌,
}

abbrev pub bufsize : ℕ
bufsize = 2048

-- `struct ioqueue`; of its lock the holder, NULL is `none`.
pub record IoQueue : Type 0 where
  pub lock : Option ℕ
  pub producer : Option ℕ
  pub consumer : Option ℕ
  pub buf : ℕ → ℕ
  pub head : ℕ
  pub tail : ℕ

pub data Call (A : Type 0) : Type 0 where
  -- the call returns; the thread that it woke, if any
  returns : A → Option ℕ → IoQueue → Call A
  -- the thread sleeps as the producer or the consumer, holding the lock
  waits : IoQueue → Call A
  -- the thread sleeps on the lock, which another thread holds
  waits_lock : IoQueue → Call A
  -- a failed ASSERT
  panic : Call A

pub ioqueue_init : IoQueue → IoQueue
ioqueue_init ioq = record ioq { lock = none; producer = none; consumer = none; head = 0; tail = 0 }

unfoldable pub next_pos : ℕ → ℕ
next_pos pos = (pos + 1) % bufsize

pub ioq_full : IoQueue → Bool
unfolding next_pos
ioq_full ioq = next_pos ioq.head == ioq.tail

pub ioq_empty : IoQueue → Bool
ioq_empty ioq = ioq.head == ioq.tail

pub ioq_length : IoQueue → ℕ
ioq_length ioq =
    if leb ioq.tail ioq.head then ioq.head - ioq.tail else bufsize - (ioq.tail - ioq.head)

-- `lock_acquire` of a lock that is free or the thread's own.
abbrev pub may_lock : ℕ → IoQueue → Bool
may_lock self ioq = elim ioq.lock [ none ↦ true | some holder ↦ holder == self ]

-- `ioq_wait`, on the waiter that the queue has.
pub producer_sleep : {A : Type 0} → ℕ → IoQueue → Option ℕ → Call A
producer_sleep self ioq none = waits (record ioq { lock = some self; producer = some self })
producer_sleep self ioq (some other) = panic

pub consumer_sleep : {A : Type 0} → ℕ → IoQueue → Option ℕ → Call A
consumer_sleep self ioq none = waits (record ioq { lock = some self; consumer = some self })
consumer_sleep self ioq (some other) = panic

-- The body of the loop in `ioq_putchar`, up to where the thread sleeps: `lock_acquire`, then
-- `ioq_wait(&ioq->producer)`.
pub producer_wait : {A : Type 0} → ℕ → IoQueue → Call A
unfolding producer_sleep
producer_wait self ioq =
    if may_lock self ioq then producer_sleep self ioq ioq.producer else waits_lock ioq

pub consumer_wait : {A : Type 0} → ℕ → IoQueue → Call A
unfolding consumer_sleep
consumer_wait self ioq =
    if may_lock self ioq then consumer_sleep self ioq ioq.consumer else waits_lock ioq

-- `ioq_getchar` behind its loop: the byte is taken and a sleeping producer is woken.
pub take_byte : IoQueue → Call ℕ
unfolding next_pos
take_byte ioq =
    returns (ioq.buf ioq.tail) ioq.producer
      (record ioq { tail = next_pos ioq.tail; producer = none })

pub ioq_getchar : ℕ → IoQueue → Call ℕ
unfolding ioq_empty consumer_wait take_byte
ioq_getchar self ioq = if ioq_empty ioq then consumer_wait self ioq else take_byte ioq

-- `ioq_putchar` behind its loop: the byte is stored and a sleeping consumer is woken.
pub store_byte : IoQueue → ℕ → Call (Unit {0})
unfolding next_pos
store_byte ioq byte = returns tt ioq.consumer (record ioq {
  buf = λ k. if k == ioq.head then byte else ioq.buf k;
  head = next_pos ioq.head;
  consumer = none;
})

pub ioq_putchar : ℕ → IoQueue → ℕ → Call (Unit {0})
unfolding ioq_full producer_wait store_byte
ioq_putchar self ioq byte = if ioq_full ioq then producer_wait self ioq else store_byte ioq byte

-- A woken thread releases the lock and tests again.
pub resume_getchar : ℕ → IoQueue → Call ℕ
unfolding ioq_getchar
resume_getchar self ioq = ioq_getchar self (record ioq { lock = none })

pub resume_putchar : ℕ → IoQueue → ℕ → Call (Unit {0})
unfolding ioq_putchar
resume_putchar self ioq byte = ioq_putchar self (record ioq { lock = none }) byte

-- How a read or a write on a pipe ends: all calls returned, or the call after the first ones
-- stopped the thread.
pub data Transfer (A : Type 0) : Type 0 where
  finished : A → IoQueue → Transfer A
  stopped : A → Call (Unit {0}) → Transfer A

-- The loop of `pipe_read` with `n` bytes left, after the bytes `buffer`.
pub read_loop : ℕ → ℕ → List ℕ → IoQueue → Transfer (List ℕ)
read_loop self zero buffer ioq = finished buffer ioq
read_loop self (suc n) buffer ioq = elim (ioq_getchar self ioq) [
  | returns byte woken ioq' ↦ read_loop self n (buffer ++ byte ∷ []) ioq'
  | waits ioq' ↦ stopped buffer (waits ioq')
  | waits_lock ioq' ↦ stopped buffer (waits_lock ioq')
  | panic ↦ stopped buffer panic
]

-- `pipe_read` on the ring of the pipe: what arrives in the buffer. Its size is what is returned.
pub pipe_read : ℕ → ℕ → IoQueue → Transfer (List ℕ)
pipe_read self count ioq =
    let ioq_len = ioq_length ioq in
    read_loop self (if ltb count ioq_len then count else ioq_len) [] ioq

-- The loop of `pipe_write` over the bytes that it is to write.
pub write_loop : ℕ → ℕ → List ℕ → IoQueue → Transfer ℕ
write_loop self bytes_write [] ioq = finished bytes_write ioq
write_loop self bytes_write (byte ∷ buffer) ioq = elim (ioq_putchar self ioq byte) [
  | returns _ woken ioq' ↦ write_loop self (bytes_write + 1) buffer ioq'
  | waits ioq' ↦ stopped bytes_write (waits ioq')
  | waits_lock ioq' ↦ stopped bytes_write (waits_lock ioq')
  | panic ↦ stopped bytes_write panic
]

-- `pipe_write` of the bytes of a buffer, whose number is the argument `count`.
pub pipe_write : ℕ → List ℕ → IoQueue → Transfer ℕ
pipe_write self buffer ioq =
    let ioq_left = bufsize - ioq_length ioq in
    let count = length buffer in
    write_loop self 0 (take (if ltb count ioq_left then count else ioq_left) buffer) ioq
