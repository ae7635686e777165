-- ===== src/Sync.antt =====
-- sparrow/thread/sync.c: semaphores and reentrant locks. A thread that finds the semaphore taken
-- stops inside `sema_down`, in `thread_block`; when it runs again it tests the value once more
-- (`down_round`). NULL is 0, and a task is the address of its PCB.
pub mod Waiting
pub mod Reentrant
pub mod System
pub mod Effects
pub mod Exclusion
pub mod Tests
use sparrow_os.Common.{
  ℕ, ◌-◌, ◌+◌, ◌%◌, Bool, true, false, not, List, [], ◌∷◌, ◌++◌, ltb, ◌==◌, if◌then◌else◌, add32,
  sub32, Outcome, done, panic, out_of_fuel, ◌>>=◌, assert_then,
}
use sparrow_os.Interrupt.{intr_disable, intr_set_status}
use sparrow_os.LinkedList.View.{elem}
use sparrow_os.Thread.{Kernel, blocked, thread_block, thread_unblock, resume}

pub record Semaphore : Type 0 where
  pub value : ℕ
  pub waiters : List ℕ

pub record Lock : Type 0 where
  pub holder : ℕ
  pub semaphore : Semaphore
  pub holder_repeat_nr : ℕ

-- A call has ended, or its thread sleeps in it. The status is the one that the call restores at
-- its end.
pub data Call (S : Type 0) : Type 0 where
  ended : S → Kernel → Call S
  asleep : Bool → S → Kernel → Call S

pub sema_init : ℕ → Semaphore
sema_init value = record { value = value % 256; waiters = [] }

pub lock_init : Lock
lock_init = record { holder = 0; holder_repeat_nr = 0; semaphore = sema_init 1 }

-- `list_append` and `thread_block` of a thread that must wait.
pub wait : Bool → Semaphore → Kernel → Outcome (Call Semaphore)
wait old_status s k = assert_then (not (elem k.cur s.waiters)) (
    thread_block blocked k >>= λ (off, k').
    done (asleep old_status (record s { waiters = s.waiters ++ k.cur ∷ [] }) k'))

-- The test of the loop of `sema_down`, and what follows it.
pub down_round : Bool → Semaphore → Kernel → Outcome (Call Semaphore)
down_round old_status s k =
    if s.value == 0
    then wait old_status s k
    else assert_then (s.value - 1 == 0)
        (done (ended (record s { value = s.value - 1 }) (resume old_status k)))

pub sema_down : Semaphore → Kernel → Outcome (Call Semaphore)
sema_down s k =
    let (old_status, off) = intr_disable k.intr in down_round old_status s (record k { intr = off })

-- `thread_block` returns with interrupts as they were in `sema_down`, off.
pub resume_down : Bool → Semaphore → Kernel → Outcome (Call Semaphore)
resume_down old_status s k = down_round old_status s (resume false k)

pub wake_first : Semaphore → Kernel → Outcome (Semaphore × Kernel)
wake_first s k = elim s.waiters [
  | [] ↦ done (s, k)
  | thread_blocked ∷ rest ↦
      thread_unblock thread_blocked k >>= λ (k' : Kernel). done (record s { waiters = rest }, k')
]

pub sema_up : Semaphore → Kernel → Outcome (Semaphore × Kernel)
sema_up s k =
    let (old_status, off) = intr_disable k.intr in
    assert_then (s.value == 0) (
      wake_first s (record k { intr = off }) >>= λ (s', k').
      assert_then ((s'.value + 1) % 256 == 1)
        (done (record s' { value = (s'.value + 1) % 256 }, resume old_status k')))

-- `lock_acquire` behind `sema_down`.
pub take_lock : Lock → Call Semaphore → Outcome (Call Lock)
take_lock l (asleep old_status s k) = done (asleep old_status (record l { semaphore = s }) k)
take_lock l (ended s k) =
    assert_then (l.holder_repeat_nr == 0)
      (done (ended (record l { semaphore = s; holder = k.cur; holder_repeat_nr = 1 }) k))

pub lock_acquire : Lock → Kernel → Outcome (Call Lock)
lock_acquire l k =
    if not (l.holder == k.cur)
    then sema_down l.semaphore k >>= take_lock l
    else done (ended (record l { holder_repeat_nr = add32 l.holder_repeat_nr 1 }) k)

pub resume_acquire : Bool → Lock → Kernel → Outcome (Call Lock)
resume_acquire old_status l k = resume_down old_status l.semaphore k >>= take_lock l

-- What `lock_release` writes before `sema_up`.
pub clear_holder : Lock → Lock
clear_holder l = record l { holder = 0; holder_repeat_nr = 0 }

pub lock_release : Lock → Kernel → Outcome (Lock × Kernel)
lock_release l k = assert_then (l.holder == k.cur) (
    if ltb 1 l.holder_repeat_nr
    then done (record l { holder_repeat_nr = l.holder_repeat_nr - 1 }, k)
    else assert_then (l.holder_repeat_nr == 1) (
        let l' = clear_holder l in
        sema_up l'.semaphore k >>= λ (s, k'). done (record l' { semaphore = s }, k')))
