-- ===== src/Sync/System.antt =====
-- Mutual exclusion of the locks of sparrow/thread/sync.c. With interrupts off a task is not
-- interrupted; a task is between two calls of `sema_down` or `sema_up` where it can be. The pieces
-- in between are the steps of a system in which any task may run next.
use sparrow_os.Common.{ℕ, ◌≡◌, ◌≢◌, Bool, true, false, ltb, ◌==◌, if◌then◌else◌, done}
use sparrow_os.Thread.{Kernel}
use sparrow_os.Sync.{
  Semaphore, Lock, ended, asleep, sema_down, resume_down, sema_up, take_lock, lock_acquire,
  lock_init, clear_holder, lock_release,
}

-- Where a task stands: outside; asleep in `sema_down`; behind it; with the lock; before `sema_up`.
pub data Place : Type 0 where
  outside sleeping got holding freeing : Place

-- The task has taken the semaphore and has not given it back.
abbrev pub inside : Place → Bool
inside got = true
inside holding = true
inside freeing = true
inside p = false

abbrev pub is_holding : Place → Bool
is_holding holding = true
is_holding p = false

pub record System : Type 0 where
  pub lock : Lock
  pub kernel : Kernel
  pub place : ℕ → Place

-- The running task goes to another place.
abbrev pub moved : System → Place → ℕ → Place
moved σ pl q = if q == σ.kernel.cur then pl else σ.place q

-- One piece of a call by the running task, or a switch to any kernel at all.
pub data Step (σ : System) : System → Type 0 where
  down :
      (s : Semaphore) (k : Kernel)
      → σ.place σ.kernel.cur ≡ outside
      → σ.lock.holder ≢ σ.kernel.cur
      → sema_down σ.lock.semaphore σ.kernel ≡ done (ended s k)
      → Step σ (record { lock = record σ.lock { semaphore = s }; kernel = k; place = moved σ got })
  down_sleep :
      (old : Bool) (s : Semaphore) (k : Kernel)
      → σ.place σ.kernel.cur ≡ outside
      → σ.lock.holder ≢ σ.kernel.cur
      → sema_down σ.lock.semaphore σ.kernel ≡ done (asleep old s k)
      → Step σ
          (record { lock = record σ.lock { semaphore = s }; kernel = k; place = moved σ sleeping })
  woken :
      (old : Bool) (s : Semaphore) (k : Kernel)
      → σ.place σ.kernel.cur ≡ sleeping
      → resume_down old σ.lock.semaphore σ.kernel ≡ done (ended s k)
      → Step σ (record { lock = record σ.lock { semaphore = s }; kernel = k; place = moved σ got })
  woken_sleep :
      (old new : Bool) (s : Semaphore) (k : Kernel)
      → σ.place σ.kernel.cur ≡ sleeping
      → resume_down old σ.lock.semaphore σ.kernel ≡ done (asleep new s k)
      → Step σ
          (record { lock = record σ.lock { semaphore = s }; kernel = k; place = moved σ sleeping })
  take :
      (l : Lock) (k : Kernel)
      → σ.place σ.kernel.cur ≡ got
      → take_lock σ.lock (ended σ.lock.semaphore σ.kernel) ≡ done (ended l k)
      → Step σ (record { lock = l; kernel = k; place = moved σ holding })
  clear :
      σ.place σ.kernel.cur ≡ holding
      → ltb 1 σ.lock.holder_repeat_nr ≡ false
      → Step σ (record { lock = clear_holder σ.lock; kernel = σ.kernel; place = moved σ freeing })
  again :
      (l : Lock) (k : Kernel)
      → σ.place σ.kernel.cur ≡ holding
      → lock_acquire σ.lock σ.kernel ≡ done (ended l k)
      → Step σ (record { lock = l; kernel = k; place = σ.place })
  inner :
      (l : Lock) (k : Kernel)
      → σ.place σ.kernel.cur ≡ holding
      → ltb 1 σ.lock.holder_repeat_nr ≡ true
      → lock_release σ.lock σ.kernel ≡ done (l, k)
      → Step σ (record { lock = l; kernel = k; place = σ.place })
  up :
      (s : Semaphore) (k : Kernel)
      → σ.place σ.kernel.cur ≡ freeing
      → sema_up σ.lock.semaphore σ.kernel ≡ done (s, k)
      → Step σ
          (record { lock = record σ.lock { semaphore = s }; kernel = k; place = moved σ outside })
  switch : (k : Kernel) → Step σ (record σ { kernel = k })

pub data Reach : System → Type 0 where
  start : (k : Kernel) → Reach (record { lock = lock_init; kernel = k; place = λ q. outside })
  next : {σ τ : System} → Reach σ → Step σ τ → Reach τ
