-- ===== src/Sync/Tests.antt =====
-- Runs of a semaphore and a lock, and the theorems at them.
use sparrow_os.Common.{ℕ, ◌≡◌, refl, true, [], ◌∷◌, arith, ◌==◌, if◌then◌else◌, inl, done}
use sparrow_os.Interrupt.{intr_set_status, intr_disable, intr_enable, intr_get_status}
use sparrow_os.Thread.{Kernel, resume}
use sparrow_os.Thread.Tests.{three_tasks, three_tasks-Sound}
use sparrow_os.Sync.{
  Semaphore, Lock, ended, lock_acquire, lock_release, lock_init, sema_down, sema_init, down_round,
}
use sparrow_os.Sync.Waiting.{IsSema, Sleeps, Raised, taken, sema_down-Sleeps, sema_up-Raised}
use sparrow_os.Sync.Reentrant.{lock_release-lock_acquire}
use sparrow_os.Sync.System.{System, Reach, start, next, down, outside, got, holding, inside}
use sparrow_os.Sync.Exclusion.{Reach-one_inside}

-- Task 40 waits for a semaphore that is taken.
waiting_40 : IsSema (taken (40 ∷ [])) three_tasks
waiting_40 = record {
  binary = omega arith;
  distinct = (refl, tt);
  all_blocked = λ p i. ground arith;
  no_idle = refl;
}

sema_down-Sleeps_example :
    (s' : Semaphore) × (k' : Kernel) × Sleeps
      (taken (40 ∷ []))
      three_tasks
      (sema_down (taken (40 ∷ [])) three_tasks)
      s'
      k'
sema_down-Sleeps_example =
    sema_down-Sleeps (taken (40 ∷ [])) three_tasks three_tasks-Sound waiting_40 (omega arith) refl

sema_up-Raised_example :
    (s' : Semaphore) × (k' : Kernel) × Raised (taken (40 ∷ [])) three_tasks s' k'
sema_up-Raised_example = sema_up-Raised (40 ∷ []) three_tasks three_tasks-Sound waiting_40

-- Task 10 has passed `sema_down`.
abbrev one_down : System
one_down = record {
  lock = record { holder = 0; holder_repeat_nr = 0; semaphore = taken [] };
  kernel = three_tasks;
  place = λ q. if q == 10 then got else outside;
}

one_down-Reach : Reach one_down
unfolding lock_init sema_init sema_down down_round resume intr_set_status intr_disable intr_enable
    intr_get_status
one_down-Reach = next (start three_tasks) (down (taken []) three_tasks refl (omega arith) refl)

Reach-one_inside_example :
    (inside (one_down.place 10) ≡ true → inside (one_down.place 20) ≡ true → ◌≡◌ {A = ℕ} 10 20)
    × (one_down.place 10 ≡ holding → one_down.lock.holder ≡ 10)
Reach-one_inside_example = Reach-one_inside one_down 10 20 one_down-Reach

-- Task 10 has the lock, twice.
abbrev twice_held : Lock
twice_held = record { holder = 10; holder_repeat_nr = 2; semaphore = taken (40 ∷ []) }

lock_release-lock_acquire_example :
    (l' : Lock) × (lock_acquire twice_held three_tasks ≡ done (ended l' three_tasks))
    × (lock_release l' three_tasks ≡ done (twice_held, three_tasks))
lock_release-lock_acquire_example =
    lock_release-lock_acquire twice_held three_tasks (inl (refl, omega arith, omega arith))
