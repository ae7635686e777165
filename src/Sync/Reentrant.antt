-- ===== src/Sync/Reentrant.antt =====
-- `lock_acquire` and `lock_release` of sparrow/thread/sync.c undo each other.
use sparrow_os.Common.{
  ◌≡◌, ◌≢◌, ◌≤◌, ◌<◌, ◌^◌, refl, sym, subst, ◌+◌, ◌-◌, true, false, [], ltb, ◌==◌, arith, add32,
  done, inl, inr, eq_self, ◌⊎◌,
}
use sparrow_os.Thread.{Kernel}
use sparrow_os.Sync.{Lock, ended, take_lock, lock_acquire, lock_release, clear_holder}
use sparrow_os.Sync.Waiting.{down_free, up_none, taken}

-- The running task has the lock, and not as often as the counter can count.
abbrev pub HasLock : Lock → Kernel → Type 0
HasLock l k = (l.holder ≡ k.cur) × (1 ≤ l.holder_repeat_nr) × (l.holder_repeat_nr + 1 < 2 ^ 32)

abbrev pub free_lock : Lock
free_lock = record {
  holder = 0;
  holder_repeat_nr = 0;
  semaphore = record { value = 1; waiters = [] };
}

-- `lock_acquire` ends at once, and `lock_release` then gives the lock and the kernel back.
abbrev Undone : Lock → Kernel → Type 0
Undone l k =
    (l' : Lock) × (lock_acquire l k ≡ done (ended l' k)) × (lock_release l' k ≡ done (l, k))

nested : (l : Lock) (k : Kernel) → HasLock l k → Undone l k
unfolding lock_acquire lock_release
nested l k (own, some_nr, room) =
    let test : (l.holder == k.cur) ≡ true = ground (arith, eq_self k.cur) in
    let more : ltb 1 (add32 l.holder_repeat_nr 1) ≡ true = ground arith in
    let back : add32 l.holder_repeat_nr 1 - 1 ≡ l.holder_repeat_nr = omega arith in
    (
      record l { holder_repeat_nr = add32 l.holder_repeat_nr 1 },
      rw test refl,
      rw (test, more, back) refl,
    )

outer : (k : Kernel) → k.cur ≢ 0 → Undone free_lock k
unfolding lock_acquire lock_release take_lock clear_holder
outer k n =
    let test : (0 == k.cur) ≡ false = ground arith in
    (
      record { holder = k.cur; holder_repeat_nr = 1; semaphore = taken [] },
      rw (test, down_free free_lock.semaphore k refl) refl,
      rw (eq_self k.cur, up_none k) refl,
    )

-- `lock_release` undoes `lock_acquire`, at a task that has the lock already and at a lock that is
-- free and has no waiters.
pub lock_release-lock_acquire :
    (l : Lock) (k : Kernel)
    → HasLock l k ⊎ ((l ≡ free_lock) × (k.cur ≢ 0))
    → (l' : Lock) × (lock_acquire l k ≡ done (ended l' k)) × (lock_release l' k ≡ done (l, k))
lock_release-lock_acquire l k (inl has) = nested l k has
lock_release-lock_acquire l k (inr (free, n)) = subst (λ m. Undone m k) (sym free) (outer k n)
