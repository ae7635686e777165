-- ===== src/Sync/Effects.antt =====
-- What the calls of sparrow/thread/sync.c change of a semaphore and a lock, wherever they end.
use sparrow_os.Common.{
  ℕ, ◌≡◌, refl, ◌-◌, ◌+◌, ◌%◌, Bool, true, false, not, ltb, ◌==◌, arith, Outcome, done, panic,
  out_of_fuel, ◌>>=◌, Bool-cases, inl, inr, eq_self, eq-true, assert_then,
}
use sparrow_os.Thread.{Kernel, resume, thread_block, blocked}
use sparrow_os.Sync.{
  Semaphore, Lock, Call, ended, asleep, wait, down_round, sema_down, resume_down, wake_first,
  sema_up, take_lock, lock_acquire, lock_release,
}
use sparrow_os.LinkedList.View.{elem}
use sparrow_os.Interrupt.{intr_disable}

-- What a call of `sema_down` that ends has seen and done; one that sleeps keeps the value.
abbrev pub DownDid : Semaphore → Outcome (Call Semaphore) → Type 0
DownDid s (done (ended s' k)) = (s.value ≡ 1) × (s'.value ≡ 0)
DownDid s (done (asleep b s' k)) = s'.value ≡ s.value
DownDid s panic = Unit
DownDid s out_of_fuel = Unit

pub assert-DownDid :
    (s : Semaphore) (c : Bool) (o : Outcome (Call Semaphore))
    → DownDid s o
    → DownDid s (assert_then c o)
assert-DownDid s true o h = h
assert-DownDid s false o h = tt

pub sleep-DownDid :
    (s s' : Semaphore) (b : Bool) (o : Outcome (Bool × Kernel))
    → s'.value ≡ s.value
    → DownDid s (o >>= λ (off, k'). done (asleep b s' k'))
sleep-DownDid s s' b (done (off, k')) e = e
sleep-DownDid s s' b panic e = tt
sleep-DownDid s s' b out_of_fuel e = tt

pub wait-DownDid : (b : Bool) (s : Semaphore) (k : Kernel) → DownDid s (wait b s k)
unfolding wait
wait-DownDid b s k =
    assert-DownDid s (not (elem k.cur s.waiters)) _
      (sleep-DownDid s _ b (thread_block blocked k) refl)

pub down_round-DownDid : (b : Bool) (s : Semaphore) (k : Kernel) → DownDid s (down_round b s k)
unfolding down_round
down_round-DownDid b s k = elim (Bool-cases (s.value == 0)) [
  | inl none_left ↦ rw none_left (wait-DownDid b s k)
  | inr some_left ↦ elim (Bool-cases (s.value - 1 == 0)) [
    | inl one ↦ rw (some_left, one) (ground arith, eq-true (s.value - 1) 0 one)
    | inr more ↦ rw (some_left, more) tt
  ]
]

pub down-DownDid : (s : Semaphore) (k : Kernel) → DownDid s (sema_down s k)
unfolding sema_down
down-DownDid s k = down_round-DownDid (intr_disable k.intr).0 s _

pub resume-DownDid : (b : Bool) (s : Semaphore) (k : Kernel) → DownDid s (resume_down b s k)
unfolding resume_down
resume-DownDid b s k = down_round-DownDid b s _

abbrev pub UpDid : Semaphore → Outcome (Semaphore × Kernel) → Type 0
UpDid s (done (s', k)) = (s.value ≡ 0) × (s'.value ≡ 1)
UpDid s panic = Unit
UpDid s out_of_fuel = Unit

pub raise-UpDid :
    (s : Semaphore) (old : Bool) (o : Outcome (Semaphore × Kernel))
    → s.value ≡ 0
    → UpDid s (
        o >>= λ (s', k').
        assert_then
          ((s'.value + 1) % 256 == 1)
          (done (record s' { value = (s'.value + 1) % 256 }, resume old k')))
raise-UpDid s old (done (s', k')) z = elim (Bool-cases ((s'.value + 1) % 256 == 1)) [
  | inl one ↦ rw one (z, eq-true ((s'.value + 1) % 256) 1 one)
  | inr other ↦ rw other tt
]
raise-UpDid s old panic z = tt
raise-UpDid s old out_of_fuel z = tt

pub up-UpDid : (s : Semaphore) (k : Kernel) → UpDid s (sema_up s k)
unfolding sema_up
up-UpDid s k = elim (Bool-cases (s.value == 0)) [
  | inl none_left ↦
      rw none_left
        (raise-UpDid s (intr_disable k.intr).0 (wake_first s _) (eq-true s.value 0 none_left))
  | inr other ↦ rw other tt
]

-- What `lock_acquire` and `lock_release` change of the lock, when they end.
abbrev pub KeepsLock : ℕ → Semaphore → Outcome (Call Lock) → Type 0
KeepsLock h s (done (ended l k)) = (l.holder ≡ h) × (l.semaphore.value ≡ s.value)
KeepsLock h s o = Unit

pub take-KeepsLock :
    (l : Lock) (s : Semaphore) (k : Kernel) → KeepsLock k.cur s (take_lock l (ended s k))
unfolding take_lock
take-KeepsLock l s k = elim (Bool-cases (l.holder_repeat_nr == 0)) [
  | inl zero_nr ↦ rw zero_nr (refl, refl)
  | inr other ↦ rw other tt
]

pub again-KeepsLock :
    (l : Lock) (k : Kernel) → l.holder ≡ k.cur → KeepsLock k.cur l.semaphore (lock_acquire l k)
unfolding lock_acquire
again-KeepsLock l k e =
    let test : (l.holder == k.cur) ≡ true = ground (arith, eq_self k.cur) in rw test (e, refl)

abbrev pub KeepsRelease : Lock → Outcome (Lock × Kernel) → Type 0
KeepsRelease l (done (l', k)) = (l'.holder ≡ l.holder) × (l'.semaphore.value ≡ l.semaphore.value)
KeepsRelease l o = Unit

pub inner-KeepsRelease :
    (l : Lock) (k : Kernel) → ltb 1 l.holder_repeat_nr ≡ true → KeepsRelease l (lock_release l k)
unfolding lock_release
inner-KeepsRelease l k e = elim (Bool-cases (l.holder == k.cur)) [
  | inl own ↦ rw (own, e) (refl, refl)
  | inr other ↦ rw other tt
]
