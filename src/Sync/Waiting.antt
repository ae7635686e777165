-- ===== src/Sync/Waiting.antt =====
-- `sema_down` and `sema_up` of sparrow/thread/sync.c on a sound kernel.
use sparrow_os.Common.{
  ℕ, ◌≡◌, ◌≢◌, ◌≤◌, ◌∙◌, sym, ap, refl, Bool, true, false, List, [], ◌∷◌, ◌++◌, if◌then◌else◌,
  arith, Outcome, done, Bool-cases, inl, inr, eq-true, ◌⊎◌,
}
use sparrow_os.Interrupt.{intr_disable_lem, intr_set_status_lem}
use sparrow_os.LinkedList.View.{elem, ◌∈◌, ◌∉◌, Distinct, elem-append, elem_head}
use sparrow_os.Thread.{
  Kernel, Task, blocked, is_ready, may_block, is_nil, thread_block, thread_unblock, resume,
}
use sparrow_os.Thread.Invariant.{status, Sound, unblocked}
use sparrow_os.Thread.Block.{Switched, thread_block-Switched, thread_unblock-Sound, cur-running}
use sparrow_os.Thread.Schedule.{Distinct-append}
use sparrow_os.Sync.{
  Semaphore, Call, ended, asleep, wait, down_round, sema_down, wake_first, sema_up,
}

-- The waiters are different, blocked, and not the idle task; the semaphore is binary.
pub record IsSema (s : Semaphore) (k : Kernel) : Type 0 where
  pub binary : s.value ≤ 1
  pub distinct : Distinct s.waiters
  pub all_blocked : (p : ℕ) → p ∈ s.waiters → status k p ≡ blocked
  pub no_idle : k.idle_thread ∉ s.waiters

-- Only the interrupt flag differs.
abbrev with_intr : Kernel → Bool → Kernel
with_intr k b = record k { intr = b }

pub with_intr-Sound : (k : Kernel) (b : Bool) → Sound k → Sound (with_intr k b)
with_intr-Sound k b s = record {
  queued = record {
    distinct = s.queued.distinct;
    ready_iff = s.queued.ready_iff;
    idle_alive = s.queued.idle_alive;
  };
  running_iff = s.running_iff;
}

resume_lem : (k : Kernel) (b : Bool) → resume k.intr (with_intr k b) ≡ k
unfolding resume
resume_lem k b = rw (intr_set_status_lem k.intr b) refl

cur_not_waiting : (s : Semaphore) (k : Kernel) → Sound k → IsSema s k → k.cur ∉ s.waiters
cur_not_waiting s k sound w = elim (Bool-cases (elem k.cur s.waiters)) [
  | inr out ↦ out
  | inl here ↦
      let e : status k k.cur ≡ blocked = w.all_blocked k.cur here in
      ground (arith, cur-running k sound)
]

-- `sema_down` of a free semaphore takes it and goes on, with the kernel as it was.
pub down_free :
    (s : Semaphore) (k : Kernel)
    → s.value ≡ 1
    → sema_down s k ≡ done (ended (record s { value = 0 }) k)
unfolding sema_down down_round
down_free s k v = rw (intr_disable_lem k.intr, v, resume_lem k false) refl

down_taken :
    (s : Semaphore) (k k' : Kernel)
    → s.value ≡ 0
    → k.cur ∉ s.waiters
    → thread_block blocked (with_intr k false) ≡ done (false, k')
    → sema_down s k ≡ done (asleep k.intr (record s { waiters = s.waiters ++ k.cur ∷ [] }) k')
unfolding sema_down down_round wait
down_taken s k k' v out e = rw (intr_disable_lem k.intr, v, out, e) refl

-- The thread of `k` sleeps on the semaphore, and the kernel has gone on with another one.
pub record Sleeps (s : Semaphore) (k : Kernel) (o : Outcome (Call Semaphore)) (s' : Semaphore)
    (k' : Kernel) : Type 0 where
  pub runs : o ≡ done (asleep k.intr s' k')
  pub value : s'.value ≡ 0
  pub queue : s'.waiters ≡ s.waiters ++ k.cur ∷ []
  pub sound : Sound k'
  pub is_sema : IsSema s' k'
  pub other : k'.cur ≢ k.cur

first_of : (x i : ℕ) (xs l : List ℕ) → x ∷ xs ≡ (if is_nil l then i ∷ [] else l) → (x ≡ i) ⊎ (x ∈ l)
first_of x i xs [] e = inl (ground arith)
first_of x i xs (y ∷ ys) e = inr (ground arith)

module _ (s : Semaphore) (k k' : Kernel) (sound : Sound k) (w : IsSema s k)
    (busy : k.cur ≢ k.idle_thread)
    (block : Switched
      (with_intr k false)
      blocked
      (if is_nil k.thread_ready_list then k.idle_thread ∷ [] else k.thread_ready_list)
      (thread_block blocked (with_intr k false))
      k') where
  -- A task that neither is the idle task nor is ready is not the next one.
  not_next : (p : ℕ) → p ≢ k.idle_thread → is_ready (status k p) ≡ false → k'.cur ≢ p
  not_next p i r e =
      elim (first_of k'.cur k.idle_thread k'.thread_ready_list k.thread_ready_list block.turn) [
        | inl idle ↦ i (sym e ∙ idle)
        | inr queued ↦ ground (arith, sound.queued.ready_iff p)
      ]

  left_cur : k'.cur ≢ k.cur
  left_cur = not_next k.cur busy (ap is_ready (cur-running k sound))

  waiter_blocked : (p : ℕ) → p ∈ s.waiters → status k' p ≡ blocked
  waiter_blocked p i =
      let out : k.cur ∉ s.waiters = cur_not_waiting s k sound w in
      let c : p ≢ k.cur = λ e. ground arith in
      let d : p ≢ k.idle_thread = λ e. ground (arith, w.no_idle) in
      ap (λ (t : Task). t.status)
        (block.others p c (λ e. not_next p d (ap is_ready (w.all_blocked p i)) (sym e)))
      ∙ w.all_blocked p i

  all_blocked-after : (p : ℕ) → p ∈ s.waiters ++ k.cur ∷ [] → status k' p ≡ blocked
  all_blocked-after p i = elim (Bool-cases (elem p s.waiters)) [
    | inl old ↦ waiter_blocked p old
    | inr new ↦
        let e : p ≡ k.cur =
          eq-true p k.cur (ground (arith, elem-append p s.waiters (k.cur ∷ []))) in
        ap (status k') e ∙ block.left (λ c. left_cur (sym c))
  ]

  after-IsSema : s.value ≡ 0 → IsSema (record s { waiters = s.waiters ++ k.cur ∷ [] }) k'
  after-IsSema v = record {
    binary = omega (arith, v);
    distinct = Distinct-append s.waiters k.cur w.distinct (cur_not_waiting s k sound w);
    all_blocked = all_blocked-after;
    no_idle =
        ap (λ i. elem i (s.waiters ++ k.cur ∷ [])) block.idle
        ∙ ground (arith, elem-append k.idle_thread s.waiters (k.cur ∷ []), w.no_idle);
  }

-- `sema_down` of a taken semaphore by a task other than the idle task always puts the task to sleep
-- as the last waiter. The kernel and the semaphore stay sound, and another task runs.
pub sema_down-Sleeps :
    (s : Semaphore) (k : Kernel)
    → Sound k
    → IsSema s k
    → k.cur ≢ k.idle_thread
    → s.value ≡ 0
    → (s' : Semaphore) × (k' : Kernel) × Sleeps s k (sema_down s k) s' k'
sema_down-Sleeps s k sound w busy v =
    let (k', block) =
      thread_block-Switched blocked (with_intr k false) (with_intr-Sound k false sound) refl in
    (
      record s { waiters = s.waiters ++ k.cur ∷ [] },
      k',
      record {
        runs = down_taken s k k' v (cur_not_waiting s k sound w) block.runs;
        value = v;
        queue = refl;
        sound = block.sound;
        is_sema = after-IsSema s k k' sound w busy block v;
        other = left_cur s k k' sound w busy block;
      },
    )

-- A semaphore is free after `sema_up`, and its first waiter is ready.
pub record Raised (s : Semaphore) (k : Kernel) (s' : Semaphore) (k' : Kernel) : Type 0 where
  pub runs : sema_up s k ≡ done (s', k')
  pub value : s'.value ≡ 1
  pub waiters :
      (is_nil s.waiters ≡ true × (k' ≡ k) × (s'.waiters ≡ []))
      ⊎ ((p : ℕ) × (rest : List ℕ) × (s.waiters ≡ p ∷ rest)
          × (s'.waiters ≡ rest)
          × (k' ≡ unblocked p k))
  pub sound : Sound k'
  pub is_sema : IsSema s' k'

pub up_none :
    (k : Kernel)
    → (sema_up (record { value = 0; waiters = [] }) k)
      ≡ done (record { value = 1; waiters = [] }, k)
unfolding sema_up wake_first
up_none k = rw (intr_disable_lem k.intr, resume_lem k false) refl

up_some :
    (p : ℕ) (rest : List ℕ) (k : Kernel)
    → thread_unblock p (with_intr k false) ≡ done (unblocked p (with_intr k false))
    → sema_up (record { value = 0; waiters = p ∷ rest }) k
      ≡ done (record { value = 1; waiters = rest }, unblocked p k)
unfolding sema_up wake_first
up_some p rest k e = rw (intr_disable_lem k.intr, e, resume_lem (unblocked p k) false) refl

-- A binary semaphore that is taken, with its waiters.
abbrev pub taken : List ℕ → Semaphore
taken ws = record { value = 0; waiters = ws }

-- `sema_up` of a taken semaphore always frees it; it leaves the kernel as it was when nobody waits,
-- and makes the first waiter ready otherwise. The kernel and the semaphore stay sound.
pub sema_up-Raised :
    (ws : List ℕ) (k : Kernel)
    → Sound k
    → IsSema (taken ws) k
    → (s' : Semaphore) × (k' : Kernel) × Raised (taken ws) k s' k'
sema_up-Raised [] k sound w = (
  record { value = 1; waiters = [] },
  k,
  record {
    runs = up_none k;
    value = refl;
    waiters = inl (refl, refl, refl);
    sound = sound;
    is_sema = record {
      binary = omega arith;
      distinct = tt;
      all_blocked = λ p i. ground arith;
      no_idle = refl;
    };
  },
)
sema_up-Raised (p ∷ rest) k sound w =
    let may : may_block (status k p) ≡ true = ap may_block (w.all_blocked p (elem_head p rest)) in
    let (runs, after) = thread_unblock-Sound p k sound may in
    (
      record { value = 1; waiters = rest },
      unblocked p k,
      record {
        runs =
            up_some p rest k
              (thread_unblock-Sound p (with_intr k false) (with_intr-Sound k false sound) may).0;
        value = refl;
        waiters = inr (p, rest, refl, refl, refl);
        sound = after;
        is_sema = record {
          binary = omega arith;
          distinct = w.distinct.1;
          all_blocked = λ q i. ground (arith, w.all_blocked q, w.distinct.0);
          no_idle = ground (arith, w.no_idle);
        };
      },
    )
