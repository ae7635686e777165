-- ===== src/Thread/Invariant.antt =====
-- The invariant of the scheduler of sparrow/thread/thread.c, and `thread_unblock`.
use sparrow_os.Common.{ℕ, ◌≡◌, ◌≢◌, ◌∙◌, true, false, ◌∷◌, arith, ◌==◌, done}
use sparrow_os.LinkedList.View.{elem, Distinct}
use sparrow_os.Interrupt.{intr_set_status-intr_disable}
use sparrow_os.Thread.{
  Kernel, TaskStatus, ready, died, is_running, is_ready, may_block, set_status, thread_unblock,
}

abbrev pub status : Kernel → ℕ → TaskStatus
status k p = (k.tasks p).status

-- The ready list holds the ready tasks, each once, and the idle task has not died.
pub record Queued (k : Kernel) : Type 0 where
  pub distinct : Distinct k.thread_ready_list
  pub ready_iff : (p : ℕ) → elem p k.thread_ready_list ≡ is_ready (status k p)
  pub idle_alive : status k k.idle_thread ≢ died

-- Between two tasks: none runs.
pub record Parked (k : Kernel) : Type 0 where
  pub queued : Queued k
  pub none_runs : (p : ℕ) → is_running (status k p) ≡ false

-- The running task is `cur` and no other.
pub record Sound (k : Kernel) : Type 0 where
  pub queued : Queued k
  pub running_iff : (p : ℕ) → is_running (status k p) ≡ (p == k.cur)

pub not_ready_of_may_block : (s : TaskStatus) → may_block s ≡ true → is_ready s ≡ false
not_ready_of_may_block s h = ground arith

pub not_running_of_may_block : (s : TaskStatus) → may_block s ≡ true → is_running s ≡ false
not_running_of_may_block s h = ground arith

-- The kernel after `thread_unblock p`.
abbrev pub unblocked : ℕ → Kernel → Kernel
unblocked p k = record (set_status k p ready) { thread_ready_list = p ∷ k.thread_ready_list }

pub thread_unblock-unblocked :
    (p : ℕ) (k : Kernel)
    → Queued k
    → may_block (status k p) ≡ true
    → thread_unblock p k ≡ done (unblocked p k)
unfolding thread_unblock
thread_unblock-unblocked p k q may =
    let out : elem p k.thread_ready_list ≡ false =
      q.ready_iff p ∙ not_ready_of_may_block (status k p) may in
    rw (may, not_ready_of_may_block (status k p) may, out, intr_set_status-intr_disable k.intr)

pub unblocked-Queued :
    (p : ℕ) (k : Kernel) → Queued k → may_block (status k p) ≡ true → Queued (unblocked p k)
unblocked-Queued p k q may = record {
  distinct = (q.ready_iff p ∙ not_ready_of_may_block (status k p) may, q.distinct);
  ready_iff = λ r. ground (arith, q.ready_iff r);
  idle_alive = ground (arith, q.idle_alive);
}
