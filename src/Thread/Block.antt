-- ===== src/Thread/Block.antt =====
-- `thread_block`, `thread_yield`, `thread_unblock` and the clock: what they make of a running
-- kernel.
use sparrow_os.Common.{
  ℕ, ◌≡◌, ◌≢◌, refl, ap, ◌∙◌, sym, Bool, true, false, List, [], ◌∷◌, ◌++◌, arith, if◌then◌else◌,
  Outcome, done, eq-true, eq_self,
}
use sparrow_os.Interrupt.{intr_disable_lem, intr_set_status_lem}
use sparrow_os.LinkedList.View.{◌∉◌, elem-append}
use sparrow_os.Thread.{
  Kernel, Task, TaskStatus, running, ready, is_running, is_ready, may_block, set_status, schedule,
  is_nil, thread_block, thread_yield, thread_unblock, resume,
}
use sparrow_os.Thread.Invariant.{
  status, Sound, unblocked, thread_unblock-unblocked, unblocked-Queued, not_running_of_may_block,
}
use sparrow_os.Thread.Schedule.{
  Ready, schedule-Scheduled, put_task, turns_or_idle, turns_or_idle_stopped, Distinct-append,
}

pub Sound-Ready : (k : Kernel) → Sound k → Ready k
Sound-Ready k s = record {
  queued = s.queued;
  only_cur = λ p r. eq-true p k.cur (sym (s.running_iff p) ∙ r);
}

pub cur-running : (k : Kernel) → Sound k → status k k.cur ≡ running
cur-running k s = ground (arith, s.running_iff k.cur, eq_self k.cur)

-- The kernel when `thread_block` calls `schedule`.
abbrev halted : TaskStatus → Kernel → Kernel
halted stat k = set_status (record k { intr = false }) k.cur stat

halted-Ready :
    (stat : TaskStatus) (k : Kernel) → Sound k → may_block stat ≡ true → Ready (halted stat k)
halted-Ready stat k s may = record {
  queued = record {
    distinct = s.queued.distinct;
    ready_iff = λ p. ground (arith, s.queued.ready_iff p, s.running_iff p);
    idle_alive = ground (arith, s.queued.idle_alive);
  };
  only_cur = λ p. ground (arith, s.running_iff p);
}

-- The kernel when `thread_yield` calls `schedule`.
abbrev yielded : Kernel → Kernel
yielded k = record (set_status k k.cur ready) {
  intr = false;
  thread_ready_list = k.thread_ready_list ++ k.cur ∷ [];
}

cur-out : (k : Kernel) → Sound k → k.cur ∉ k.thread_ready_list
cur-out k s = s.queued.ready_iff k.cur ∙ ap is_ready (cur-running k s)

yielded-Ready : (k : Kernel) → Sound k → Ready (yielded k)
yielded-Ready k s = record {
  queued = record {
    distinct = Distinct-append k.thread_ready_list k.cur s.queued.distinct (cur-out k s);
    ready_iff =
        λ p. ground (arith, s.queued.ready_iff p, elem-append p k.thread_ready_list (k.cur ∷ []));
    idle_alive = ground (arith, s.queued.idle_alive);
  };
  only_cur = λ p. ground (arith, s.running_iff p);
}

-- The call `o` switches from `k` to `k'` and leaves `status` for the task that called; `queue` are
-- the tasks that were before it in the queue.
pub record Switched (k : Kernel) (stat : TaskStatus) (queue : List ℕ) (o : Outcome (Bool × Kernel))
    (k' : Kernel) : Type 0 where
  pub runs : o ≡ done (k.intr, k')
  pub sound : Sound k'
  pub turn : k'.cur ∷ k'.thread_ready_list ≡ queue
  pub left : k.cur ≢ k'.cur → status k' k.cur ≡ stat
  pub others : (p : ℕ) → p ≢ k.cur → p ≢ k'.cur → k'.tasks p ≡ k.tasks p
  pub idle : k'.idle_thread ≡ k.idle_thread
  pub resumed : (resume k.intr k').intr ≡ k.intr

resume-intr : (old : Bool) (k : Kernel) → (resume old k).intr ≡ old
unfolding resume
resume-intr old k = intr_set_status_lem old k.intr

thread_block-schedule :
    (stat : TaskStatus) (k k' : Kernel)
    → may_block stat ≡ true
    → schedule (halted stat k) ≡ done k'
    → thread_block stat k ≡ done (k.intr, k')
unfolding thread_block
thread_block-schedule stat k k' may e = rw (may, intr_disable_lem k.intr, e) refl

thread_yield-schedule :
    (k k' : Kernel) → Sound k → schedule (yielded k) ≡ done k' → thread_yield k ≡ done (k.intr, k')
unfolding thread_yield
thread_yield-schedule k k' s e = rw (intr_disable_lem k.intr, cur-out k s, e) refl

halted-status : (stat : TaskStatus) (k : Kernel) → status (halted stat k) k.cur ≡ stat
halted-status stat k = ground (arith, eq_self k.cur)

halted-others :
    (stat : TaskStatus) (k : Kernel) (p : ℕ) → p ≢ k.cur → (halted stat k).tasks p ≡ k.tasks p
halted-others stat k p o = ground arith

halted-put :
    (stat : TaskStatus) (k : Kernel)
    → may_block stat ≡ true
    → (put_task ((halted stat k).tasks k.cur)).status ≡ stat
halted-put stat k may = rw (eq_self k.cur, not_running_of_may_block stat may) refl

yielded-put : (k : Kernel) → (put_task ((yielded k).tasks k.cur)).status ≡ ready
yielded-put k = ground (arith, eq_self k.cur)

pub nonempty : (xs : List ℕ) (x : ℕ) → is_nil (xs ++ x ∷ []) ≡ false
nonempty [] x = refl
nonempty (y ∷ ys) x = refl

yielded-turns : (k : Kernel) → turns_or_idle (yielded k) ≡ k.thread_ready_list ++ k.cur ∷ []
yielded-turns k =
    turns_or_idle_stopped (yielded k) (ground (arith, eq_self k.cur))
    ∙ rw (nonempty k.thread_ready_list k.cur) refl

-- A task of a sound kernel that blocks itself always leaves a sound kernel, in which the first
-- ready task runs, or the idle task when none is.
pub thread_block-Switched :
    (stat : TaskStatus) (k : Kernel)
    → Sound k
    → may_block stat ≡ true
    → (k' : Kernel) × Switched k stat
        (if is_nil k.thread_ready_list then k.idle_thread ∷ [] else k.thread_ready_list)
        (thread_block stat k)
        k'
thread_block-Switched stat k s may =
    let (k', w) = schedule-Scheduled (halted stat k) (halted-Ready stat k s may) refl in
    (
      k',
      record {
        runs = thread_block-schedule stat k k' may w.runs;
        sound = w.sound;
        turn =
            w.turn
            ∙ turns_or_idle_stopped (halted stat k)
                (ap is_running (halted-status stat k) ∙ not_running_of_may_block stat may);
        left = λ n. ap (λ (t : Task). t.status) (w.left n) ∙ halted-put stat k may;
        others = λ p o n. w.others p o n ∙ halted-others stat k p o;
        idle = w.idle;
        resumed = resume-intr k.intr k';
      },
    )

-- A task of a sound kernel that yields always leaves a sound kernel, in which it waits behind all
-- ready tasks and the first of them runs; it runs on when none is ready.
pub thread_yield-Switched :
    (k : Kernel)
    → Sound k
    → (k' : Kernel) × Switched k ready (k.thread_ready_list ++ k.cur ∷ []) (thread_yield k) k'
thread_yield-Switched k s =
    let (k', w) = schedule-Scheduled (yielded k) (yielded-Ready k s) refl in
    (
      k',
      record {
        runs = thread_yield-schedule k k' s w.runs;
        sound = w.sound;
        turn = w.turn ∙ yielded-turns k;
        left = λ n. ap (λ (t : Task). t.status) (w.left n) ∙ yielded-put k;
        others = λ p o n. w.others p o n ∙ halted-others ready k p o;
        idle = w.idle;
        resumed = resume-intr k.intr k';
      },
    )

-- `thread_unblock` of a task that is blocked, waiting or hanging makes it ready, in front of all
-- others, and the kernel stays sound.
pub thread_unblock-Sound :
    (p : ℕ) (k : Kernel)
    → Sound k
    → may_block (status k p) ≡ true
    → (thread_unblock p k ≡ done (unblocked p k)) × Sound (unblocked p k)
thread_unblock-Sound p k s may = (
  thread_unblock-unblocked p k s.queued may,
  record {
    queued = unblocked-Queued p k s.queued may;
    running_iff = λ q. ground (arith, s.running_iff q, not_running_of_may_block (status k p) may);
  },
)
