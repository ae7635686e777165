-- ===== src/Thread/Tests.antt =====
-- Runs of the scheduler and the pid pool on small kernels, and the theorems at them.
use sparrow_os.Common.{ℕ, ◌≡◌, refl, false, [], ◌∷◌, arith, ◌==◌, if◌then◌else◌, none, done}
use sparrow_os.Thread.{
  Kernel, Task, ready, running, blocked, waiting, PidPool, allocate_pid, pid_pool_init,
  thread_block, thread_yield, thread_unblock,
}
use sparrow_os.Thread.Invariant.{Sound, unblocked}
use sparrow_os.Thread.Schedule.{Ready, Scheduled, schedule-Scheduled}
use sparrow_os.Thread.Block.{
  Switched, thread_block-Switched, thread_yield-Switched, thread_unblock-Sound,
}
use sparrow_os.Thread.Clock.{Ticked, intr_timer_handler-Ticked}
use sparrow_os.Thread.Pid.{
  IsPool, InPool, Allocated, allocate_pid-Changed, pid_pool_init-IsPool, live,
}

abbrev pub task_at : ℕ → Task
task_at p = record {
  pid = p;
  status = if p == 10 then running else if p == 20 then ready else blocked;
  priority = 31;
  ticks = 5;
  elapsed_ticks = 0;
  pgdir = false;
  fd_table = λ fd. none;
  cwd_inode_nr = 0;
  parent_pid = none;
  exit_status = 0;
  stack_magic = 0x19870916;
}

-- Task 10 runs, task 20 is ready, the idle task 30 and all others are blocked.
abbrev pub three_tasks : Kernel
three_tasks = record {
  intr = false;
  cur = 10;
  thread_ready_list = 20 ∷ [];
  thread_all_list = 10 ∷ 20 ∷ 30 ∷ [];
  tasks = task_at;
  idle_thread = 30;
  main_thread = 10;
  ticks = 0;
}

pub three_tasks-Sound : Sound three_tasks
three_tasks-Sound = record {
  queued = record {
    distinct = (refl, tt);
    ready_iff = λ p. ground arith;
    idle_alive = ground arith;
  };
  running_iff = λ p. ground arith;
}

thread_block-Switched_example :
    (k' : Kernel) × Switched three_tasks waiting (20 ∷ []) (thread_block waiting three_tasks) k'
thread_block-Switched_example = thread_block-Switched waiting three_tasks three_tasks-Sound refl

thread_yield-Switched_example :
    (k' : Kernel) × Switched three_tasks ready (20 ∷ 10 ∷ []) (thread_yield three_tasks) k'
thread_yield-Switched_example = thread_yield-Switched three_tasks three_tasks-Sound

thread_unblock-Sound_example :
    (thread_unblock 30 three_tasks ≡ done (unblocked 30 three_tasks))
    × Sound (unblocked 30 three_tasks)
thread_unblock-Sound_example = thread_unblock-Sound 30 three_tasks three_tasks-Sound refl

three_tasks-Ready : Ready three_tasks
three_tasks-Ready = record { queued = three_tasks-Sound.queued; only_cur = λ p. ground arith }

schedule-Scheduled_example : (k' : Kernel) × Scheduled three_tasks k'
schedule-Scheduled_example = schedule-Scheduled three_tasks three_tasks-Ready refl

intr_timer_handler-Ticked_example : (k' : Kernel) × Ticked three_tasks k'
intr_timer_handler-Ticked_example =
    intr_timer_handler-Ticked three_tasks three_tasks-Sound refl refl

abbrev new_pool : PidPool
new_pool = pid_pool_init (λ k. 7)

new_pool-IsPool : IsPool new_pool × ((pid : ℕ) → InPool pid → live new_pool pid ≡ false)
new_pool-IsPool = pid_pool_init-IsPool (λ k. 7) (λ k. omega arith)

allocate_pid-Changed_example : Allocated new_pool (allocate_pid new_pool)
allocate_pid-Changed_example =
    allocate_pid-Changed new_pool 3 new_pool-IsPool.0 (omega arith, omega arith)
      (new_pool-IsPool.1 3 (omega arith, omega arith))
