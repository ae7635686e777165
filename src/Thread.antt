-- ===== src/Thread.antt =====
-- sparrow/thread/thread.c and the clock of sparrow/device/timer.c: tasks and their scheduling. A
-- task is named by the address of its PCB. The lists are the sequences that they stand for
-- (LinkedList), so `list_push` puts an element in front and `list_append` at the end. The machine
-- runs one task, `cur`; `switch_to` makes another one it. Code behind a call of `schedule` runs
-- when its task is resumed, and is a function of its own (`resume`).
pub mod Invariant
pub mod Schedule
pub mod Block
pub mod Clock
pub mod Start
pub mod Pid
pub mod Tests
use sparrow_os.Common.{
  ℕ, zero, suc, ◌+◌, ◌-◌, ◌%◌, ◌^◌, Bool, true, false, not, ◌&&◌, ◌||◌, Option, none, some, List,
  [], ◌∷◌, ◌++◌, ltb, ◌==◌, if◌then◌else◌, add32, sub32, Outcome, done, panic, out_of_fuel, ◌>>=◌,
  assert_then, or_panic,
}
use sparrow_os.LinkedList.View.{elem}
use sparrow_os.Interrupt.{intr_disable, intr_set_status}
use sparrow_os.Bitmap.{Bitmap, bitmap_init, bitmap_scan, bitmap_set}

pub data TaskStatus : Type 0 where
  running ready blocked waiting hanging died : TaskStatus

-- The fields of `struct task_struct` that the scheduler, the process calls and the file calls
-- use. -1 is `none` in `parent_pid` and `fd_table`; `pgdir` says whether the task has one.
pub record Task : Type 0 where
  pub pid : ℕ
  pub status : TaskStatus
  pub priority : ℕ
  pub ticks : ℕ
  pub elapsed_ticks : ℕ
  pub pgdir : Bool
  pub fd_table : ℕ → Option ℕ
  pub cwd_inode_nr : ℕ
  pub parent_pid : Option ℕ
  pub exit_status : ℕ
  pub stack_magic : ℕ

pub record Kernel : Type 0 where
  pub intr : Bool
  pub cur : ℕ
  pub thread_ready_list : List ℕ
  pub thread_all_list : List ℕ
  pub tasks : ℕ → Task
  pub idle_thread : ℕ
  pub main_thread : ℕ
  pub ticks : ℕ

abbrev pub set_task : Kernel → ℕ → Task → Kernel
set_task k p t = record k { tasks = λ q. if q == p then t else k.tasks q }

abbrev pub set_status : Kernel → ℕ → TaskStatus → Kernel
set_status k p s = record k {
  tasks = λ q. if q == p then record (k.tasks p) { status = s } else k.tasks q;
}

abbrev pub is_running : TaskStatus → Bool
is_running running = true
is_running s = false

abbrev pub is_ready : TaskStatus → Bool
is_ready ready = true
is_ready s = false

-- TASK_BLOCKED, TASK_WAITING or TASK_HANGING.
abbrev pub may_block : TaskStatus → Bool
may_block blocked = true
may_block waiting = true
may_block hanging = true
may_block s = false

pub thread_unblock : ℕ → Kernel → Outcome Kernel
thread_unblock pthread k =
    let (old_status, off) = intr_disable k.intr in
    let status = (k.tasks pthread).status in
    assert_then (may_block status) (
      if not (is_ready status)
      then assert_then (not (elem pthread k.thread_ready_list)) (
          let k' = set_status k pthread ready in
          done (record k' {
            thread_ready_list = pthread ∷ k.thread_ready_list;
            intr = (intr_set_status old_status off).1;
          }))
      else done (record k { intr = (intr_set_status old_status off).1 }))

-- The first half of `schedule`: a task whose time is up goes to the end of the ready list.
pub put_down : Kernel → Outcome Kernel
put_down k =
    let t = k.tasks k.cur in
    if is_running t.status
    then assert_then (not (elem k.cur k.thread_ready_list)) (
        let k' = set_task k k.cur (record t { ticks = t.priority; status = ready }) in
        done (record k' { thread_ready_list = k.thread_ready_list ++ k.cur ∷ [] }))
    else done k

-- The last part: the first ready task is made the running one.
pub switch_next : Kernel → Outcome Kernel
switch_next k = elim k.thread_ready_list [
  | [] ↦ panic
  | next ∷ rest ↦
      let k' = set_status k next running in
      done (record k' { thread_ready_list = rest; cur = next })
]

abbrev pub is_nil : List ℕ → Bool
is_nil [] = true
is_nil (x ∷ xs) = false

pub wake_idle : Kernel → Outcome Kernel
wake_idle k = if is_nil k.thread_ready_list then thread_unblock k.idle_thread k else done k

pub schedule : Kernel → Outcome Kernel
schedule k = assert_then (not k.intr) (put_down k >>= wake_idle >>= switch_next)

-- Up to the switch; the result also has the status that `resume` restores.
pub thread_block : TaskStatus → Kernel → Outcome (Bool × Kernel)
thread_block stat k = assert_then (may_block stat) (
    let (old_status, off) = intr_disable k.intr in
    schedule (set_status (record k { intr = off }) k.cur stat) >>= λ (k' : Kernel).
    done (old_status, k'))

pub thread_yield : Kernel → Outcome (Bool × Kernel)
thread_yield k =
    let (old_status, off) = intr_disable k.intr in
    assert_then (not (elem k.cur k.thread_ready_list)) (
      let k' = set_status k k.cur ready in
      schedule (record k' { intr = off; thread_ready_list = k.thread_ready_list ++ k.cur ∷ [] })
      >>= λ (k'' : Kernel). done (old_status, k''))

-- What `thread_block` and `thread_yield` do when their task runs again.
unfoldable pub resume : Bool → Kernel → Kernel
resume old_status k = record k { intr = (intr_set_status old_status k.intr).1 }

-- `intr_timer_handler`. `ticks` is a `uint8_t`.
pub intr_timer_handler : Kernel → Outcome Kernel
intr_timer_handler k =
    let t = k.tasks k.cur in
    assert_then (t.stack_magic == 0x19870916) (
      let counted = record t { elapsed_ticks = add32 t.elapsed_ticks 1 } in
      let k' = record (set_task k k.cur counted) { ticks = add32 k.ticks 1 } in
      if t.ticks == 0
      then schedule k'
      else done (set_task k' k.cur (record counted { ticks = t.ticks - 1 })))

-- `struct pid_pool`.
pub record PidPool : Type 0 where
  pub pid_bitmap : Bitmap
  pub pid_start : ℕ

pub pid_pool_init : (ℕ → ℕ) → PidPool
pid_pool_init bits = record {
  pid_start = 1;
  pid_bitmap = bitmap_init (record { btmp_bytes_len = 128; bits = bits });
}

-- -1 as an `int32_t` is handed to `bitmap_set` as a `uint32_t`.
abbrev pub as_index : Option ℕ → ℕ
as_index none = 2 ^ 32 - 1
as_index (some i) = i

-- A `pid_t` has 16 bits.
-- The scan and the write happen under `pid_lock`, which no other code takes, so they are one step.
pub allocate_pid : PidPool → Outcome (ℕ × PidPool)
allocate_pid pool = bitmap_scan pool.pid_bitmap 1 >>= λ (bit_idx : Option ℕ).
    or_panic (bitmap_set pool.pid_bitmap (as_index bit_idx) 1) >>= λ (map : Bitmap).
    done (add32 (as_index bit_idx) pool.pid_start % 2 ^ 16, record pool { pid_bitmap = map })

pub release_pid : ℕ → PidPool → Outcome PidPool
release_pid pid pool =
    or_panic (bitmap_set pool.pid_bitmap (sub32 pid pool.pid_start) 0) >>= λ (map : Bitmap).
    done (record pool { pid_bitmap = map })

-- `init_thread`, with the pid that `allocate_pid` gave. `priority` and `ticks` are `uint8_t`. The
-- name, which `strcpy` puts into 16 bytes, and the stack pointers are not kept.
pub init_thread : Kernel → ℕ → ℕ → ℕ → Task
init_thread k pthread prio pid = record {
  pid = pid;
  status = if pthread == k.main_thread then running else ready;
  priority = prio % 256;
  ticks = prio % 256;
  elapsed_ticks = 0;
  pgdir = false;
  fd_table = λ fd. if ltb fd 3 then some fd else none;
  cwd_inode_nr = 0;
  parent_pid = none;
  exit_status = 0;
  stack_magic = 0x19870916;
}

-- `thread_start` on the page `thread`: the new task is ready, behind all others.
pub thread_start : ℕ → ℕ → ℕ → Kernel → Outcome Kernel
thread_start thread prio pid k = assert_then (not (elem thread k.thread_ready_list)) (
    assert_then (not (elem thread k.thread_all_list)) (
      let k' = set_task k thread (init_thread k thread prio pid) in
      done (record k' {
        thread_ready_list = k.thread_ready_list ++ thread ∷ [];
        thread_all_list = k.thread_all_list ++ thread ∷ [];
      })))

-- `pid2thread`: the first task of the list with the pid.
pub pid2thread : Kernel → List ℕ → ℕ → Option ℕ
pid2thread k [] pid = none
pid2thread k (p ∷ ps) pid = if (k.tasks p).pid == pid then some p else pid2thread k ps pid
