-- ===== src/Thread/Schedule.antt =====
-- `schedule` of sparrow/thread/thread.c.
use sparrow_os.Common.{
  append-nil, ℕ, ◌≡◌, ◌≢◌, refl, subst, ◌∙◌, sym, true, false, List, [], ◌∷◌, ◌++◌, arith, ◌==◌,
  if◌then◌else◌, done, Bool-cases, inl, inr, eq_self, ap, eq-true,
}
use sparrow_os.LinkedList.View.{elem, ◌∉◌, Distinct, elem-append}
use sparrow_os.Thread.{
  Kernel, Task, TaskStatus, running, ready, died, is_running, is_ready, may_block, set_status,
  set_task, put_down, wake_idle, switch_next, schedule, is_nil,
}
use sparrow_os.Thread.Invariant.{
  status, Queued, Parked, Sound, unblocked, thread_unblock-unblocked, unblocked-Queued,
}

idle_may_block :
    (s : TaskStatus) → is_ready s ≡ false → is_running s ≡ false → s ≢ died → may_block s ≡ true
idle_may_block s r u d = ground arith

elem_of_nil : (p : ℕ) (l : List ℕ) → is_nil l ≡ true → elem p l ≡ false
elem_of_nil p [] h = refl
elem_of_nil p (x ∷ xs) h = ground arith

-- After `wake_idle` some task is ready.
record Woken (k : Kernel) : Type 0 where
  parked : Parked k
  some_ready : is_nil k.thread_ready_list ≡ false

wake_idle-Woken :
    (k : Kernel)
    → Parked k
    → wake_idle k ≡ done (if is_nil k.thread_ready_list then unblocked k.idle_thread k else k)
      × Woken (if is_nil k.thread_ready_list then unblocked k.idle_thread k else k)
unfolding wake_idle
wake_idle-Woken k p = elim (Bool-cases (is_nil k.thread_ready_list)) [
  | inr some_task ↦ rw some_task (refl, record { parked = p; some_ready = some_task })
  | inl nothing ↦
      let may : may_block (status k k.idle_thread) ≡ true =
        idle_may_block (status k k.idle_thread)
          (sym (p.queued.ready_iff k.idle_thread)
            ∙ elem_of_nil k.idle_thread k.thread_ready_list nothing)
          (p.none_runs k.idle_thread) p.queued.idle_alive in
      rw nothing (
        thread_unblock-unblocked k.idle_thread k p.queued may,
        record {
          parked = record {
            queued = unblocked-Queued k.idle_thread k p.queued may;
            none_runs = λ q. ground (arith, p.none_runs q);
          };
          some_ready = refl;
        },
      )
]

-- The kernel after `put_down`.
abbrev lowered : Kernel → Kernel
lowered k =
    let t = k.tasks k.cur in
    let k' = set_task k k.cur (record t { ticks = t.priority; status = ready }) in
    record k' { thread_ready_list = k.thread_ready_list ++ k.cur ∷ [] }

not_ready_of_running : (s : TaskStatus) → is_running s ≡ true → is_ready s ≡ false
not_ready_of_running s h = ground arith

pub Distinct-append : (xs : List ℕ) (p : ℕ) → Distinct xs → p ∉ xs → Distinct (xs ++ p ∷ [])
Distinct-append [] p d o = (refl, tt)
Distinct-append (x ∷ xs) p d o =
    (ground (arith, elem-append x xs (p ∷ []), d.0), Distinct-append xs p d.1 (ground arith))

-- At most `cur` runs.
pub record Ready (k : Kernel) : Type 0 where
  pub queued : Queued k
  pub only_cur : (p : ℕ) → is_running (status k p) ≡ true → p ≡ k.cur

lowered-Parked : (k : Kernel) → Ready k → is_running (status k k.cur) ≡ true → Parked (lowered k)
lowered-Parked k r run =
    let out : elem k.cur k.thread_ready_list ≡ false =
      r.queued.ready_iff k.cur ∙ not_ready_of_running (status k k.cur) run in
    record {
      queued = record {
        distinct = Distinct-append k.thread_ready_list k.cur r.queued.distinct out;
        ready_iff = λ p.
            ground (arith, elem-append p k.thread_ready_list (k.cur ∷ []), r.queued.ready_iff p);
        idle_alive = ground (arith, r.queued.idle_alive);
      };
      none_runs = λ p. ground (arith, r.only_cur p);
    }

Parked-Ready : (k : Kernel) → Ready k → is_running (status k k.cur) ≡ false → Parked k
Parked-Ready k r run = record { queued = r.queued; none_runs = λ p. ground (arith, r.only_cur p) }

put_down-Parked :
    (k : Kernel)
    → Ready k
    → put_down k ≡ done (if is_running (status k k.cur) then lowered k else k)
      × Parked (if is_running (status k k.cur) then lowered k else k)
unfolding put_down
put_down-Parked k r = elim (Bool-cases (is_running (status k k.cur))) [
  | inl run ↦
      let out : elem k.cur k.thread_ready_list ≡ false =
        r.queued.ready_iff k.cur ∙ not_ready_of_running (status k k.cur) run in
      rw (run, out) (refl, lowered-Parked k r run)
  | inr idle ↦ rw idle (refl, Parked-Ready k r idle)
]

-- The kernel after `switch_next`, when `next` is the first ready task.
abbrev switched : ℕ → List ℕ → Kernel → Kernel
switched next rest k = record (set_status k next running) { thread_ready_list = rest; cur = next }

switched-Sound :
    (next : ℕ) (rest : List ℕ) (k : Kernel)
    → Parked k
    → k.thread_ready_list ≡ next ∷ rest
    → Sound (switched next rest k)
switched-Sound next rest k p e =
    let d : Distinct (next ∷ rest) = subst Distinct e p.queued.distinct in
    record {
      queued = record {
        distinct = d.1;
        ready_iff = λ q. ground (arith, p.queued.ready_iff q, e, d.0);
        idle_alive = ground (arith, p.queued.idle_alive);
      };
      running_iff = λ q. ground (arith, p.none_runs q);
    }

-- The tasks that may run next, in their order: those of the ready list, and the one that runs.
abbrev pub turns : Kernel → List ℕ
turns k = k.thread_ready_list ++ (if is_running (status k k.cur) then k.cur ∷ [] else [])

abbrev pub turns_or_idle : Kernel → List ℕ
turns_or_idle k = if is_nil (turns k) then k.idle_thread ∷ [] else turns k

-- The task that ran: its time is up, or it no longer runs.
abbrev pub put_task : Task → Task
put_task t = if is_running t.status then record t { ticks = t.priority; status = ready } else t

-- A task without its status.
abbrev pub unmarked : Task → Task
unmarked t = record t { status = ready }

-- `schedule` from `k` gives `k'`.
pub record Scheduled (k k' : Kernel) : Type 0 where
  pub runs : schedule k ≡ done k'
  pub sound : Sound k'
  pub turn : k'.cur ∷ k'.thread_ready_list ≡ turns_or_idle k
  pub others : (p : ℕ) → p ≢ k.cur → p ≢ k'.cur → k'.tasks p ≡ k.tasks p
  pub left : k.cur ≢ k'.cur → k'.tasks k.cur ≡ put_task (k.tasks k.cur)
  pub fields :
      (p : ℕ)
      → unmarked (k'.tasks p)
        ≡ unmarked (if p == k.cur then put_task (k.tasks k.cur) else k.tasks p)
  pub intr : k'.intr ≡ k.intr
  pub ticks : k'.ticks ≡ k.ticks
  pub idle : k'.idle_thread ≡ k.idle_thread

-- A task that no longer runs has no turn but by the ready list.
pub turns_or_idle_stopped :
    (k : Kernel)
    → is_running (status k k.cur) ≡ false
    → turns_or_idle k
      ≡ (if is_nil k.thread_ready_list then k.idle_thread ∷ [] else k.thread_ready_list)
turns_or_idle_stopped k h = rw (h, append-nil k.thread_ready_list) refl

cons_of : (l : List ℕ) → is_nil l ≡ false → (x : ℕ) × (xs : List ℕ) × (l ≡ x ∷ xs)
cons_of [] h = ground arith
cons_of (x ∷ xs) h = (x, xs, refl)

switch_next-switched :
    (next : ℕ) (rest : List ℕ) (k : Kernel)
    → k.thread_ready_list ≡ next ∷ rest
    → switch_next k ≡ done (switched next rest k)
unfolding switch_next
switch_next-switched next rest k e = rw e refl

schedule-stages :
    (k a b c : Kernel)
    → k.intr ≡ false
    → put_down k ≡ done a
    → wake_idle a ≡ done b
    → switch_next b ≡ done c
    → schedule k ≡ done c
unfolding schedule
schedule-stages k a b c i x y z = rw (x, y, z, i) refl

-- After the first two parts.
abbrev put : Kernel → Kernel
put k = if is_running (status k k.cur) then lowered k else k

abbrev woken : Kernel → Kernel
woken k = if is_nil k.thread_ready_list then unblocked k.idle_thread k else k

put-turns : (k : Kernel) → (put k).thread_ready_list ≡ turns k
put-turns k = elim (Bool-cases (is_running (status k k.cur))) [
  | inl run ↦ rw run refl
  | inr idle ↦ rw idle (sym (append-nil k.thread_ready_list))
]

put-tasks : (k : Kernel) (p : ℕ) → p ≢ k.cur → (put k).tasks p ≡ k.tasks p
put-tasks k p o = ground arith

put-cur : (k : Kernel) → (put k).tasks k.cur ≡ put_task (k.tasks k.cur)
put-cur k = ground (arith, eq_self k.cur)

put-idle : (k : Kernel) → (put k).idle_thread ≡ k.idle_thread
put-idle k = ground arith

woken-turns :
    (k : Kernel)
    → (woken k).thread_ready_list
      ≡ (if is_nil k.thread_ready_list then k.idle_thread ∷ [] else k.thread_ready_list)
woken-turns k = ground arith

woken-intr : (k : Kernel) → (woken (put k)).intr ≡ k.intr
woken-intr k = ground arith

woken-idle : (k : Kernel) → (woken (put k)).idle_thread ≡ k.idle_thread
woken-idle k = ground arith

woken-ticks : (k : Kernel) → (woken (put k)).ticks ≡ k.ticks
woken-ticks k = ground arith

woken-tasks :
    (k : Kernel) (p : ℕ)
    → (is_nil k.thread_ready_list ≡ true → p ≢ k.idle_thread)
    → (woken k).tasks p ≡ k.tasks p
woken-tasks k p o = ground arith

woken-put-turns : (k : Kernel) → (woken (put k)).thread_ready_list ≡ turns_or_idle k
woken-put-turns k = woken-turns (put k) ∙ rw (put-turns k, put-idle k) refl

woken_idle :
    (k : Kernel) (next : ℕ) (rest : List ℕ)
    → (woken k).thread_ready_list ≡ next ∷ rest
    → is_nil k.thread_ready_list ≡ true
    → next ≡ k.idle_thread
woken_idle k next rest e h = ground arith

others-tasks :
    (k : Kernel) (next p : ℕ) (rest : List ℕ)
    → (woken (put k)).thread_ready_list ≡ next ∷ rest
    → p ≢ next
    → (switched next rest (woken (put k))).tasks p ≡ (put k).tasks p
others-tasks k next p rest e n =
    let away : (p == next) ≡ false = ground arith in
    rw away (woken-tasks (put k) p (λ h i. n (i ∙ sym (woken_idle (put k) next rest e h))))

-- Apart from the statuses, only `put_down` changes a task.
unmarked-set_status :
    (k : Kernel) (n p : ℕ) (s : TaskStatus)
    → unmarked ((set_status k n s).tasks p) ≡ unmarked (k.tasks p)
unmarked-set_status k n p s = elim (Bool-cases (p == n)) [
  | inl same ↦ rw same (ap (λ q. unmarked (k.tasks q)) (sym (eq-true p n same)))
  | inr other ↦ rw other refl
]

unmarked-woken : (k : Kernel) (p : ℕ) → unmarked ((woken k).tasks p) ≡ unmarked (k.tasks p)
unmarked-woken k p = elim (Bool-cases (is_nil k.thread_ready_list)) [
  | inl nothing ↦ rw nothing (unmarked-set_status k k.idle_thread p ready)
  | inr some_task ↦ rw some_task refl
]

put-task :
    (k : Kernel) (p : ℕ)
    → (put k).tasks p ≡ (if p == k.cur then put_task (k.tasks k.cur) else k.tasks p)
put-task k p = elim (Bool-cases (p == k.cur)) [
  | inl same ↦ rw same (ap (put k).tasks (eq-true p k.cur same) ∙ put-cur k)
  | inr other ↦ rw other (put-tasks k p (λ e. ground (arith, eq_self p)))
]

-- With interrupts off, on a kernel with a sound ready list in which no task but `cur` runs,
-- `schedule` always gives a sound kernel. The task that runs then is the first of the ready tasks
-- and, behind them, `cur` if it still runs; it is the idle task where there is none. The others
-- keep their order, and no other task changes. Of the two tasks that change hands only the statuses
-- change, and the ticks of `cur` where it still ran: they are its priority again.
pub schedule-Scheduled : (k : Kernel) → Ready k → k.intr ≡ false → (k' : Kernel) × Scheduled k k'
schedule-Scheduled k r off =
    let (put_runs, parked) = put_down-Parked k r in
    let (wake_runs, w) = wake_idle-Woken (put k) parked in
    let b = woken (put k) in
    let (next, rest, e) = cons_of b.thread_ready_list w.some_ready in
    (
      switched next rest b,
      record {
        runs =
            schedule-stages k (put k) b (switched next rest b) off put_runs wake_runs
              (switch_next-switched next rest b e);
        sound = switched-Sound next rest b w.parked e;
        turn = sym e ∙ woken-put-turns k;
        others = λ p o n. others-tasks k next p rest e n ∙ put-tasks k p o;
        left = λ n. others-tasks k next k.cur rest e n ∙ put-cur k;
        fields = λ p.
            unmarked-set_status b next p running
            ∙ unmarked-woken (put k) p
            ∙ ap unmarked (put-task k p);
        intr = woken-intr k;
        ticks = woken-ticks k;
        idle = woken-idle k;
      },
    )
