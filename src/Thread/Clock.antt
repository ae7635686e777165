-- ===== src/Thread/Clock.antt =====
-- The clock of sparrow/device/timer.c: `intr_timer_handler` and the time slice of a task.
use sparrow_os.Common.{
  ℕ, ◌≡◌, refl, ◌∙◌, true, false, [], ◌∷◌, ◌++◌, arith, add32, ◌-◌, ◌==◌, if◌then◌else◌, done,
  Bool-cases, inl, inr, eq_self, ap,
}
use sparrow_os.Thread.{Kernel, Task, ready, is_running, set_task, schedule, intr_timer_handler}
use sparrow_os.Thread.Invariant.{status, Sound}
use sparrow_os.Thread.Schedule.{schedule-Scheduled, turns_or_idle, unmarked, put_task}
use sparrow_os.Thread.Block.{Sound-Ready, cur-running, nonempty}

-- The kernel after the counting of a tick.
abbrev counted : Kernel → Kernel
counted k =
    let t = k.tasks k.cur in
    record (set_task k k.cur (record t { elapsed_ticks = add32 t.elapsed_ticks 1 })) {
      ticks = add32 k.ticks 1;
    }

abbrev spent : Kernel → Kernel
spent k =
    let t = k.tasks k.cur in
    set_task (counted k) k.cur
      (record t { elapsed_ticks = add32 t.elapsed_ticks 1; ticks = t.ticks - 1 })

counted-Sound : (k : Kernel) → Sound k → Sound (counted k)
counted-Sound k s = record {
  queued = record {
    distinct = s.queued.distinct;
    ready_iff = λ p. ground (arith, s.queued.ready_iff p);
    idle_alive = ground (arith, s.queued.idle_alive);
  };
  running_iff = λ p. ground (arith, s.running_iff p);
}

spent-Sound : (k : Kernel) → Sound k → Sound (spent k)
spent-Sound k s = record {
  queued = record {
    distinct = s.queued.distinct;
    ready_iff = λ p. ground (arith, s.queued.ready_iff p);
    idle_alive = ground (arith, s.queued.idle_alive);
  };
  running_iff = λ p. ground (arith, s.running_iff p);
}

counted-running : (k : Kernel) → Sound k → is_running (status (counted k) k.cur) ≡ true
counted-running k s = ground (arith, cur-running k s, eq_self k.cur)

counted-turns :
    (k : Kernel) → Sound k → turns_or_idle (counted k) ≡ k.thread_ready_list ++ k.cur ∷ []
counted-turns k s = rw (counted-running k s, nonempty k.thread_ready_list k.cur) refl

-- The interrupted task after the tick, but for its status.
abbrev pub tick_task : Task → Task
tick_task t = record t {
  elapsed_ticks = add32 t.elapsed_ticks 1;
  ticks = if t.ticks == 0 then t.priority else t.ticks - 1;
}

-- The clock made `k'` of `k`.
pub record Ticked (k k' : Kernel) : Type 0 where
  pub runs : intr_timer_handler k ≡ done k'
  pub sound : Sound k'
  pub turn : k'.cur ∷ k'.thread_ready_list ≡ (
      if (k.tasks k.cur).ticks == 0
      then k.thread_ready_list ++ k.cur ∷ []
      else k.cur ∷ k.thread_ready_list)
  pub fields :
      (p : ℕ)
      → unmarked (k'.tasks p)
        ≡ unmarked (if p == k.cur then tick_task (k.tasks k.cur) else k.tasks p)
  pub intr : k'.intr ≡ k.intr
  pub ticks : k'.ticks ≡ add32 k.ticks 1

spent-task :
    (k : Kernel) (p : ℕ)
    → ((k.tasks k.cur).ticks == 0) ≡ false
    → (spent k).tasks p ≡ (if p == k.cur then tick_task (k.tasks k.cur) else k.tasks p)
spent-task k p some_left = elim (Bool-cases (p == k.cur)) [
  | inl same ↦ rw (same, some_left) refl
  | inr other ↦ rw other refl
]

put_running :
    (t : Task)
    → is_running t.status ≡ true
    → put_task t ≡ record t { ticks = t.priority; status = ready }
put_running t run = rw run refl

over-task :
    (k : Kernel) (p : ℕ)
    → Sound k
    → ((k.tasks k.cur).ticks == 0) ≡ true
    → unmarked (if p == k.cur then put_task ((counted k).tasks k.cur) else (counted k).tasks p)
      ≡ unmarked (if p == k.cur then tick_task (k.tasks k.cur) else k.tasks p)
over-task k p s over = elim (Bool-cases (p == k.cur)) [
  | inl same ↦ rw same (
      ap unmarked (put_running ((counted k).tasks k.cur) (counted-running k s))
      ∙ rw (eq_self k.cur, over) refl)
  | inr other ↦ rw other refl
]

test_of : {a b : ℕ} → a ≡ b → (a == b) ≡ true
test_of {a} {b} e = rw e (eq_self b)

handler-schedule :
    (k k' : Kernel)
    → (k.tasks k.cur).stack_magic ≡ 0x19870916
    → ((k.tasks k.cur).ticks == 0) ≡ true
    → schedule (counted k) ≡ done k'
    → intr_timer_handler k ≡ done k'
unfolding intr_timer_handler
handler-schedule k k' m z e = rw (test_of m, z, e) refl

handler-spent :
    (k : Kernel)
    → (k.tasks k.cur).stack_magic ≡ 0x19870916
    → ((k.tasks k.cur).ticks == 0) ≡ false
    → intr_timer_handler k ≡ done (spent k)
unfolding intr_timer_handler
handler-spent k m n = rw (test_of m, n) refl

-- From a sound kernel with interrupts off and an intact stack of the running task, the clock always
-- leaves a sound kernel and counts the tick, for the system and for the running task. While the
-- task has ticks left it loses one and runs on; after that its ticks are its priority again and it
-- goes behind all ready tasks. But for statuses, no other task changes.
pub intr_timer_handler-Ticked :
    (k : Kernel)
    → Sound k
    → k.intr ≡ false
    → (k.tasks k.cur).stack_magic ≡ 0x19870916
    → (k' : Kernel) × Ticked k k'
intr_timer_handler-Ticked k s off m = elim (Bool-cases ((k.tasks k.cur).ticks == 0)) [
  | inl over ↦
      let (k', w) =
        schedule-Scheduled (counted k) (Sound-Ready (counted k) (counted-Sound k s)) off in
      (
        k',
        record {
          runs = handler-schedule k k' m over w.runs;
          sound = w.sound;
          turn = w.turn ∙ counted-turns k s ∙ rw over refl;
          fields = λ p. w.fields p ∙ over-task k p s over;
          intr = w.intr;
          ticks = w.ticks;
        },
      )
  | inr some_left ↦ (
    spent k,
    record {
      runs = handler-spent k m some_left;
      sound = spent-Sound k s;
      turn = rw some_left refl;
      fields = λ p. ap unmarked (spent-task k p some_left);
      intr = refl;
      ticks = refl;
    },
  )
]
