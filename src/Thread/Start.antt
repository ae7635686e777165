-- ===== src/Thread/Start.antt =====
-- `thread_start` and `pid2thread` of sparrow/thread/thread.c.
use sparrow_os.Common.{
  ℕ, ◌≡◌, ◌≢◌, ap, false, List, [], ◌∷◌, ◌++◌, arith, ◌==◌, some, Outcome, done, eq-true,
  Bool-cases, inl, inr,
}
use sparrow_os.LinkedList.View.{◌∈◌, elem_head}
use sparrow_os.Thread.{Kernel, init_thread, set_task, pid2thread}
use sparrow_os.Thread.Invariant.{Sound}

-- `k'` is `k` with the new task `p`.
pub record Started (k : Kernel) (p pid : ℕ) (o : Outcome Kernel) (k' : Kernel) : Type 0 where
  pub runs : o ≡ done k'
  pub sound : Sound k'
  pub queue : k'.thread_ready_list ≡ k.thread_ready_list ++ p ∷ []
  pub all : k'.thread_all_list ≡ k.thread_all_list ++ p ∷ []
  pub same_cur : k'.cur ≡ k.cur
  pub here : (k'.tasks p).pid ≡ pid
  pub others : (q : ℕ) → q ≢ p → k'.tasks q ≡ k.tasks q

-- The kernel after `thread_start`.
abbrev started : ℕ → ℕ → ℕ → Kernel → Kernel
started p prio pid k = record (set_task k p (init_thread k p prio pid)) {
  thread_ready_list = k.thread_ready_list ++ p ∷ [];
  thread_all_list = k.thread_all_list ++ p ∷ [];
}

-- No two tasks of the list share a pid.
abbrev pub OnePid : Kernel → List ℕ → Type 0
OnePid k l = (p q : ℕ) → p ∈ l → q ∈ l → (k.tasks p).pid ≡ (k.tasks q).pid → p ≡ q

later :
    (k : Kernel) (q : ℕ) (l : List ℕ) (p : ℕ)
    → p ∈ q ∷ l
    → ((k.tasks q).pid == (k.tasks p).pid) ≡ false
    → p ∈ l
later k q l p i other = elim (Bool-cases (p == q)) [
  | inl same ↦
      let e : (k.tasks p).pid ≡ (k.tasks q).pid = ap (λ r. (k.tasks r).pid) (eq-true p q same) in
      ground arith
  | inr apart ↦ ground arith
]

-- Where no two tasks of the list share a pid, `pid2thread` finds the task of each pid.
pub pid2thread-pid :
    (k : Kernel) (l : List ℕ) (p : ℕ) → OnePid k l → p ∈ l → pid2thread k l (k.tasks p).pid ≡ some p
unfolding pid2thread
pid2thread-pid k [] p one i = ground arith
pid2thread-pid k (q ∷ l) p one i = elim (Bool-cases ((k.tasks q).pid == (k.tasks p).pid)) [
  | inl same ↦
      rw same (ap some (one q p (elem_head q l) i (eq-true (k.tasks q).pid (k.tasks p).pid same)))
  | inr other ↦ rw other (
      pid2thread-pid k l p (λ a b h j e. one a b (ground arith) (ground arith) e)
        (later k q l p i other))
]
