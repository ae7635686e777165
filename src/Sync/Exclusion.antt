-- ===== src/Sync/Exclusion.antt =====
-- Mutual exclusion of the locks of sparrow/thread/sync.c.
use sparrow_os.Common.{
  ℕ, ◌≡◌, ◌∙◌, sym, ap, refl, subst, Bool, true, false, ◌==◌, if◌then◌else◌, arith, Bool-cases, inl,
  inr, eq-true, ◌⊎◌,
}
use sparrow_os.Sync.{sema_init, lock_init, clear_holder}
use sparrow_os.Sync.System.{
  Place, outside, sleeping, got, holding, freeing, inside, is_holding, System, moved, Step, down,
  down_sleep, woken, woken_sleep, take, clear, again, inner, up, switch, Reach, start, next,
}
use sparrow_os.Sync.Effects.{
  DownDid, down-DownDid, resume-DownDid, UpDid, up-UpDid, KeepsLock, take-KeepsLock,
  again-KeepsLock, KeepsRelease, inner-KeepsRelease,
}

-- A semaphore of value `v` and the tasks that are inside: none while it is up, one while it is
-- down.
abbrev HeldAt : ℕ → (ℕ → Bool) → Type 0
HeldAt v f = ((v ≡ 1) × ((p : ℕ) → f p ≡ false)) ⊎ ((q : ℕ) × (v ≡ 0) × ((p : ℕ) → f p ≡ (p == q)))

record Inv (σ : System) : Type 0 where
  held : HeldAt σ.lock.semaphore.value (λ p. inside (σ.place p))
  holder : (p : ℕ) → σ.place p ≡ holding → σ.lock.holder ≡ p

held_enter :
    (v v' c : ℕ) (f g : ℕ → Bool)
    → v ≡ 1
    → v' ≡ 0
    → ((p : ℕ) → g p ≡ (if p == c then true else f p))
    → HeldAt v f
    → HeldAt v' g
held_enter v v' c f g e e' h (inl (u, free)) = inr (c, e', λ p. h p ∙ ground (arith, free p))
held_enter v v' c f g e e' h (inr (q, z, one)) = absurd (omega arith)

held_leave :
    (v v' c : ℕ) (f g : ℕ → Bool)
    → v ≡ 0
    → v' ≡ 1
    → f c ≡ true
    → ((p : ℕ) → g p ≡ (if p == c then false else f p))
    → HeldAt v f
    → HeldAt v' g
held_leave v v' c f g e e' i h (inl (u, free)) = absurd (omega arith)
held_leave v v' c f g e e' i h (inr (q, z, one)) =
    let same : c ≡ q = eq-true c q (sym (one c) ∙ i) in inl (e', λ p. h p ∙ ground (arith, one p))

held_same : (v v' : ℕ) (f g : ℕ → Bool) → v' ≡ v → ((p : ℕ) → g p ≡ f p) → HeldAt v f → HeldAt v' g
held_same v v' f g e h (inl (u, free)) = inl (e ∙ u, λ p. h p ∙ free p)
held_same v v' f g e h (inr (q, z, one)) = inr (q, e ∙ z, λ p. h p ∙ one p)

inside-moved :
    (σ : System) (pl : Place) (p : ℕ)
    → inside (moved σ pl p) ≡ (if p == σ.kernel.cur then inside pl else inside (σ.place p))
inside-moved σ pl p = ground arith

-- The running task moves and its side does not change.
inside-stays :
    (σ : System) (pl old : Place) (p : ℕ)
    → σ.place σ.kernel.cur ≡ old
    → inside old ≡ inside pl
    → inside (moved σ pl p) ≡ inside (σ.place p)
inside-stays σ pl old p at e = elim (Bool-cases (p == σ.kernel.cur)) [
  | inl here ↦ rw here (
      sym e ∙ ap inside (sym at) ∙ ap (λ q. inside (σ.place q)) (sym (eq-true p σ.kernel.cur here)))
  | inr away ↦ rw away refl
]

-- Whoever holds the lock after a move to another place held it before.
holder-moved :
    (σ : System) (pl : Place) (h' : ℕ)
    → is_holding pl ≡ false
    → h' ≡ σ.lock.holder
    → ((p : ℕ) → σ.place p ≡ holding → σ.lock.holder ≡ p)
    → (p : ℕ) → moved σ pl p ≡ holding
    → h' ≡ p
holder-moved σ pl h' n e h p m = elim (Bool-cases (p == σ.kernel.cur)) [
  | inl here ↦ let q : is_holding (moved σ pl p) ≡ true = ap is_holding m in ground arith
  | inr away ↦ e ∙ h p (ground arith)
]

only : (v : ℕ) (f : ℕ → Bool) (p q : ℕ) → HeldAt v f → f p ≡ true → f q ≡ true → p ≡ q
only v f p q (inl (u, free)) i j = ground (arith, free p)
only v f p q (inr (r, z, one)) i j =
    eq-true p r (sym (one p) ∙ i) ∙ sym (eq-true q r (sym (one q) ∙ j))

-- While the running task is inside, only it can hold the lock after its move.
cur_of_holding :
    (σ : System) (pl : Place)
    → Inv σ
    → inside (σ.place σ.kernel.cur) ≡ true
    → (p : ℕ) → moved σ pl p ≡ holding
    → p ≡ σ.kernel.cur
cur_of_holding σ pl inv in_cur p m = elim (Bool-cases (p == σ.kernel.cur)) [
  | inl here ↦ eq-true p σ.kernel.cur here
  | inr away ↦
      let stays : inside (σ.place p) ≡ true =
        let q : inside (moved σ pl p) ≡ true = ap inside m in ground arith in
      only σ.lock.semaphore.value (λ q. inside (σ.place q)) p σ.kernel.cur inv.held stays in_cur
]

Step-Inv : (σ τ : System) → Step σ τ → Inv σ → Inv τ
unfolding clear_holder
Step-Inv σ _ (down s k at free e) inv =
    let (one, zero_now) =
      subst (DownDid σ.lock.semaphore) e (down-DownDid σ.lock.semaphore σ.kernel) in
    record {
      held = held_enter _ _ σ.kernel.cur _ _ one zero_now (inside-moved σ got) inv.held;
      holder = holder-moved σ got _ refl refl inv.holder;
    }
Step-Inv σ _ (down_sleep old s k at free e) inv =
    let same = subst (DownDid σ.lock.semaphore) e (down-DownDid σ.lock.semaphore σ.kernel) in
    record {
      held = held_same _ _ _ _ same (λ p. inside-stays σ sleeping outside p at refl) inv.held;
      holder = holder-moved σ sleeping _ refl refl inv.holder;
    }
Step-Inv σ _ (woken old s k at e) inv =
    let (one, zero_now) =
      subst (DownDid σ.lock.semaphore) e (resume-DownDid old σ.lock.semaphore σ.kernel) in
    record {
      held = held_enter _ _ σ.kernel.cur _ _ one zero_now (inside-moved σ got) inv.held;
      holder = holder-moved σ got _ refl refl inv.holder;
    }
Step-Inv σ _ (woken_sleep old new s k at e) inv =
    let same = subst (DownDid σ.lock.semaphore) e (resume-DownDid old σ.lock.semaphore σ.kernel) in
    record {
      held = held_same _ _ _ _ same (λ p. inside-stays σ sleeping sleeping p at refl) inv.held;
      holder = holder-moved σ sleeping _ refl refl inv.holder;
    }
Step-Inv σ _ (take l k at e) inv =
    let (own, same) =
      subst (KeepsLock σ.kernel.cur σ.lock.semaphore) e
        (take-KeepsLock σ.lock σ.lock.semaphore σ.kernel) in
    record {
      held = held_same _ _ _ _ same (λ p. inside-stays σ holding got p at refl) inv.held;
      holder = λ p m. own ∙ sym (cur_of_holding σ holding inv (ap inside at) p m);
    }
Step-Inv σ _ (clear at one) inv = record {
  held = held_same _ _ _ _ refl (λ p. inside-stays σ freeing holding p at refl) inv.held;
  holder = λ p m.
      let e : p ≡ σ.kernel.cur = cur_of_holding σ freeing inv (ap inside at) p m in
      let q : is_holding (moved σ freeing p) ≡ true = ap is_holding m in ground arith;
}
Step-Inv σ _ (again l k at e) inv =
    let (own, same) =
      subst (KeepsLock σ.kernel.cur σ.lock.semaphore) e
        (again-KeepsLock σ.lock σ.kernel (inv.holder σ.kernel.cur at)) in
    record {
      held = held_same _ _ _ _ same (λ p. refl) inv.held;
      holder = λ p m. own ∙ sym (inv.holder σ.kernel.cur at) ∙ inv.holder p m;
    }
Step-Inv σ _ (inner l k at more e) inv =
    let (own, same) = subst (KeepsRelease σ.lock) e (inner-KeepsRelease σ.lock σ.kernel more) in
    record {
      held = held_same _ _ _ _ same (λ p. refl) inv.held;
      holder = λ p m. own ∙ inv.holder p m;
    }
Step-Inv σ _ (up s k at e) inv =
    let (zero_then, one) = subst (UpDid σ.lock.semaphore) e (up-UpDid σ.lock.semaphore σ.kernel) in
    record {
      held =
          held_leave _ _ σ.kernel.cur _ _ zero_then one (ap inside at) (inside-moved σ outside)
            inv.held;
      holder = holder-moved σ outside _ refl refl inv.holder;
    }
Step-Inv σ _ (switch k) inv = record { held = inv.held; holder = inv.holder }

Reach-Inv : (σ : System) → Reach σ → Inv σ
unfolding lock_init sema_init
Reach-Inv _ (start k) = record { held = inl (refl, λ p. refl); holder = λ p m. ground arith }
Reach-Inv τ (next {σ} r s) = Step-Inv σ τ s (Reach-Inv σ r)

-- In every system that the steps reach, whichever tasks the kernel runs in between, two tasks that
-- are inside are the same task, and the holder of the lock is the task that has it.
pub Reach-one_inside :
    (σ : System) (p q : ℕ)
    → Reach σ
    → (inside (σ.place p) ≡ true → inside (σ.place q) ≡ true → p ≡ q)
      × (σ.place p ≡ holding → σ.lock.holder ≡ p)
Reach-one_inside σ p q r =
    let inv = Reach-Inv σ r in
    (only σ.lock.semaphore.value (λ t. inside (σ.place t)) p q inv.held, inv.holder p)
