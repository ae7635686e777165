-- ===== src/Memory/Pages/Backing.antt =====
-- The frames that the loop of `malloc_page` (sparrow/kernel/memory.c) puts behind a run of pages.
use sparrow_os.Common.{
  ℕ, zero, suc, ◌+◌, ◌*◌, ◌%◌, ◌<◌, ◌≡◌, ◌≢◌, ◌⊎◌, inl, inr, refl, sym, ap, subst, ◌∙◌, Bool, true,
  false, arith, ◌==◌, add32, Outcome, done, Bool-cases,
}
use sparrow_os.Memory.Pages.{
  PoolFlags, Pool, KernelMemory, pool_of, set_pool, palloc, page_table_add, map_pages,
}
use sparrow_os.Memory.Pages.Frames.{Owns, taken}
use sparrow_os.Memory.Pages.Tables.{IsPage, Mapped, Grows, Owns-start}
use sparrow_os.Memory.Pages.Map.{Kept, Backed, Kept-pool}

free_before : {p q : Pool} {f : ℕ} → Grows p q → Owns p f → taken q f ≡ false → taken p f ≡ false
free_before {p} {q} {f} g o h = elim (Bool-cases (taken p f)) [
  | inl full ↦ ground (arith, g.keeps f o full)
  | inr free ↦ free
]

Owns-back : {p q : Pool} {f : ℕ} → Grows p q → Owns q f → Owns p f
Owns-back g o = Owns-start (sym g.start) (sym g.len) o

-- `f` in front of the frames `g`.
abbrev extend : ℕ → (ℕ → ℕ) → ℕ → ℕ
extend f g zero = f
extend f g (suc i) = g i

-- One more page in front of a run that is backed.
module _ (pf : PoolFlags) (m b c : KernelMemory) (v n f : ℕ) where
  pub Backed-cons :
      IsPage v
      → v % 4096 ≡ 0
      → Grows (pool_of pf m) (pool_of pf b)
      → Owns (pool_of pf m) f
      → taken (pool_of pf m) f ≡ false
      → taken (pool_of pf b) f ≡ true
      → Mapped b v f
      → Kept b (v + 4096) n c
      → Backed pf b (v + 4096) n c
      → Backed pf m v (suc n) c
  Backed-cons low al g own free full t k r = record {
    frame = extend f r.frame;
    mapped = mapped;
    own = own_all;
    fresh = fresh_all;
    taken = taken_all;
    apart = apart_all;
  }
    where
      grow : Grows (pool_of pf b) (pool_of pf c)
      grow = Kept-pool pf b c (v + 4096) n k

      own_b : Owns (pool_of pf b) f
      own_b = Owns-start g.start g.len own

      mapped : (i : ℕ) → i < suc n → Mapped c (v + i * 4096) (extend f r.frame i)
      mapped zero h =
          let e : v ≡ v + 0 * 4096 = omega arith in
          subst (λ a. Mapped c a f) e (k.others v f low (inl (omega arith)) t)
      mapped (suc i) h =
          let e : v + 4096 + i * 4096 ≡ v + suc i * 4096 = omega arith in
          subst (λ a. Mapped c a (r.frame i)) e (r.mapped i (omega arith))

      own_all : (i : ℕ) → i < suc n → Owns (pool_of pf m) (extend f r.frame i)
      own_all zero h = own
      own_all (suc i) h = Owns-back g (r.own i (omega arith))

      fresh_all : (i : ℕ) → i < suc n → taken (pool_of pf m) (extend f r.frame i) ≡ false
      fresh_all zero h = free
      fresh_all (suc i) h =
          free_before g (Owns-back g (r.own i (omega arith))) (r.fresh i (omega arith))

      taken_all : (i : ℕ) → i < suc n → taken (pool_of pf c) (extend f r.frame i) ≡ true
      taken_all zero h = grow.keeps f own_b full
      taken_all (suc i) h = r.taken i (omega arith)

      apart_all : (i j : ℕ) → i < j → j < suc n → (extend f r.frame i) ≢ (extend f r.frame j)
      apart_all i zero h l = absurd (omega arith)
      apart_all zero (suc j) h l = λ e.
          let differ : true ≡ false =
            sym full ∙ ap (taken (pool_of pf b)) e ∙ r.fresh j (omega arith) in
          ground arith
      apart_all (suc i) (suc j) h l = r.apart i j (omega arith) (omega arith)

-- How the loop ends: with all pages backed, or at a page for which the pool had no frame left.
abbrev pub Maps : PoolFlags → KernelMemory → ℕ → ℕ → Outcome (Bool × KernelMemory) → Type 0
Maps pf m v n o =
    (all : Bool) × (m' : KernelMemory) × (o ≡ done (all, m'))
    × Kept m v n m'
    × (((all ≡ true) × Backed pf m v n m')
        ⊎ ((all ≡ false) × ((q : ℕ) → Owns (pool_of pf m') q → taken (pool_of pf m') q ≡ true)))

pub palloc_none :
    (pf : PoolFlags) (n v : ℕ) (m : KernelMemory) (p : Pool)
    → palloc (pool_of pf m) ≡ done (0, p)
    → map_pages pf (suc n) v m ≡ done (false, set_pool pf p m)
unfolding map_pages
palloc_none pf n v m p e = rw e refl

pub palloc_some :
    (pf : PoolFlags) (n v f : ℕ) (m m' : KernelMemory) (p : Pool)
    → 0 < f
    → palloc (pool_of pf m) ≡ done (f, p)
    → page_table_add v f (set_pool pf p m) ≡ done m'
    → add32 v 4096 ≡ v + 4096
    → map_pages pf (suc n) v m ≡ map_pages pf n (v + 4096) m'
unfolding map_pages
palloc_some pf n v f m m' p pos e t next =
    let test : (f == 0) ≡ false = ground arith in rw (e, test, t, next) refl
