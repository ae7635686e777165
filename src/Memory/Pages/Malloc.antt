-- ===== src/Memory/Pages/Malloc.antt =====
-- `malloc_page` of sparrow/kernel/memory.c: a run of virtual pages, each backed by a frame.
use sparrow_os.Common.{
  ℕ, zero, suc, ◌+◌, ◌*◌, ◌%◌, ◌<◌, ◌≤◌, ◌≡◌, ◌⊎◌, inl, inr, refl, sym, subst, ◌∙◌, Bool, true,
  false, arith, add32, Outcome, done,
}
use sparrow_os.Memory.Pages.{
  PoolFlags, pf_kernel, pf_user, Pool, KernelMemory, pool_of, set_pool, palloc, map_pages,
}
use sparrow_os.Memory.Pages.Frames.{Owns, taken, Given, palloc-Gives}
use sparrow_os.Memory.Pages.Tables.{
  Absent, Grows, Grows-refl, Grows-trans, Given-Grows, Owns-start, HasTable, IsTables, SameTables,
  IsTables-same, HasTable-same, SameTables-trans, IsPage,
}
use sparrow_os.Memory.Pages.Add.{Added, add_in_table}
use sparrow_os.Memory.Pages.Map.{
  IsMemory, Kept, Kept-IsMemory, Kept-pool, IsMemory-pool, Kept-set_pool, Added-Kept, Kept-join,
  Kept-both, Kept-pools,
}
use sparrow_os.Memory.Pages.Backing.{Backed-cons, Maps, palloc_none, palloc_some}

pool_of-set_pool : (pf : PoolFlags) (p : Pool) (m : KernelMemory) → pool_of pf (set_pool pf p m) ≡ p
pool_of-set_pool pf_kernel p m = refl
pool_of-set_pool pf_user p m = refl

Kept-refl : (m : KernelMemory) (v n : ℕ) → IsMemory m → Kept m v n m
Kept-refl m v n h =
    Kept-pools m m.kernel_pool m.user_pool v n (Grows-refl _ h.kernel) (Grows-refl _ h.user)

Maps-none :
    (pf : PoolFlags) (m : KernelMemory) (v : ℕ) → IsMemory m → Maps pf m v 0 (done (true, m))
Maps-none pf m v h = (
  true,
  m,
  refl,
  Kept-refl m v 0 h,
  inl (
    refl,
    record {
      frame = λ i. 0;
      mapped = λ i l. absurd (omega arith);
      own = λ i l. absurd (omega arith);
      fresh = λ i l. absurd (omega arith);
      taken = λ i l. absurd (omega arith);
      apart = λ i j a l. absurd (omega arith);
    },
  ),
)

-- The pool is empty at the first page.
Maps-empty :
    (pf : PoolFlags) (m : KernelMemory) (p : Pool) (v n : ℕ)
    → IsMemory m
    → p ≡ pool_of pf m
    → ((q : ℕ) → Owns (pool_of pf m) q → taken (pool_of pf m) q ≡ true)
    → Maps pf m v n (done (false, set_pool pf p m))
Maps-empty pf m p v n h same full =
    let e : pool_of pf (set_pool pf p m) ≡ pool_of pf m = pool_of-set_pool pf p m ∙ same in
    (
      false,
      set_pool pf p m,
      refl,
      Kept-set_pool pf m p v n h
          (subst (λ q. Grows (pool_of pf m) q) (sym same) (Grows-refl _ (IsMemory-pool pf m h))),
      inr (refl, subst (λ r. (q : ℕ) → Owns r q → taken r q ≡ true) (sym e) full),
    )

-- The first page is backed by `f`, in `m2`, and the rest of the run follows.
module _ (pf : PoolFlags) (m m2 : KernelMemory) (p : Pool) (v f n : ℕ) where
  Maps-cons :
      IsMemory m
      → v % 4096 ≡ 0
      → v + suc n * 4096 ≤ 0xffc00000
      → 0x400000 ≤ v
      → Given (pool_of pf m) f p
      → Added (set_pool pf p m) v f m2
      → SameTables (set_pool pf p m) m2
      → (o : Outcome (Bool × KernelMemory)) → Maps pf m2 (v + 4096) n o
      → Maps pf m v (suc n) o
  Maps-cons h al room low g a st o (all, m', e, k, end) =
      let pool = pool_of pf m in
      let gp : Grows pool p = Given-Grows (IsMemory-pool pf m h) g in
      let k1 = Kept-set_pool pf m p v 1 h gp in
      let h1 = Kept-IsMemory m (set_pool pf p m) v 1 k1 in
      let k2 = Added-Kept (set_pool pf p m) v f m2 h1 al a st in
      let at = pool_of-set_pool pf p m in
      let g2 : Grows p (pool_of pf m2) =
        subst (λ q. Grows q (pool_of pf m2)) at (Kept-pool pf (set_pool pf p m) m2 v 1 k2) in
      let own : Owns p f = Owns-start g.changed.start g.changed.len g.own in
      let front = Kept-both m (set_pool pf p m) m2 v 1 k1 k2 in
      let next : v + 1 * 4096 ≡ v + 4096 = omega arith in
      let len : 1 + n ≡ suc n = omega arith in
      let whole = Kept-join m m2 m' v 1 n front (subst (λ x. Kept m2 x n m') (sym next) k) in
      (
        all,
        m',
        e,
        subst (λ x. Kept m v x m') len whole,
        ground (
          arith,
          end,
          Backed-cons pf m m2 m' v n f (omega arith, omega arith) al (Grows-trans gp g2) g.own
              g.free (g2.keeps f own g.changed.here) a.mapped k,
        ),
      )

-- From memory that is well formed, the loop always ends on a run of pages that have tables and are
-- not mapped.
pub map_pages-Maps :
    (pf : PoolFlags) (n v : ℕ) (m : KernelMemory)
    → IsMemory m
    → IsTables m
    → v % 4096 ≡ 0
    → 0x400000 ≤ v
    → v + n * 4096 ≤ 0xffc00000
    → ((i : ℕ) → i < n → Absent m (v + i * 4096) × HasTable m (v + i * 4096))
    → Maps pf m v n (map_pages pf n v m)
unfolding map_pages
map_pages-Maps pf zero v m h ht al low room gap = Maps-none pf m v h
map_pages-Maps pf (suc n) v m h ht al low room gap =
    let (f, p, e, answer) = palloc-Gives (pool_of pf m) (IsMemory-pool pf m h) in
    elim answer [
      | inl (z, same, full) ↦
          subst (Maps pf m v (suc n))
            (sym (palloc_none pf n v m p (subst (λ x. palloc (pool_of pf m) ≡ done (x, p)) z e)))
            (Maps-empty pf m p v (suc n) h same full)
      | inr g ↦
          let m1 = set_pool pf p m in
          let k1 = Kept-set_pool pf m p v 0 h (Given-Grows (IsMemory-pool pf m h) g) in
          let h1 = Kept-IsMemory m m1 v 0 k1 in
          let out : v < v ⊎ (v + 0 * 4096 ≤ v) = inr (omega arith) in
          let here : v + 0 * 4096 ≡ v = omega arith in
          let page : IsPage v = (omega arith, omega arith) in
          let (gone, has) = gap 0 (omega arith) in
          let hole = k1.absent v page out (subst (Absent m) here gone) in
          let there = HasTable-same m m1 v k1.tables (omega arith) (subst (HasTable m) here has) in
          let (m2, t, a, st) =
            add_in_table m1 v f page (IsTables-same m m1 k1.tables ht) h1.kernel there hole in
          let k2 = Added-Kept m1 v f m2 h1 al a st in
          let h2 = Kept-IsMemory m1 m2 v 1 k2 in
          let pos : 0 < f = omega (arith, g.own.above, (IsMemory-pool pf m h).high) in
          let next : add32 v 4096 ≡ v + 4096 = omega arith in
          subst (Maps pf m v (suc n)) (sym (palloc_some pf n v f m m2 p pos e t next)) (
            Maps-cons pf m m2 p v f n h al room low g a st _ (
              map_pages-Maps pf n (v + 4096) m2 h2 a.tables (omega arith) (omega arith)
                (omega arith)
                (λ i l.
                  let u = v + 4096 + i * 4096 in
                  let e : v + suc i * 4096 ≡ u = omega arith in
                  let next_page : IsPage u = (omega arith, omega arith) in
                  let both = SameTables-trans m m1 m2 k1.tables k2.tables in
                  let (gone', has') = gap (suc i) (omega arith) in
                  (
                    k2.absent u next_page (inr (omega arith))
                        (k1.absent u next_page (inr (omega arith)) (subst (Absent m) e gone')),
                    HasTable-same m m2 u both (omega arith) (subst (HasTable m) e has'),
                  ))))
    ]
