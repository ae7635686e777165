-- ===== src/Memory/Release/Unmap.antt =====
-- The loops of `mfree_page` (sparrow/kernel/memory.c): the frames and the entries of a run of pages.
use sparrow_os.Common.{
  ℕ, zero, suc, ◌+◌, ◌*◌, ◌/◌, ◌%◌, ◌^◌, ◌<◌, ◌≤◌, ◌≡◌, ◌≢◌, ◌⊎◌, inl, inr, refl, sym, ap, subst,
  ◌∙◌, true, false, arith,
}
use sparrow_os.Memory.Pages.{
  PoolFlags, pf_kernel, pf_user, Pool, KernelMemory, pool_of, set_pool, write_at,
}
use sparrow_os.Memory.Pages.Frames.{Owns, taken, Changed, Changed-IsFrames}
use sparrow_os.Memory.Pages.Tables.{
  IsPage, entry_at, odd, HasTable, IsTables, SameTables, Mapped, Absent, Owns-start, SameBeside,
  SameBeside-pools, IsTables-same, HasTable-same, SameTables-trans, mmu-pte_ptr,
}
use sparrow_os.Memory.Pages.Entries.{
  Mapped-words, Absent-words, entered-SameTables, entered-here, entered-Mapped, entered-Absent,
}
use sparrow_os.Memory.Pages.Map.{SameBeside-trans}
use sparrow_os.Memory.Release.{page_table_pte_remove, may_free}
use sparrow_os.Memory.Release.Free.{IsSplit}

-- The `n` pages from `v` on are mapped to the frames `frame 0`, `frame 1`, ... of the pool, all
-- different.
pub record Run (pf : PoolFlags) (m : KernelMemory) (v n : ℕ) (frame : ℕ → ℕ) : Type 0 where
  pub mapped : (i : ℕ) → i < n → Mapped m (v + i * 4096) (frame i)
  pub own : (i : ℕ) → i < n → Owns (pool_of pf m) (frame i)
  pub apart : (i j : ℕ) → i < j → j < n → frame i ≢ frame j

abbrev pub other_pool : PoolFlags → KernelMemory → Pool
other_pool pf_kernel m = m.user_pool
other_pool pf_user m = m.kernel_pool

-- The run is gone: its frames are free and its pages not mapped, and all else is as it was.
pub record Released (pf : PoolFlags) (m : KernelMemory) (v n : ℕ) (frame : ℕ → ℕ)
    (m' : KernelMemory) : Type 0 where
  pub split : IsSplit m'
  pub start : (pool_of pf m').phy_addr_start ≡ (pool_of pf m).phy_addr_start
  pub len : (pool_of pf m').pool_bitmap.btmp_bytes_len ≡ (pool_of pf m).pool_bitmap.btmp_bytes_len
  pub freed : (i : ℕ) → i < n → taken (pool_of pf m') (frame i) ≡ false
  pub kept :
      (q : ℕ)
      → Owns (pool_of pf m) q
      → ((i : ℕ) → i < n → q ≢ frame i)
      → taken (pool_of pf m') q ≡ taken (pool_of pf m) q
  pub unmapped : (i : ℕ) → i < n → Absent m' (v + i * 4096)
  pub others : (u g : ℕ) → IsPage u → u < v ⊎ (v + n * 4096 ≤ u) → Mapped m u g → Mapped m' u g
  pub absent : (u : ℕ) → IsPage u → u < v ⊎ (v + n * 4096 ≤ u) → Absent m u → Absent m' u
  pub tables : SameTables m m'
  pub other_pool : other_pool pf m' ≡ other_pool pf m
  pub beside : SameBeside m m'

-- One page: the state after `pfree` and `page_table_pte_remove`.
abbrev pub cleared : KernelMemory → ℕ → KernelMemory
cleared m v = write_at (entry_at m v) (m.words (entry_at m v) / 2 * 2) m

pub page_table_pte_remove_lem :
    (m : KernelMemory) (v : ℕ) → IsTables m → v < 2 ^ 32 → page_table_pte_remove v m ≡ cleared m v
unfolding page_table_pte_remove
page_table_pte_remove_lem m v h word =
    ap (λ x. write_at x (m.words x / 2 * 2) m) (mmu-pte_ptr m h v word)

even_odd : (w : ℕ) → odd (w / 2 * 2) ≡ false
even_odd w = ground arith

-- One page and its frame.
module _ (m : KernelMemory) (h : IsSplit m) (v f : ℕ) (p : Pool) where
  IsSplit-Changed : (pf : PoolFlags) → Changed (pool_of pf m) f false p → IsSplit (set_pool pf p m)
  IsSplit-Changed pf_kernel c = record {
    pools = record { kernel = Changed-IsFrames h.pools.kernel c; user = h.pools.user };
    behind_tables = omega (arith, c.start, h.behind_tables);
    apart = omega (arith, c.start, c.len, h.apart);
  }
  IsSplit-Changed pf_user c = record {
    pools = record { kernel = h.pools.kernel; user = Changed-IsFrames h.pools.user c };
    behind_tables = h.behind_tables;
    apart = omega (arith, c.start, h.apart);
  }

  clear-IsSplit : (m1 : KernelMemory) → IsSplit m1 → IsSplit (cleared m1 v)
  clear-IsSplit m1 s = record {
    pools = record { kernel = s.pools.kernel; user = s.pools.user };
    behind_tables = s.behind_tables;
    apart = s.apart;
  }

  pub may_free_own : (pf : PoolFlags) → Owns (pool_of pf m) f → may_free pf f m ≡ true
  unfolding may_free
  may_free_own pf_kernel o = ground (arith, o.aligned, o.above, o.below, h.apart)
  may_free_own pf_user o = ground (arith, o.aligned, o.above)

  one_pools :
      (pf : PoolFlags)
      → (pool_of pf (cleared (set_pool pf p m) v) ≡ p)
        × (other_pool pf (cleared (set_pool pf p m) v) ≡ other_pool pf m)
        × SameBeside m (cleared (set_pool pf p m) v)
        × SameTables m (set_pool pf p m)
        × ((u : ℕ)
            → (set_pool pf p m).words (entry_at (set_pool pf p m) u) ≡ m.words (entry_at m u))
  one_pools pf_kernel = (
    refl,
    refl,
    SameBeside-pools m _ _ _,
    record { page_dir = refl; entries = λ i l. refl },
    λ u. refl,
  )
  one_pools pf_user = (
    refl,
    refl,
    SameBeside-pools m _ _ _,
    record { page_dir = refl; entries = λ i l. refl },
    λ u. refl,
  )

  pub Released-one :
      (pf : PoolFlags)
      → IsTables m
      → HasTable m v
      → IsPage v
      → v % 4096 ≡ 0
      → Changed (pool_of pf m) f false p
      → Released pf m v 1 (λ i. f) (cleared (set_pool pf p m) v)
  Released-one pf ht there low al c =
      let m1 = set_pool pf p m in
      let (at, other, beside, st, same) = one_pools pf in
      let h1 = IsTables-same m m1 st ht in
      let t1 = HasTable-same m m1 v st (omega arith) there in
      let w = m1.words (entry_at m1 v) / 2 * 2 in
      let gone : odd ((cleared m1 v).words (entry_at (cleared m1 v) v)) ≡ false =
        ap odd (entered-here m1 h1 v w low t1) ∙ even_odd (m1.words (entry_at m1 v)) in
      record {
        split = clear-IsSplit m1 (IsSplit-Changed pf c);
        start = ap (λ q. q.phy_addr_start) at ∙ c.start;
        len = ap (λ q. q.pool_bitmap.btmp_bytes_len) at ∙ c.len;
        freed = λ i l. subst (λ q. taken q f ≡ false) (sym at) c.here;
        kept = λ q o n.
            subst (λ r. taken r q ≡ taken (pool_of pf m) q) (sym at)
              (c.others q o (n 0 (omega arith)));
        unmapped = λ i l.
            let e : v ≡ v + i * 4096 = omega arith in subst (Absent (cleared m1 v)) e (inr gone);
        others = λ u g l o t.
            entered-Mapped m1 h1 v w low t1 u l (beyond u o) g
              (Mapped-words m m1 u g (st.entries (u / 2 ^ 22) (omega arith)) (same u) t);
        absent = λ u l o t.
            entered-Absent m1 h1 v w low t1 u l (beyond u o)
              (Absent-words m m1 u (st.entries (u / 2 ^ 22) (omega arith)) (same u) t);
        tables = SameTables-trans m m1 _ st (entered-SameTables m1 h1 v w low t1);
        other_pool = other;
        beside = beside;
      }
    where
      beyond : (u : ℕ) → u < v ⊎ (v + 1 * 4096 ≤ u) → u / 4096 ≢ v / 4096
      beyond u o e = ground arith

pub Released-join :
    (pf : PoolFlags) (a b c : KernelMemory) (v n : ℕ) (frame : ℕ → ℕ)
    → v % 4096 ≡ 0
    → 0x400000 ≤ v
    → v + suc n * 4096 ≤ 0xffc00000
    → Run pf a v (suc n) frame
    → Released pf a v 1 (λ i. frame 0) b
    → Released pf b (v + 4096) n (λ i. frame (suc i)) c
    → Released pf a v (suc n) frame c
Released-join pf a b c v n frame al low room run p q = record {
  split = q.split;
  start = q.start ∙ p.start;
  len = q.len ∙ p.len;
  freed = freed;
  kept = λ f o ne.
      q.kept f (Owns-start p.start p.len o) (λ i l. ne (suc i) (omega arith))
      ∙ p.kept f o (λ i l. ne 0 (omega arith));
  unmapped = unmapped;
  others = λ u g l o t. q.others u g l (ground arith) (p.others u g l (ground arith) t);
  absent = λ u l o t. q.absent u l (ground arith) (p.absent u l (ground arith) t);
  tables = SameTables-trans a b c p.tables q.tables;
  other_pool = q.other_pool ∙ p.other_pool;
  beside = SameBeside-trans a b c p.beside q.beside;
}
  where
    freed : (i : ℕ) → i < suc n → taken (pool_of pf c) (frame i) ≡ false
    freed zero l =
        q.kept (frame 0) (Owns-start p.start p.len (run.own 0 l))
          (λ i k. run.apart 0 (suc i) (omega arith) (omega arith))
        ∙ p.freed 0 (omega arith)
    freed (suc i) l = q.freed i (omega arith)

    unmapped : (i : ℕ) → i < suc n → Absent c (v + i * 4096)
    unmapped zero l =
        q.absent (v + 0 * 4096) (omega arith, omega arith) (inl (omega arith))
          (p.unmapped 0 (omega arith))
    unmapped (suc i) l =
        let e : v + 4096 + i * 4096 ≡ v + suc i * 4096 = omega arith in
        subst (Absent c) e (q.unmapped i (omega arith))
