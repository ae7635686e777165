-- ===== src/Memory/Pages/Map.antt =====
-- The loop of `malloc_page` (sparrow/kernel/memory.c), which backs the pages of a run by frames.
use sparrow_os.Common.{
  ℕ, ◌+◌, ◌*◌, ◌/◌, ◌%◌, ◌<◌, ◌≤◌, ◌≡◌, ◌≢◌, ◌⊎◌, refl, sym, subst, ◌∙◌, true, false, arith,
}
use sparrow_os.Memory.Pages.{PoolFlags, pf_kernel, pf_user, Pool, KernelMemory, pool_of, set_pool}
use sparrow_os.Memory.Pages.Frames.{IsFrames, Owns, taken}
use sparrow_os.Memory.Pages.Tables.{
  IsPage, SameTables, SameTables-trans, Mapped, Absent, Grows, Grows-refl, Grows-trans, SameBeside,
  SameBeside-pools,
}
use sparrow_os.Memory.Pages.Add.{Added}

-- Both pools of frames are well formed.
pub record IsMemory (m : KernelMemory) : Type 0 where
  pub kernel : IsFrames m.kernel_pool
  pub user : IsFrames m.user_pool

-- Only the `n` pages from `v` on and the pools of frames have changed, and no table is new.
pub record Kept (m : KernelMemory) (v n : ℕ) (m' : KernelMemory) : Type 0 where
  pub kernel_pool : Grows m.kernel_pool m'.kernel_pool
  pub user_pool : Grows m.user_pool m'.user_pool
  pub beside : SameBeside m m'
  pub tables : SameTables m m'
  pub others : (u g : ℕ) → IsPage u → u < v ⊎ (v + n * 4096 ≤ u) → Mapped m u g → Mapped m' u g
  pub absent : (u : ℕ) → IsPage u → u < v ⊎ (v + n * 4096 ≤ u) → Absent m u → Absent m' u

-- The `n` pages from `v` on are mapped to `n` different frames of the pool, all free before.
pub record Backed (pf : PoolFlags) (m : KernelMemory) (v n : ℕ) (m' : KernelMemory) : Type 0 where
  pub frame : ℕ → ℕ
  pub mapped : (i : ℕ) → i < n → Mapped m' (v + i * 4096) (frame i)
  pub own : (i : ℕ) → i < n → Owns (pool_of pf m) (frame i)
  pub fresh : (i : ℕ) → i < n → taken (pool_of pf m) (frame i) ≡ false
  pub taken : (i : ℕ) → i < n → taken (pool_of pf m') (frame i) ≡ true
  pub apart : (i j : ℕ) → i < j → j < n → frame i ≢ frame j

pub SameBeside-trans : (a b c : KernelMemory) → SameBeside a b → SameBeside b c → SameBeside a c
SameBeside-trans a b c p q = record {
  kernel_vaddr = q.kernel_vaddr ∙ p.kernel_vaddr;
  userprog_vaddr = q.userprog_vaddr ∙ p.userprog_vaddr;
  pgdir = q.pgdir ∙ p.pgdir;
  page_dir = q.page_dir ∙ p.page_dir;
  arenas = q.arenas ∙ p.arenas;
  k_block_descs = q.k_block_descs ∙ p.k_block_descs;
  u_block_desc = q.u_block_desc ∙ p.u_block_desc;
}

pub Kept-IsMemory : (m m' : KernelMemory) (v n : ℕ) → Kept m v n m' → IsMemory m'
Kept-IsMemory m m' v n k = record { kernel = k.kernel_pool.frames; user = k.user_pool.frames }

-- A pool of frames that has changed within a pool that has grown.
pub Kept-pool :
    (pf : PoolFlags) (m m' : KernelMemory) (v n : ℕ)
    → Kept m v n m'
    → Grows (pool_of pf m) (pool_of pf m')
Kept-pool pf_kernel m m' v n k = k.kernel_pool
Kept-pool pf_user m m' v n k = k.user_pool

pub IsMemory-pool : (pf : PoolFlags) (m : KernelMemory) → IsMemory m → IsFrames (pool_of pf m)
IsMemory-pool pf_kernel m h = h.kernel
IsMemory-pool pf_user m h = h.user

-- `palloc` on one of the pools changes no mapping.
pub Kept-pools :
    (m : KernelMemory) (k u : Pool) (v n : ℕ)
    → Grows m.kernel_pool k
    → Grows m.user_pool u
    → Kept m v n (record m { kernel_pool = k; user_pool = u })
Kept-pools m k u v n gk gu = record {
  kernel_pool = gk;
  user_pool = gu;
  beside = SameBeside-pools m _ _ _;
  tables = record { page_dir = refl; entries = λ i l. refl };
  others = λ a g l o t. record { table = t.table; entry = t.entry };
  absent = λ a l o t. t;
}

pub Kept-set_pool :
    (pf : PoolFlags) (m : KernelMemory) (p : Pool) (v n : ℕ)
    → IsMemory m
    → Grows (pool_of pf m) p
    → Kept m v n (set_pool pf p m)
Kept-set_pool pf_kernel m p v n h g =
    Kept-pools m p m.user_pool v n g (Grows-refl m.user_pool h.user)
Kept-set_pool pf_user m p v n h g =
    Kept-pools m m.kernel_pool p v n (Grows-refl m.kernel_pool h.kernel) g

pub Added-Kept :
    (m : KernelMemory) (v f : ℕ) (m' : KernelMemory)
    → IsMemory m
    → v % 4096 ≡ 0
    → Added m v f m'
    → SameTables m m'
    → Kept m v 1 m'
Added-Kept m v f m' h al a s = record {
  kernel_pool = a.kernel_pool;
  user_pool = subst (λ p. Grows m.user_pool p) (sym a.user_pool) (Grows-refl m.user_pool h.user);
  beside = a.beside;
  tables = s;
  others = λ u g l o t. a.others u g l (λ e. beyond u v o al e) t;
  absent = λ u l o t. a.absent u l (λ e. beyond u v o al e) t;
}
  where
    beyond : (u v : ℕ) → u < v ⊎ (v + 1 * 4096 ≤ u) → v % 4096 ≡ 0 → u / 4096 ≢ v / 4096
    beyond u v o al e = ground arith

pub Kept-join :
    (a b c : KernelMemory) (v k n : ℕ)
    → Kept a v k b
    → Kept b (v + k * 4096) n c
    → Kept a v (k + n) c
Kept-join a b c v k n p q = record {
  kernel_pool = Grows-trans p.kernel_pool q.kernel_pool;
  user_pool = Grows-trans p.user_pool q.user_pool;
  beside = SameBeside-trans a b c p.beside q.beside;
  tables = SameTables-trans a b c p.tables q.tables;
  others = λ u g l o t. q.others u g l (ground arith) (p.others u g l (ground arith) t);
  absent = λ u l o t. q.absent u l (ground arith) (p.absent u l (ground arith) t);
}

pub Kept-weaken : (a b : KernelMemory) (v k n : ℕ) → k ≤ n → Kept a v k b → Kept a v n b
Kept-weaken a b v k n h p = record {
  kernel_pool = p.kernel_pool;
  user_pool = p.user_pool;
  beside = p.beside;
  tables = p.tables;
  others = λ u g l o t. p.others u g l (ground arith) t;
  absent = λ u l o t. p.absent u l (ground arith) t;
}

pub Kept-both : (a b c : KernelMemory) (v n : ℕ) → Kept a v n b → Kept b v n c → Kept a v n c
Kept-both a b c v n p q = record {
  kernel_pool = Grows-trans p.kernel_pool q.kernel_pool;
  user_pool = Grows-trans p.user_pool q.user_pool;
  beside = SameBeside-trans a b c p.beside q.beside;
  tables = SameTables-trans a b c p.tables q.tables;
  others = λ u g l o t. q.others u g l o (p.others u g l o t);
  absent = λ u l o t. q.absent u l o (p.absent u l o t);
}
