-- ===== src/Memory/Pages/Reserve.antt =====
-- The pools of virtual addresses (sparrow/kernel/memory.c): their invariant, and a run reserved.
use sparrow_os.Common.{
  ℕ, ◌+◌, ◌*◌, ◌%◌, ◌<◌, ◌≤◌, ◌≡◌, ◌≢◌, ◌⊎◌, inl, inr, sym, ap, ◌∙◌, true, false, ◌&&◌, arith, leb,
  ltb, Outcome, done, Bool-cases,
}
use sparrow_os.Bitmap.{Bitmap}
use sparrow_os.Bitmap.View.{used, IsBytes}
use sparrow_os.Bitmap.Scan.{IsRun, IsSmall}
use sparrow_os.Memory.Pages.{
  PoolFlags, pf_kernel, pf_user, Pool, VirtualAddr, KernelMemory, pool_of, vaddr_of, set_vaddr,
  below_stack,
}
use sparrow_os.Memory.Pages.Frames.{Owns, taken}
use sparrow_os.Memory.Pages.Tables.{IsPage, HasTable, IsTables, SameTables, Mapped, Absent, Grows}
use sparrow_os.Memory.Pages.Runs.{RunSet}
use sparrow_os.Memory.Pages.Map.{IsMemory, Kept, Backed}

-- A pool of virtual addresses: its pages lie behind the first 4 MB and below the page tables, the page of the stack of a
-- process is reserved, and a page that is free is not mapped.
pub record IsHeap (pf : PoolFlags) (v : VirtualAddr) (m : KernelMemory) : Type 0 where
  pub bytes : IsBytes v.vaddr_bitmap
  pub small : IsSmall v.vaddr_bitmap
  pub aligned : v.vaddr_start % 4096 ≡ 0
  pub high : 0x400000 ≤ v.vaddr_start
  pub fits : v.vaddr_start + 8 * v.vaddr_bitmap.btmp_bytes_len * 4096 ≤ 0xffc00000
  pub stack :
      (i : ℕ)
      → i < 8 * v.vaddr_bitmap.btmp_bytes_len
      → below_stack pf (v.vaddr_start + i * 4096) ≡ false
      → used v.vaddr_bitmap i ≡ true
  pub gaps :
      (i : ℕ)
      → i < 8 * v.vaddr_bitmap.btmp_bytes_len
      → used v.vaddr_bitmap i ≡ false
      → Absent m (v.vaddr_start + i * 4096)

-- Every page of a pool of virtual addresses has a table.
abbrev pub HasTables : VirtualAddr → KernelMemory → Type 0
HasTables v m =
    (i : ℕ) → i < 8 * v.vaddr_bitmap.btmp_bytes_len → HasTable m (v.vaddr_start + i * 4096)

-- The run of `n` pages at `addr` is free in the pool of virtual addresses.
abbrev pub FreeRun : VirtualAddr → ℕ → ℕ → Type 0
FreeRun v n addr = (i : ℕ) × IsRun v.vaddr_bitmap n i × (addr ≡ v.vaddr_start + i * 4096)

-- Every frame of the pool is taken.
abbrev pub Exhausted : Pool → Type 0
Exhausted p = (q : ℕ) → Owns p q → taken p q ≡ true

-- Beside the `n` pages from `addr` on every page is mapped as before, and no frame is given back.
pub record Outside (m : KernelMemory) (addr n : ℕ) (m' : KernelMemory) : Type 0 where
  pub kernel_pool : Grows m.kernel_pool m'.kernel_pool
  pub user_pool : Grows m.user_pool m'.user_pool
  pub others :
      (u g : ℕ) → IsPage u → u < addr ⊎ (addr + n * 4096 ≤ u) → Mapped m u g → Mapped m' u g
  pub absent : (u : ℕ) → IsPage u → u < addr ⊎ (addr + n * 4096 ≤ u) → Absent m u → Absent m' u
  pub kernel_start : m'.kernel_vaddr.vaddr_start ≡ m.kernel_vaddr.vaddr_start
  pub user_start : m'.userprog_vaddr.vaddr_start ≡ m.userprog_vaddr.vaddr_start

-- What `malloc_page` answers: NULL without a run, NULL without frames, or a run that is backed.
abbrev pub Answers : PoolFlags → KernelMemory → ℕ → ℕ → KernelMemory → Type 0
Answers pf m n addr m' =
    ((addr ≡ 0) × (m' ≡ m) × ((a : ℕ) → ¬ FreeRun (vaddr_of pf m) n a))
    ⊎ ((addr ≡ 0) × Exhausted (pool_of pf m'))
    ⊎ ((i : ℕ) × (addr ≡ (vaddr_of pf m).vaddr_start + i * 4096)
        × IsRun (vaddr_of pf m).vaddr_bitmap n i
        × RunSet (vaddr_of pf m).vaddr_bitmap n i true (vaddr_of pf m').vaddr_bitmap
        × Backed pf m addr n m'
        × Outside m addr n m')

abbrev pub Allocates : PoolFlags → KernelMemory → ℕ → Outcome (ℕ × KernelMemory) → Type 0
Allocates pf m n o =
    (addr : ℕ) × (m' : KernelMemory) × (o ≡ done (addr, m'))
    × IsMemory m'
    × IsHeap pf (vaddr_of pf m') m'
    × SameTables m m'
    × Answers pf m n addr m'

-- The pools of virtual addresses are beside the frames and the tables.
module _ (v : VirtualAddr) (m : KernelMemory) where
  pub IsMemory-set_vaddr : (pf : PoolFlags) → IsMemory m → IsMemory (set_vaddr pf v m)
  IsMemory-set_vaddr pf_kernel h = record { kernel = h.kernel; user = h.user }
  IsMemory-set_vaddr pf_user h = record { kernel = h.kernel; user = h.user }

  pub IsTables-set_vaddr : (pf : PoolFlags) → IsTables m → IsTables (set_vaddr pf v m)
  IsTables-set_vaddr pf_kernel h = record {
    aligned = h.aligned;
    self = h.self;
    beside = h.beside;
    distinct = h.distinct;
  }
  IsTables-set_vaddr pf_user h = record {
    aligned = h.aligned;
    self = h.self;
    beside = h.beside;
    distinct = h.distinct;
  }

  pub HasTable-set_vaddr : (pf : PoolFlags) (u : ℕ) → HasTable m u → HasTable (set_vaddr pf v m) u
  HasTable-set_vaddr pf_kernel u h = h
  HasTable-set_vaddr pf_user u h = h

  pub SameTables-set_vaddr :
      (pf : PoolFlags) (m' : KernelMemory) → SameTables (set_vaddr pf v m) m' → SameTables m m'
  SameTables-set_vaddr pf_kernel m' s = record { page_dir = s.page_dir; entries = s.entries }
  SameTables-set_vaddr pf_user m' s = record { page_dir = s.page_dir; entries = s.entries }

  pub Absent-set_vaddr : (pf : PoolFlags) (u : ℕ) → Absent m u → Absent (set_vaddr pf v m) u
  Absent-set_vaddr pf_kernel u h = h
  Absent-set_vaddr pf_user u h = h

  pub vaddr_of-set_vaddr :
      (pf : PoolFlags) (m' : KernelMemory) (a n : ℕ)
      → Kept (set_vaddr pf v m) a n m'
      → vaddr_of pf m' ≡ v
  vaddr_of-set_vaddr pf_kernel m' a n k = k.beside.kernel_vaddr
  vaddr_of-set_vaddr pf_user m' a n k = k.beside.userprog_vaddr

  pub Backed-set_vaddr :
      (pf : PoolFlags) (a n : ℕ) (m' : KernelMemory)
      → Backed pf (set_vaddr pf v m) a n m'
      → Backed pf m a n m'
  Backed-set_vaddr pf_kernel a n m' b = record {
    frame = b.frame;
    mapped = b.mapped;
    own = b.own;
    fresh = b.fresh;
    taken = b.taken;
    apart = b.apart;
  }
  Backed-set_vaddr pf_user a n m' b = record {
    frame = b.frame;
    mapped = b.mapped;
    own = b.own;
    fresh = b.fresh;
    taken = b.taken;
    apart = b.apart;
  }

pub Outside-set_vaddr :
    (pf : PoolFlags) (m : KernelMemory) (map : Bitmap) (a n : ℕ) (m' : KernelMemory)
    → Kept (set_vaddr pf (record (vaddr_of pf m) { vaddr_bitmap = map }) m) a n m'
    → Outside m a n m'
Outside-set_vaddr pf_kernel m map a n m' k = record {
  kernel_pool = k.kernel_pool;
  user_pool = k.user_pool;
  others = λ u g l o t. k.others u g l o (record { table = t.table; entry = t.entry });
  absent = k.absent;
  kernel_start = ap (λ v. v.vaddr_start) k.beside.kernel_vaddr;
  user_start = ap (λ v. v.vaddr_start) k.beside.userprog_vaddr;
}
Outside-set_vaddr pf_user m map a n m' k = record {
  kernel_pool = k.kernel_pool;
  user_pool = k.user_pool;
  others = λ u g l o t. k.others u g l o (record { table = t.table; entry = t.entry });
  absent = k.absent;
  kernel_start = ap (λ v. v.vaddr_start) k.beside.kernel_vaddr;
  user_start = ap (λ v. v.vaddr_start) k.beside.userprog_vaddr;
}

-- The pool of virtual addresses after a run of it was reserved, and its pages perhaps mapped.
pub IsHeap-reserved :
    (pf : PoolFlags) (v : VirtualAddr) (m m' : KernelMemory) (n i : ℕ) (map : Bitmap)
    → IsHeap pf v m
    → RunSet v.vaddr_bitmap n i true map
    → ((u : ℕ)
        → IsPage u
        → u < v.vaddr_start + i * 4096 ⊎ (v.vaddr_start + i * 4096 + n * 4096 ≤ u)
        → Absent m u
        → Absent m' u)
    → IsHeap pf (record v { vaddr_bitmap = map }) m'
IsHeap-reserved pf v m m' n i map h r keep = record {
  bytes = r.bytes;
  small = omega (arith, h.small, r.len);
  aligned = h.aligned;
  high = h.high;
  fits = omega (arith, h.fits, r.len);
  stack = λ j l b. elim (Bool-cases (leb i j && ltb j (i + n))) [
    | inl inside ↦ r.inside j (ground arith) (ground arith)
    | inr outside ↦ r.outside j (ground arith) ∙ h.stack j (omega (arith, l, r.len)) b
  ];
  gaps = λ j l f. elim (Bool-cases (leb i j && ltb j (i + n))) [
    | inl inside ↦
        let full : used map j ≡ true = r.inside j (ground arith) (ground arith) in
        absurd (ground arith)
    | inr outside ↦
        keep (v.vaddr_start + j * 4096) (omega (arith, h.high), omega (arith, h.fits, l, r.len))
          (ground arith) (h.gaps j (omega (arith, l, r.len)) (sym (r.outside j (ground arith)) ∙ f))
  ];
}

-- The kernel has no page that the ASSERT of `vaddr_get` excludes.
pub below_stack-kernel : (a : ℕ) → below_stack pf_kernel a ≢ false
unfolding below_stack
below_stack-kernel a h = ground arith
