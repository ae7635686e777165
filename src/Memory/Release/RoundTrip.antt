-- ===== src/Memory/Release/RoundTrip.antt =====
-- `mfree_page` after `malloc_page` (sparrow/kernel/memory.c).
use sparrow_os.Common.{
  ℕ, ◌+◌, ◌*◌, ◌<◌, ◌≤◌, ◌≡◌, ◌⊎◌, inl, inr, refl, sym, ap, subst, ◌∙◌, true, false, ◌&&◌, arith,
  leb, ltb, done, Bool-cases,
}
use sparrow_os.Bitmap.{Bitmap}
use sparrow_os.Bitmap.View.{used}
use sparrow_os.Bitmap.Scan.{IsRun}
use sparrow_os.Memory.Pages.{
  PoolFlags, pf_kernel, pf_user, VirtualAddr, KernelMemory, pool_of, vaddr_of, set_vaddr,
  below_stack, malloc_page,
}
use sparrow_os.Memory.Pages.Frames.{taken}
use sparrow_os.Memory.Pages.Tables.{
  IsPage, IsTables, IsTables-same, Mapped, Absent, Grows, Owns-start,
}
use sparrow_os.Memory.Pages.Runs.{RunSet}
use sparrow_os.Memory.Pages.Map.{IsMemory, Backed}
use sparrow_os.Memory.Pages.Reserve.{IsHeap, HasTables, Outside, Absent-set_vaddr}
use sparrow_os.Memory.Pages.Allocate.{malloc_page-Allocates}
use sparrow_os.Memory.Release.{mfree_page}
use sparrow_os.Memory.Release.Free.{IsSplit}
use sparrow_os.Memory.Release.Unmap.{Run, Released}
use sparrow_os.Memory.Release.Mfree.{mfree_page-Gone}

-- `m'` has the virtual pages, the mappings and the frames of the run as `m` had them.
pub record Restored (pf : PoolFlags) (m : KernelMemory) (addr n : ℕ) (frame : ℕ → ℕ)
    (m' : KernelMemory) : Type 0 where
  pub bits : (j : ℕ) → used (vaddr_of pf m').vaddr_bitmap j ≡ used (vaddr_of pf m).vaddr_bitmap j
  pub unmapped : (i : ℕ) → i < n → Absent m' (addr + i * 4096)
  pub others :
      (u g : ℕ) → IsPage u → u < addr ⊎ (addr + n * 4096 ≤ u) → Mapped m u g → Mapped m' u g
  pub absent : (u : ℕ) → IsPage u → u < addr ⊎ (addr + n * 4096 ≤ u) → Absent m u → Absent m' u
  pub free_before : (i : ℕ) → i < n → taken (pool_of pf m) (frame i) ≡ false
  pub free_after : (i : ℕ) → i < n → taken (pool_of pf m') (frame i) ≡ false

module _ (v : VirtualAddr) (b : KernelMemory) where
  Mapped-set_vaddr : (pf : PoolFlags) (u g : ℕ) → Mapped b u g → Mapped (set_vaddr pf v b) u g
  Mapped-set_vaddr pf_kernel u g t = record { table = t.table; entry = t.entry }
  Mapped-set_vaddr pf_user u g t = record { table = t.table; entry = t.entry }

  vaddr_of-set : (pf : PoolFlags) → vaddr_of pf (set_vaddr pf v b) ≡ v
  vaddr_of-set pf_kernel = refl
  vaddr_of-set pf_user = refl

  pool_of-set : (pf : PoolFlags) → pool_of pf (set_vaddr pf v b) ≡ pool_of pf b
  pool_of-set pf_kernel = refl
  pool_of-set pf_user = refl

restored_bits :
    (a b c : Bitmap) (n i : ℕ)
    → IsRun a n i
    → RunSet a n i true b
    → RunSet b n i false c
    → (j : ℕ) → used c j ≡ used a j
restored_bits a b c n i run p q j = elim (Bool-cases (leb i j && ltb j (i + n))) [
  | inl inside ↦
      let le : i ≤ j = ground arith in
      let lt : j < i + n = ground arith in q.inside j le lt ∙ sym (run.free j le lt)
  | inr outside ↦ q.outside j (ground arith) ∙ p.outside j (ground arith)
]

IsSplit-grown :
    (m m' : KernelMemory) (addr n : ℕ) → IsSplit m → IsMemory m' → Outside m addr n m' → IsSplit m'
IsSplit-grown m m' addr n h hm o = record {
  pools = hm;
  behind_tables = omega (arith, h.behind_tables, o.kernel_pool.start);
  apart = omega (arith, h.apart, o.kernel_pool.start, o.kernel_pool.len, o.user_pool.start);
}

same_start :
    (pf : PoolFlags) (m m' : KernelMemory) (addr n : ℕ)
    → Outside m addr n m'
    → (vaddr_of pf m').vaddr_start ≡ (vaddr_of pf m).vaddr_start
same_start pf_kernel m m' addr n o = o.kernel_start
same_start pf_user m m' addr n o = o.user_start

pool-Grows :
    (pf : PoolFlags) (m m' : KernelMemory) (addr n : ℕ)
    → Outside m addr n m'
    → Grows (pool_of pf m) (pool_of pf m')
pool-Grows pf_kernel m m' addr n o = o.kernel_pool
pool-Grows pf_user m m' addr n o = o.user_pool

-- A run that was free does not reach into the page of the stack.
run_below :
    (pf : PoolFlags) (v : VirtualAddr) (m : KernelMemory) (n i : ℕ)
    → IsHeap pf v m
    → IsRun v.vaddr_bitmap n i
    → (j : ℕ) → i ≤ j
    → j < i + n
    → below_stack pf (v.vaddr_start + j * 4096) ≡ true
run_below pf v m n i h run j a b = elim (Bool-cases (below_stack pf (v.vaddr_start + j * 4096))) [
  | inl below ↦ below
  | inr above ↦
      let full = h.stack j (omega (arith, run.inside)) above in
      let free = run.free j a b in absurd (ground arith)
]

-- What the two calls do together.
abbrev pub GivesBack : PoolFlags → KernelMemory → ℕ → ℕ → KernelMemory → Type 0
GivesBack pf m n addr m' =
    (frame : ℕ → ℕ) × (m'' : KernelMemory) × (mfree_page pf addr n m' ≡ done m'')
    × Restored pf m addr n frame m''

module _ (pf : PoolFlags) (m m' : KernelMemory) (addr n i : ℕ) where
  Gone-Restored :
      Outside m addr n m'
      → IsRun (vaddr_of pf m).vaddr_bitmap n i
      → RunSet (vaddr_of pf m).vaddr_bitmap n i true (vaddr_of pf m').vaddr_bitmap
      → (back : Backed pf m addr n m') → (b : KernelMemory) (map : Bitmap)
      → Released pf m' addr n back.frame b
      → RunSet (vaddr_of pf m').vaddr_bitmap n i false map
      → Restored pf m addr n back.frame
          (set_vaddr pf (record (vaddr_of pf m') { vaddr_bitmap = map }) b)
  Gone-Restored o run marked back b map r clear =
      let v : VirtualAddr = record (vaddr_of pf m') { vaddr_bitmap = map } in
      record {
        bits = λ j.
            ap (λ x. used x.vaddr_bitmap j) (vaddr_of-set v b pf)
            ∙ restored_bits (vaddr_of pf m).vaddr_bitmap (vaddr_of pf m').vaddr_bitmap map n i run
                marked clear j;
        unmapped = λ k l. Absent-set_vaddr v b pf (addr + k * 4096) (r.unmapped k l);
        others =
            λ u g l out t. Mapped-set_vaddr v b pf u g (r.others u g l out (o.others u g l out t));
        absent = λ u l out t. Absent-set_vaddr v b pf u (r.absent u l out (o.absent u l out t));
        free_before = back.fresh;
        free_after = λ k l. ap (λ p. taken p (back.frame k)) (pool_of-set v b pf) ∙ r.freed k l;
      }

-- From well-formed pools, a page directory whose last entry is itself and whose entries 1 to 1022
-- name different tables where they are there, and a heap all of whose pages have a table: for 1 to
-- 3839 pages `malloc_page` ends, and where it answers with an address other than NULL, `mfree_page`
-- of that address and count ends too. Then every bit of the virtual pages is as it was before both
-- calls, the frames of the run are free again, the pages of the run are not mapped, and all other
-- pages from 0x400000 on and below the tables at 0xffc00000 that were mapped, or were not, are so
-- still.
pub mfree_page-malloc_page :
    (pf : PoolFlags) (n : ℕ) (m : KernelMemory)
    → 0 < n
    → n < 3840
    → IsSplit m
    → IsTables m
    → HasTables (vaddr_of pf m) m
    → IsHeap pf (vaddr_of pf m) m
    → (addr : ℕ) × (m' : KernelMemory) × (malloc_page pf n m ≡ done (addr, m'))
      × ((addr ≡ 0) ⊎ GivesBack pf m n addr m')
mfree_page-malloc_page pf n m pos small h ht has heap =
    let (addr, m', e, hm, heap', st, answer) =
      malloc_page-Allocates pf n m pos small h.pools ht has heap in
    (
      addr,
      m',
      e,
      elim answer [
        | inl (z, same, rest) ↦ inl z
        | inr (inl (z, rest)) ↦ inl z
        | inr (inr (i, at, run, marked, back, o)) ↦
            inr (gives_back addr m' hm (IsTables-same m m' st ht) heap' i at run marked back o)
      ],
    )
  where
    gives_back :
        (addr : ℕ) (m' : KernelMemory)
        → IsMemory m'
        → IsTables m'
        → IsHeap pf (vaddr_of pf m') m'
        → (i : ℕ) → addr ≡ (vaddr_of pf m).vaddr_start + i * 4096
        → IsRun (vaddr_of pf m).vaddr_bitmap n i
        → RunSet (vaddr_of pf m).vaddr_bitmap n i true (vaddr_of pf m').vaddr_bitmap
        → Backed pf m addr n m'
        → Outside m addr n m'
        → GivesBack pf m n addr m'
    gives_back addr m' hm ht' heap' i at run marked back o =
        let start = same_start pf m m' addr n o in
        let g = pool-Grows pf m m' addr n o in
        let here : addr ≡ (vaddr_of pf m').vaddr_start + i * 4096 = omega arith in
        let it : Run pf m' addr n back.frame = record {
          mapped = back.mapped;
          own = λ k l. Owns-start g.start g.len (back.own k l);
          apart = back.apart;
        } in
        let (b, map, e, r, clear, heap'') =
          mfree_page-Gone pf i n m' back.frame pos (IsSplit-grown m m' addr n h hm o) ht' heap'
            (omega (arith, run.inside, marked.len))
            (λ j a c.
              ap (λ s. below_stack pf (s + j * 4096)) start
              ∙ run_below pf (vaddr_of pf m) m n i heap run j a c)
            (subst (λ a. Run pf m' a n back.frame) here it) in
        (
          back.frame,
          set_vaddr pf (record (vaddr_of pf m') { vaddr_bitmap = map }) b,
          ap (λ a. mfree_page pf a n m') here ∙ e,
          Gone-Restored pf m m' addr n i o run marked back b map
              (subst (λ a. Released pf m' a n back.frame b) (sym here) r) clear,
        )
