-- ===== src/Memory/Pages/Allocate.antt =====
-- `malloc_page` of sparrow/kernel/memory.c as a whole: the run of virtual pages that it reserves.
use sparrow_os.Common.{
  ℕ, ◌+◌, ◌*◌, ◌<◌, ◌≤◌, ◌≡◌, inl, inr, refl, sym, subst, Bool, true, false, Option, none, some,
  arith, ◌==◌, if◌then◌else◌, add32, mul32, Outcome, done, panic, out_of_fuel, ◌>>=◌, Bool-cases,
  lt→ltb,
}
use sparrow_os.Bitmap.{Bitmap, bitmap_scan}
use sparrow_os.Bitmap.Scan.{IsRun, Finds, bitmap_scan-Finds}
use sparrow_os.Memory.Pages.{
  PoolFlags, VirtualAddr, KernelMemory, vaddr_of, set_vaddr, set_run, below_stack, reserve,
  vaddr_get, map_pages, back_pages, malloc_page,
}
use sparrow_os.Memory.Pages.Tables.{HasTable, IsTables, Absent}
use sparrow_os.Memory.Pages.Runs.{RunSet, set_run-RunSet}
use sparrow_os.Memory.Pages.Map.{IsMemory, Kept-IsMemory}
use sparrow_os.Memory.Pages.Malloc.{map_pages-Maps}
use sparrow_os.Memory.Pages.Reserve.{
  IsHeap, HasTables, Allocates, IsTables-set_vaddr, HasTable-set_vaddr, SameTables-set_vaddr,
  IsMemory-set_vaddr, Absent-set_vaddr, vaddr_of-set_vaddr, Backed-set_vaddr, Outside-set_vaddr,
  IsHeap-reserved,
}

module _ (pf : PoolFlags) (n : ℕ) (m : KernelMemory) (pos : 0 < n) where
  abbrev heap : VirtualAddr
  heap = vaddr_of pf m

  reserve_lem :
      (i : ℕ) (map : Bitmap) (start : ℕ)
      → set_run n i 1 heap.vaddr_bitmap ≡ done map
      → add32 heap.vaddr_start (mul32 i 4096) ≡ start
      → below_stack pf start ≡ true
      → reserve pf n m (some i) ≡ done (start, set_vaddr pf (record heap { vaddr_bitmap = map }) m)
  unfolding reserve
  reserve_lem i map start s e b = rw (s, e, b) refl

  start_below :
      (i : ℕ)
      → IsHeap pf heap m
      → IsRun heap.vaddr_bitmap n i
      → below_stack pf (heap.vaddr_start + i * 4096) ≡ true
  start_below i h run = elim (Bool-cases (below_stack pf (heap.vaddr_start + i * 4096))) [
    | inl below ↦ below
    | inr above ↦
        let full = h.stack i (omega (arith, run.inside)) above in
        let free = run.free i (omega arith) (omega arith) in absurd (ground arith)
  ]

  back_pages_lem :
      (start : ℕ) (m1 m' : KernelMemory) (all : Bool)
      → 0 < start
      → map_pages pf n start m1 ≡ done (all, m')
      → back_pages pf n start m1 ≡ done (if all then start else 0, m')
  unfolding back_pages
  back_pages_lem start m1 m' all h e =
      let test : (start == 0) ≡ false = ground arith in rw (test, e) refl

  -- What follows once a run is found.
  allocate_at :
      (i : ℕ)
      → IsMemory m
      → IsTables m
      → HasTables heap m
      → IsHeap pf heap m
      → IsRun heap.vaddr_bitmap n i
      → Allocates pf m n
          (reserve pf n m (some i) >>= λ ((start, m') : ℕ × KernelMemory). back_pages pf n start m')
  allocate_at i hm ht has h run =
      let start = heap.vaddr_start + i * 4096 in
      let (map, s, r) =
        set_run-RunSet n i 1 heap.vaddr_bitmap h.bytes (omega arith)
          (omega (arith, run.inside, h.small)) in
      let v1 : VirtualAddr = record heap { vaddr_bitmap = map } in
      let m1 = set_vaddr pf v1 m in
      let at : add32 heap.vaddr_start (mul32 i 4096) ≡ start = omega (arith, h.fits, run.inside) in
      let got = reserve_lem i map start s at (start_below i h run) in
      let (all, m', e, k, end) =
        map_pages-Maps pf n start m1 (IsMemory-set_vaddr v1 m pf hm) (IsTables-set_vaddr v1 m pf ht)
          (omega (arith, h.aligned)) (omega (arith, h.high)) (omega (arith, h.fits, run.inside))
          (λ j l.
            let there : heap.vaddr_start + (i + j) * 4096 ≡ start + j * 4096 = omega arith in
            let inside : i + j < 8 * heap.vaddr_bitmap.btmp_bytes_len = omega (arith, run.inside) in
            (
              Absent-set_vaddr v1 m pf (start + j * 4096) (
                  subst (Absent m) there
                    (h.gaps (i + j) inside (run.free (i + j) (omega arith) (omega arith)))),
              HasTable-set_vaddr v1 m pf (start + j * 4096)
                  (subst (HasTable m) there (has (i + j) inside)),
            )) in
      let back = back_pages_lem start m1 m' all (omega (arith, h.high)) e in
      let kept =
        IsHeap-reserved pf heap m m' n i map h r
          (λ u l o a. k.absent u l o (Absent-set_vaddr v1 m pf u a)) in
      (
        (if all then start else 0),
        m',
        rw got back,
        Kept-IsMemory m1 m' start n k,
        subst (λ v. IsHeap pf v m') (sym (vaddr_of-set_vaddr v1 m pf m' start n k)) kept,
        SameTables-set_vaddr v1 m pf m' k.tables,
        elim end [
          | inl (yes_all, b) ↦
              let heap' = vaddr_of-set_vaddr v1 m pf m' start n k in
              inr (
                inr (
                  rw yes_all (
                    i,
                    refl,
                    run,
                    subst (λ x. RunSet heap.vaddr_bitmap n i true x.vaddr_bitmap) (sym heap') r,
                    Backed-set_vaddr v1 m pf start n m' b,
                    Outside-set_vaddr pf m map start n m' k,
                  )))
          | inr (not_all, full) ↦ inr (inl (rw not_all refl, full))
        ],
      )

  allocate_none :
      IsMemory m
      → IsHeap pf heap m
      → ((j : ℕ) → 0 ≤ j → ¬ IsRun heap.vaddr_bitmap n j)
      → Allocates pf m n
          (reserve pf n m none >>= λ ((start, m') : ℕ × KernelMemory). back_pages pf n start m')
  unfolding reserve back_pages
  allocate_none hm h no_run = (
    0,
    m,
    refl,
    hm,
    h,
    record { page_dir = refl; entries = λ i l. refl },
    inl (refl, refl, λ a run. no_run run.0 (omega arith) run.1),
  )

  allocate :
      IsMemory m
      → IsTables m
      → HasTables heap m
      → IsHeap pf heap m
      → (o : Outcome (Option ℕ)) → Finds heap.vaddr_bitmap n 0 o
      → Allocates pf m n
          (o >>= reserve pf n m >>= λ ((start, m') : ℕ × KernelMemory). back_pages pf n start m')
  allocate hm ht has h (done none) f = allocate_none hm h f
  allocate hm ht has h (done (some i)) f = allocate_at i hm ht has h f.0
  allocate hm ht has h panic f = absurd f
  allocate hm ht has h out_of_fuel f = absurd f

  -- From well-formed pools, a page directory whose last entry is itself and whose entries 1 to 1022
  -- name different tables where they are there, and a heap all of whose pages have a table: for 1 to
  -- 3839 pages `malloc_page` always ends without a failed ASSERT. It answers with the address of a
  -- run of free virtual pages, each of which is then mapped to a frame of the pool of its own that
  -- was free, while the other pages from 0x400000 on and below the tables at 0xffc00000 are mapped
  -- or not as before; or with NULL, because there is no such run, in which case nothing changes, or
  -- because the pool of frames is exhausted. The pools stay well formed, no virtual page that is
  -- free is mapped, and the page directory stays as it is.
  pub malloc_page-Allocates :
      n < 3840
      → IsMemory m
      → IsTables m
      → HasTables heap m
      → IsHeap pf heap m
      → Allocates pf m n (malloc_page pf n m)
  unfolding malloc_page vaddr_get
  malloc_page-Allocates small hm ht has h =
      rw (lt→ltb 0 n pos, lt→ltb n 3840 small)
        (allocate hm ht has h (bitmap_scan heap.vaddr_bitmap n)
          (bitmap_scan-Finds heap.vaddr_bitmap h.small n pos))
