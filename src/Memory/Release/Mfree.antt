-- ===== src/Memory/Release/Mfree.antt =====
-- `mfree_page` of sparrow/kernel/memory.c gives a run of pages back.
use sparrow_os.Common.{
  ℕ, zero, suc, ◌+◌, ◌-◌, ◌*◌, ◌/◌, ◌%◌, ◌<◌, ◌≤◌, ◌≡◌, ◌⊎◌, inl, inr, refl, sym, ap, subst, ◌∙◌,
  true, false, ◌&&◌, arith, leb, ltb, ◌==◌, add32, sub32, Outcome, done, Bool-cases,
}
use sparrow_os.Bitmap.{Bitmap}
use sparrow_os.Memory.Pages.{
  PoolFlags, pf_kernel, pf_user, Pool, VirtualAddr, KernelMemory, pool_of, set_pool, vaddr_of,
  set_vaddr, set_run,
}
use sparrow_os.Memory.Pages.Frames.{Owns}
use sparrow_os.Memory.Pages.Tables.{
  IsPage, IsTables, SameBeside-pools, Mapped, Absent, Owns-start, SameBeside, IsTables-same,
}
use sparrow_os.Memory.Pages.Runs.{RunSet, set_run-RunSet}
use sparrow_os.Memory.Pages.{below_stack}
use sparrow_os.Memory.Pages.Reserve.{IsHeap}
use sparrow_os.Memory.Release.{
  frame_pool, pfree, page_table_pte_remove, addr_v2p, may_free, unmap_pages, vaddr_remove,
  mfree_page,
}
use sparrow_os.Memory.Release.Free.{IsSplit, pfree-Frees, frame_pool-Owns, addr_v2p-Mapped}
use sparrow_os.Memory.Release.Unmap.{
  Run, Released, cleared, page_table_pte_remove_lem, may_free_own, Released-one, Released-join,
}

unmap_step :
    (pf : PoolFlags) (n v f : ℕ) (m : KernelMemory) (p : Pool)
    → addr_v2p v m ≡ f
    → may_free pf f m ≡ true
    → pfree f m ≡ done (set_pool pf p m)
    → page_table_pte_remove v (set_pool pf p m) ≡ cleared (set_pool pf p m) v
    → add32 v 4096 ≡ v + 4096
    → unmap_pages pf (suc n) v m ≡ unmap_pages pf n (v + 4096) (cleared (set_pool pf p m) v)
unfolding unmap_pages
unmap_step pf n v f m p e a s r next = rw (e, a, s, r, next) refl

-- The rest of a run, after its first page.
Run-tail :
    (pf : PoolFlags) (m b : KernelMemory) (v n : ℕ) (frame : ℕ → ℕ)
    → v % 4096 ≡ 0
    → 0x400000 ≤ v
    → v + suc n * 4096 ≤ 0xffc00000
    → Run pf m v (suc n) frame
    → Released pf m v 1 (λ i. frame 0) b
    → Run pf b (v + 4096) n (λ i. frame (suc i))
Run-tail pf m b v n frame al low room run r = record {
  mapped = λ i l.
      let e : v + suc i * 4096 ≡ v + 4096 + i * 4096 = omega arith in
      subst (λ a. Mapped b a (frame (suc i))) e
        (r.others (v + suc i * 4096) (frame (suc i)) (omega arith, omega arith) (inr (omega arith))
          (run.mapped (suc i) (omega arith)));
  own = λ i l. Owns-start r.start r.len (run.own (suc i) (omega arith));
  apart = λ i j a l. run.apart (suc i) (suc j) (omega arith) (omega arith);
}

-- The start of a page that is mapped.
addr_v2p-first :
    (m : KernelMemory) (v f : ℕ)
    → IsTables m
    → v % 4096 ≡ 0
    → f % 4096 ≡ 0
    → IsPage v
    → Mapped m v f
    → addr_v2p v m ≡ f
addr_v2p-first m v f h al af low t =
    let at : v + 0 ≡ v = omega arith in
    let base : f + 0 ≡ f = omega arith in
    ap (λ a. addr_v2p a m) (sym at) ∙ addr_v2p-Mapped m v f 0 h al af (omega arith) low t ∙ base

abbrev pub Unmaps : PoolFlags → KernelMemory → ℕ → ℕ → (ℕ → ℕ) → Outcome KernelMemory → Type 0
Unmaps pf m v n frame o = (m' : KernelMemory) × (o ≡ done m') × Released pf m v n frame m'

SameBeside-refl : (m : KernelMemory) → SameBeside m m
SameBeside-refl m = SameBeside-pools m m.kernel_pool m.user_pool m.words

Released-none :
    (pf : PoolFlags) (m : KernelMemory) (v : ℕ) (frame : ℕ → ℕ)
    → IsSplit m
    → Released pf m v 0 frame m
Released-none pf m v frame h = record {
  split = h;
  start = refl;
  len = refl;
  freed = λ i l. absurd (omega arith);
  kept = λ q o n. refl;
  unmapped = λ i l. absurd (omega arith);
  others = λ u g l o t. t;
  absent = λ u l o t. t;
  tables = record { page_dir = refl; entries = λ i l. refl };
  other_pool = refl;
  beside = SameBeside-refl m;
}

IsTables-set_pool :
    (pf : PoolFlags) (p : Pool) (m : KernelMemory) → IsTables m → IsTables (set_pool pf p m)
IsTables-set_pool pf_kernel p m h =
    IsTables-same m _ (record { page_dir = refl; entries = λ i l. refl }) h
IsTables-set_pool pf_user p m h =
    IsTables-same m _ (record { page_dir = refl; entries = λ i l. refl }) h

-- The loop ends, whatever the length of the run.
unmap_pages-Unmaps :
    (pf : PoolFlags) (n v : ℕ) (m : KernelMemory) (frame : ℕ → ℕ)
    → IsSplit m
    → IsTables m
    → v % 4096 ≡ 0
    → 0x400000 ≤ v
    → v + n * 4096 ≤ 0xffc00000
    → Run pf m v n frame
    → Unmaps pf m v n frame (unmap_pages pf n v m)
unfolding unmap_pages
unmap_pages-Unmaps pf zero v m frame h ht al low room run = (m, refl, Released-none pf m v frame h)
unmap_pages-Unmaps pf (suc n) v m frame h ht al low room run =
    let f = frame 0 in
    let here : v + 0 * 4096 ≡ v = omega arith in
    let own = run.own 0 (omega arith) in
    let page : IsPage v = (omega arith, omega arith) in
    let first = subst (λ a. Mapped m a f) here (run.mapped 0 (omega arith)) in
    let ((p, s, c), twin) = pfree-Frees pf m f h own in
    let b = cleared (set_pool pf p m) v in
    let one = Released-one m h v f p pf ht first.table page al c in
    let (m', e, r) =
      unmap_pages-Unmaps pf n (v + 4096) b (λ i. frame (suc i)) one.split
        (IsTables-same m b one.tables ht) (omega arith) (omega arith) (omega arith)
        (Run-tail pf m b v n frame al low room run one) in
    (
      m',
      unmap_step pf n v f m p (addr_v2p-first m v f ht al own.aligned page first)
            (may_free_own m h v f p pf own) s
            (page_table_pte_remove_lem (set_pool pf p m) v (IsTables-set_pool pf p m ht)
              (omega arith))
            (omega arith)
          ∙ e,
      Released-join pf m b m' v n frame al low room run one r,
    )

vaddr_remove_lem :
    (pf : PoolFlags) (a n i : ℕ) (m : KernelMemory) (map : Bitmap)
    → sub32 a (vaddr_of pf m).vaddr_start / 4096 ≡ i
    → set_run n i 0 (vaddr_of pf m).vaddr_bitmap ≡ done map
    → vaddr_remove pf a n m ≡ done (set_vaddr pf (record (vaddr_of pf m) { vaddr_bitmap = map }) m)
unfolding vaddr_remove
vaddr_remove_lem pf a n i m map e s = rw (e, s) refl

mfree_lem :
    (pf : PoolFlags) (v n first : ℕ) (m b : KernelMemory) (r : Outcome KernelMemory)
    → 0 < n
    → v % 4096 ≡ 0
    → first % 4096 ≡ 0
    → 0x102000 ≤ first
    → addr_v2p v m ≡ first
    → frame_pool m first ≡ pf
    → unmap_pages pf n v m ≡ done b
    → vaddr_remove pf v n b ≡ r
    → mfree_page pf v n m ≡ r
unfolding mfree_page
mfree_lem pf v n first m b r pos al af high e own u q =
    let test : (leb 1 n && (v % 4096 == 0)) ≡ true = ground arith in
    let first_test : (first % 4096 == 0 && leb 0x102000 first) ≡ true = ground arith in
    rw (test, e, first_test, own, u) q

IsHeap-given :
    (pf : PoolFlags) (v : VirtualAddr) (m b : KernelMemory) (n i : ℕ) (map : Bitmap)
    → IsHeap pf v m
    → RunSet v.vaddr_bitmap n i false map
    → ((j : ℕ)
        → j < 8 * v.vaddr_bitmap.btmp_bytes_len
        → i ≤ j
        → j < i + n
        → below_stack pf (v.vaddr_start + j * 4096) ≡ true)
    → ((j : ℕ) → j < n → Absent b (v.vaddr_start + i * 4096 + j * 4096))
    → ((u : ℕ)
        → IsPage u
        → u < v.vaddr_start + i * 4096 ⊎ (v.vaddr_start + i * 4096 + n * 4096 ≤ u)
        → Absent m u
        → Absent b u)
    → IsHeap pf (record v { vaddr_bitmap = map }) b
IsHeap-given pf v m b n i map h r low gone keep = record {
  bytes = r.bytes;
  small = omega (arith, h.small, r.len);
  aligned = h.aligned;
  high = h.high;
  fits = omega (arith, h.fits, r.len);
  stack = λ j l above. elim (Bool-cases (leb i j && ltb j (i + n))) [
    | inl inside ↦
        let below = low j (omega (arith, l, r.len)) (ground arith) (ground arith) in
        absurd (ground arith)
    | inr outside ↦ r.outside j (ground arith) ∙ h.stack j (omega (arith, l, r.len)) above
  ];
  gaps = λ j l f. elim (Bool-cases (leb i j && ltb j (i + n))) [
    | inl inside ↦
        let le : i ≤ j = ground arith in
        let e : v.vaddr_start + i * 4096 + (j - i) * 4096 ≡ v.vaddr_start + j * 4096 =
          omega arith in
        subst (Absent b) e (gone (j - i) (ground arith))
    | inr outside ↦
        keep (v.vaddr_start + j * 4096) (omega (arith, h.high), omega (arith, h.fits, l, r.len))
          (ground arith) (h.gaps j (omega (arith, l, r.len)) (sym (r.outside j (ground arith)) ∙ f))
  ];
}

above_tables :
    (pf : PoolFlags) (m : KernelMemory) (f : ℕ) → IsSplit m → Owns (pool_of pf m) f → 0x102000 ≤ f
above_tables pf_kernel m f h o = omega (arith, h.behind_tables, o.above)
above_tables pf_user m f h o = omega (arith, h.behind_tables, h.apart, o.above)

-- The result of `mfree_page`: the run of frames and pages is released in `b`, and the bits of the
-- virtual pages are clear in `map`.
abbrev pub Gone : PoolFlags → KernelMemory → ℕ → ℕ → (ℕ → ℕ) → Outcome KernelMemory → Type 0
Gone pf m i n frame o =
    let heap = vaddr_of pf m in
    (b : KernelMemory) × (map : Bitmap) × (o
      ≡ done (set_vaddr pf (record heap { vaddr_bitmap = map }) b))
    × Released pf m (heap.vaddr_start + i * 4096) n frame b
    × RunSet heap.vaddr_bitmap n i false map
    × IsHeap pf (record heap { vaddr_bitmap = map }) b

same_heap : (pf : PoolFlags) (m b : KernelMemory) → SameBeside m b → vaddr_of pf b ≡ vaddr_of pf m
same_heap pf_kernel m b s = s.kernel_vaddr
same_heap pf_user m b s = s.userprog_vaddr

-- With page tables that are different, `mfree_page` of a run of pages of the heap that are mapped to different frames of the pool always
-- ends without a failed ASSERT. It frees these frames and these virtual pages and no other, the
-- pages are no longer mapped, every other mapping is kept, and the pools stay well formed.
pub mfree_page-Gone :
    (pf : PoolFlags) (i n : ℕ) (m : KernelMemory) (frame : ℕ → ℕ)
    → 0 < n
    → IsSplit m
    → IsTables m
    → IsHeap pf (vaddr_of pf m) m
    → i + n ≤ 8 * (vaddr_of pf m).vaddr_bitmap.btmp_bytes_len
    → ((j : ℕ) → i ≤ j → j < i + n → below_stack pf ((vaddr_of pf m).vaddr_start + j * 4096) ≡ true)
    → Run pf m ((vaddr_of pf m).vaddr_start + i * 4096) n frame
    → Gone pf m i n frame (mfree_page pf ((vaddr_of pf m).vaddr_start + i * 4096) n m)
mfree_page-Gone pf i n m frame pos h ht heap room low run =
    let va = vaddr_of pf m in
    let v = va.vaddr_start + i * 4096 in
    let al : v % 4096 ≡ 0 = omega (arith, heap.aligned) in
    let own = run.own 0 pos in
    let here : v + 0 * 4096 ≡ v = omega arith in
    let seen =
      addr_v2p-first m v (frame 0) ht al own.aligned
        (omega (arith, heap.high), omega (arith, heap.fits))
        (subst (λ a. Mapped m a (frame 0)) here (run.mapped 0 pos)) in
    let (b, e, r) =
      unmap_pages-Unmaps pf n v m frame h ht al (omega (arith, heap.high))
        (omega (arith, heap.fits)) run in
    let same = same_heap pf m b r.beside in
    let (map, s, bits) =
      set_run-RunSet n i 0 va.vaddr_bitmap heap.bytes (omega arith) (omega (arith, heap.small)) in
    let idx : sub32 v va.vaddr_start / 4096 ≡ i = omega (arith, heap.fits) in
    let removed =
      vaddr_remove_lem pf v n i b map (ap (λ x. sub32 v x.vaddr_start / 4096) same ∙ idx)
        (ap (λ x. set_run n i 0 x.vaddr_bitmap) same ∙ s)
      ∙ ap (λ x. done (set_vaddr pf (record x { vaddr_bitmap = map }) b)) same in
    (
      b,
      map,
      mfree_lem pf v n (frame 0) m b _ pos al own.aligned (above_tables pf m (frame 0) h own) seen
          (frame_pool-Owns pf m (frame 0) h own) e removed,
      r,
      bits,
      IsHeap-given pf va m b n i map heap bits (λ j l a c. low j a c) r.unmapped r.absent,
    )
