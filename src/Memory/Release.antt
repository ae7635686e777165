-- ===== src/Memory/Release.antt =====
-- sparrow/kernel/memory.c: pages at a given address, and the way back of frames, of table entries
-- and of virtual addresses.
pub mod Free
pub mod Unmap
pub mod Mfree
pub mod RoundTrip
use sparrow_os.Common.{
  ℕ, zero, suc, ◌+◌, ◌*◌, ◌/◌, ◌%◌, Bool, not, ◌&&◌, ltb, leb, ◌==◌, if◌then◌else◌, add32, sub32,
  Outcome, done, ◌>>=◌, assert_then, or_panic,
}
use sparrow_os.Bitmap.{Bitmap, bitmap_set}
use sparrow_os.Memory.{pte_ptr}
use sparrow_os.Memory.Pages.{
  PoolFlags, pf_kernel, pf_user, KernelMemory, pool_of, set_pool, vaddr_of, set_vaddr, hold, unhold,
  load, write_word, set_run, palloc_in, page_table_add,
}

-- The bit of a virtual address becomes 1.
pub claim_bit : PoolFlags → ℕ → KernelMemory → Outcome KernelMemory
claim_bit pf i m =
    let v = vaddr_of pf m in
    or_panic (bitmap_set v.vaddr_bitmap i 1) >>= λ (map : Bitmap).
    done (set_vaddr pf (record v { vaddr_bitmap = map }) m)

-- The first half of `get_a_page`; an `int32_t` that is a number of pages is never negative.
pub claim_vaddr : PoolFlags → ℕ → KernelMemory → Outcome KernelMemory
claim_vaddr pf_user vaddr m =
    assert_then m.pgdir (claim_bit pf_user (sub32 vaddr m.userprog_vaddr.vaddr_start / 4096) m)
claim_vaddr pf_kernel vaddr m =
    let i = sub32 vaddr m.kernel_vaddr.vaddr_start / 4096 in
    assert_then (not m.pgdir) (assert_then (ltb 0 i) (claim_bit pf_kernel i m))

-- A frame for the page at `vaddr`, under the lock that `get_a_page` took.
pub back_page : PoolFlags → ℕ → KernelMemory → Outcome (ℕ × KernelMemory)
back_page pf vaddr m = palloc_in pf m >>= λ ((frame, m') : ℕ × KernelMemory).
    if frame == 0
    then (unhold pf m' >>= λ (m'' : KernelMemory). done (0, m''))
    else (page_table_add vaddr frame m' >>= unhold pf >>= λ (m'' : KernelMemory). done (vaddr, m''))

pub get_a_page : PoolFlags → ℕ → KernelMemory → Outcome (ℕ × KernelMemory)
get_a_page pf vaddr m = claim_vaddr pf vaddr (hold pf m) >>= back_page pf vaddr

pub get_a_page_without_opvaddrbitmap : PoolFlags → ℕ → KernelMemory → Outcome (ℕ × KernelMemory)
get_a_page_without_opvaddrbitmap pf vaddr m = back_page pf vaddr (hold pf m)

-- The pool of a frame.
abbrev pub frame_pool : KernelMemory → ℕ → PoolFlags
frame_pool m frame = if leb m.user_pool.phy_addr_start frame then pf_user else pf_kernel

pub pfree : ℕ → KernelMemory → Outcome KernelMemory
pfree frame m =
    let pf = frame_pool m frame in
    let p = pool_of pf m in
    or_panic (bitmap_set p.pool_bitmap (sub32 frame p.phy_addr_start / 4096) 0)
    >>= λ (map : Bitmap). done (set_pool pf (record p { pool_bitmap = map }) m)

-- The same code as `pfree`.
pub free_a_phy_page : ℕ → KernelMemory → Outcome KernelMemory
free_a_phy_page frame m =
    let pf = frame_pool m frame in
    let p = pool_of pf m in
    or_panic (bitmap_set p.pool_bitmap (sub32 frame p.phy_addr_start / 4096) 0)
    >>= λ (map : Bitmap). done (set_pool pf (record p { pool_bitmap = map }) m)

-- `*pte &= ~PG_P_1`
pub page_table_pte_remove : ℕ → KernelMemory → KernelMemory
page_table_pte_remove vaddr m = write_word (pte_ptr vaddr) (load m (pte_ptr vaddr) / 2 * 2) m

pub vaddr_remove : PoolFlags → ℕ → ℕ → KernelMemory → Outcome KernelMemory
vaddr_remove pf vaddr n m =
    let v = vaddr_of pf m in
    set_run n (sub32 vaddr v.vaddr_start / 4096) 0 v.vaddr_bitmap >>= λ (map : Bitmap).
    done (set_vaddr pf (record v { vaddr_bitmap = map }) m)

pub addr_v2p : ℕ → KernelMemory → ℕ
addr_v2p vaddr m = load m (pte_ptr vaddr) / 4096 * 4096 + vaddr % 4096

-- The ASSERT of the loops of `mfree_page`: the frame is of the pool that the first one is of.
pub may_free : PoolFlags → ℕ → KernelMemory → Bool
may_free pf_user frame m = frame % 4096 == 0 && leb m.user_pool.phy_addr_start frame
may_free pf_kernel frame m =
    frame % 4096 == 0
    && leb m.kernel_pool.phy_addr_start frame
    && ltb frame m.user_pool.phy_addr_start

-- The loops of `mfree_page`, `n` pages from `vaddr` on; `own` is the pool of the first frame.
pub unmap_pages : PoolFlags → ℕ → ℕ → KernelMemory → Outcome KernelMemory
unmap_pages own zero vaddr m = done m
unmap_pages own (suc n) vaddr m =
    let frame = addr_v2p vaddr m in
    assert_then (may_free own frame m) (
      pfree frame m >>= λ (m' : KernelMemory).
      unmap_pages own n (add32 vaddr 4096) (page_table_pte_remove vaddr m'))

pub mfree_page : PoolFlags → ℕ → ℕ → KernelMemory → Outcome KernelMemory
mfree_page pf vaddr n m =
    let first = addr_v2p vaddr m in
    assert_then (leb 1 n && (vaddr % 4096 == 0)) (
      assert_then (first % 4096 == 0 && leb 0x102000 first)
        (unmap_pages (frame_pool m first) n vaddr m >>= vaddr_remove pf vaddr n))
