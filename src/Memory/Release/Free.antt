-- ===== src/Memory/Release/Free.antt =====
-- `pfree` and `addr_v2p` of sparrow/kernel/memory.c.
use sparrow_os.Memory.Pages.{page_table_add}
use sparrow_os.Memory.Pages.Add.{TablesTaken, page_table_add-Adds}
use sparrow_os.Common.{
  ℕ, ◌+◌, ◌-◌, ◌*◌, ◌/◌, ◌%◌, ◌<◌, ◌≤◌, ◌≡◌, ◌≢◌, refl, sym, ◌∙◌, true, false, some, arith, leb,
  sub32, Outcome, done, ap, ◌⊎◌,
}
use sparrow_os.Memory.Addresses.{pte_ptr-in_page}
use sparrow_os.Bitmap.{Bitmap, bitmap_set}
use sparrow_os.Bitmap.View.{bitmap_set-used}
use sparrow_os.Memory.{pte_ptr}
use sparrow_os.Memory.Pages.{
  PoolFlags, pf_kernel, pf_user, Pool, KernelMemory, pool_of, set_pool, load, table_entry,
}
use sparrow_os.Memory.Pages.Frames.{frames, taken, IsFrames, Owns, Changed, Changed-bit}
use sparrow_os.Memory.Pages.Tables.{IsPage, HasTable, IsTables, Mapped, Absent, mmu-pte_ptr}
use sparrow_os.Memory.Pages.Map.{IsMemory, IsMemory-pool}
use sparrow_os.Memory.Release.{frame_pool, pfree, free_a_phy_page, addr_v2p}

-- The pools are well formed, the kernel's lies behind the first page tables and ends before that
-- of the processes.
pub record IsSplit (m : KernelMemory) : Type 0 where
  pub pools : IsMemory m
  pub behind_tables : 0x102000 ≤ m.kernel_pool.phy_addr_start
  pub apart :
      m.kernel_pool.phy_addr_start + frames m.kernel_pool * 4096 ≤ m.user_pool.phy_addr_start

pub frame_pool-Owns :
    (pf : PoolFlags) (m : KernelMemory) (f : ℕ)
    → IsSplit m
    → Owns (pool_of pf m) f
    → frame_pool m f ≡ pf
frame_pool-Owns pf_kernel m f h o =
    let test : leb m.user_pool.phy_addr_start f ≡ false = ground (arith, h.apart, o.below) in
    rw test refl
frame_pool-Owns pf_user m f h o =
    let test : leb m.user_pool.phy_addr_start f ≡ true = ground (arith, o.above) in rw test refl

-- What `pfree` does to the pool of the frame.
abbrev pub Frees : PoolFlags → KernelMemory → ℕ → Outcome KernelMemory → Type 0
Frees pf m f o = (p : Pool) × (o ≡ done (set_pool pf p m)) × Changed (pool_of pf m) f false p

pfree_lem :
    (pf : PoolFlags) (m : KernelMemory) (f i : ℕ) (map : Bitmap)
    → frame_pool m f ≡ pf
    → sub32 f (pool_of pf m).phy_addr_start / 4096 ≡ i
    → bitmap_set (pool_of pf m).pool_bitmap i 0 ≡ some map
    → (pfree f m ≡ done (set_pool pf (record (pool_of pf m) { pool_bitmap = map }) m))
      × (free_a_phy_page f m ≡ done (set_pool pf (record (pool_of pf m) { pool_bitmap = map }) m))
unfolding pfree free_a_phy_page
pfree_lem pf m f i map e j s = (rw (e, j, s) refl, rw (e, j, s) refl)

-- `pfree` finds the pool of a frame by its address, frees the frame there, changes no other frame,
-- and does not fail; `free_a_phy_page` does the same.
pub pfree-Frees :
    (pf : PoolFlags) (m : KernelMemory) (f : ℕ)
    → IsSplit m
    → Owns (pool_of pf m) f
    → Frees pf m f (pfree f m) × (free_a_phy_page f m ≡ pfree f m)
pfree-Frees pf m f h o =
    let p = pool_of pf m in
    let hp = IsMemory-pool pf m h.pools in
    let i = (f - p.phy_addr_start) / 4096 in
    let (map, s, bytes, len, bits) = bitmap_set-used p.pool_bitmap i 0 hp.bytes (omega arith) in
    let at : sub32 f p.phy_addr_start / 4096 ≡ i = omega (arith, o.above, o.below, hp.fits) in
    let (a, b) = pfree_lem pf m f i map (frame_pool-Owns pf m f h o) at s in
    (
      (record p { pool_bitmap = map }, a, Changed-bit p f i 0 map o hp.aligned refl bytes len bits),
      b ∙ sym a,
    )

-- `addr_v2p` of an address in a page that is mapped is the address at the same place of its frame.
pub addr_v2p-Mapped :
    (m : KernelMemory) (v f k : ℕ)
    → IsTables m
    → v % 4096 ≡ 0
    → f % 4096 ≡ 0
    → k < 4096
    → IsPage v
    → Mapped m v f
    → addr_v2p (v + k) m ≡ f + k
unfolding addr_v2p
addr_v2p-Mapped m v f k h al af l low t =
    let at : load m (pte_ptr (v + k)) ≡ table_entry f =
      ap (load m) (pte_ptr-in_page v k al l low.1)
      ∙ ap m.words (mmu-pte_ptr m h v (omega arith))
      ∙ t.entry in
    let off : (v + k) % 4096 ≡ k = omega arith in
    let base : table_entry f / 4096 * 4096 ≡ f = omega arith in rw (at, off, base) refl

-- With a well-formed pool of the kernel, and a page directory whose last entry is itself, whose
-- entries 1 to 1022 name different tables where they are there, and of which, with these tables, no
-- frame is free: for a page from 0x400000 on and below the tables at 0xffc00000 that is not mapped,
-- and that has a table or the kernel a free frame for one, `page_table_add` of a page-aligned frame
-- always ends. `addr_v2p` then answers with the address at the same place of the frame, for every
-- other such page that was mapped it answers as before, and the tables are again different.
pub addr_v2p-page_table_add :
    (m : KernelMemory) (v f k : ℕ)
    → v % 4096 ≡ 0
    → f % 4096 ≡ 0
    → k < 4096
    → IsPage v
    → IsFrames m.kernel_pool
    → IsTables m
    → TablesTaken m
    → Absent m v
    → HasTable m v ⊎ ((q : ℕ) × Owns m.kernel_pool q × (taken m.kernel_pool q ≡ false))
    → (m' : KernelMemory) × (page_table_add v f m ≡ done m')
      × (addr_v2p (v + k) m' ≡ f + k)
      × ((u g : ℕ)
          → u % 4096 ≡ 0
          → g % 4096 ≡ 0
          → IsPage u
          → u ≢ v
          → Mapped m u g
          → addr_v2p (u + k) m' ≡ addr_v2p (u + k) m)
      × IsTables m'
addr_v2p-page_table_add m v f k al af l low h ht taken_tables gap room =
    let (m', e, a) = page_table_add-Adds m v f low ht h taken_tables gap room in
    (
      m',
      e,
      addr_v2p-Mapped m' v f k a.tables al af l low a.mapped,
      λ u g ua ga ul n t.
          let other : u / 4096 ≢ v / 4096 = λ e. n (omega arith) in
          addr_v2p-Mapped m' u g k a.tables ua ga l ul (a.others u g ul other t)
          ∙ sym (addr_v2p-Mapped m u g k ht ua ga l ul t),
      a.tables,
    )
