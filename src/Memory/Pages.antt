-- ===== src/Memory/Pages.antt =====
-- sparrow/kernel/memory.c: the pools of page frames, the pools of virtual addresses and the page
-- tables. NULL is 0. The running thread owns `userprog_vaddr`, `u_block_desc` and `pgdir`. The
-- physical memory is `words`, each word at its physical address, and an access by the code goes
-- through the page directory at `page_dir` and its tables, as the processor does it, so that two
-- directory entries with one frame share a table. An access of a page that is not mapped is not a
-- fault here. A mask that clears low bits is a division, and `| 7` sets the low three bits.
pub mod Frames
pub mod Tables
pub mod Entries
pub mod Add
pub mod Runs
pub mod Map
pub mod Backing
pub mod Malloc
pub mod Reserve
pub mod Allocate
use sparrow_os.Common.{
  ℕ, zero, suc, ◌+◌, ◌-◌, ◌*◌, ◌/◌, ◌%◌, ◌^◌, Bool, true, false, not, ◌&&◌, ◌||◌, Option, none,
  some, List, ltb, leb, ◌==◌, if◌then◌else◌, add32, sub32, mul32, Outcome, done, panic, out_of_fuel,
  ◌>>=◌, assert_then, or_panic,
}
use sparrow_os.Bitmap.{Bitmap, bitmap_init, bitmap_scan, bitmap_set}
use sparrow_os.Memory.{pde_ptr, pte_ptr, MemBlockDesc, block_desc_init}

pub data PoolFlags : Type 0 where
  pf_kernel pf_user : PoolFlags

-- `holds` counts how many times the running thread holds the lock of the pool.
pub record Pool : Type 0 where
  pub pool_bitmap : Bitmap
  pub phy_addr_start : ℕ
  pub pool_size : ℕ
  pub holds : ℕ

pub record VirtualAddr : Type 0 where
  pub vaddr_bitmap : Bitmap
  pub vaddr_start : ℕ

-- The header of an arena; `desc` is the number of its kind of blocks, or none for NULL.
pub record Arena : Type 0 where
  pub desc : Option ℕ
  pub cnt : ℕ
  pub large : Bool

pub record KernelMemory : Type 0 where
  pub kernel_pool : Pool
  pub user_pool : Pool
  pub kernel_vaddr : VirtualAddr
  pub userprog_vaddr : VirtualAddr
  pub pgdir : Bool
  pub page_dir : ℕ
  pub words : ℕ → ℕ
  pub arenas : ℕ → Arena
  pub k_block_descs : List MemBlockDesc
  pub u_block_desc : List MemBlockDesc

abbrev pub pool_of : PoolFlags → KernelMemory → Pool
pool_of pf_kernel m = m.kernel_pool
pool_of pf_user m = m.user_pool

abbrev pub set_pool : PoolFlags → Pool → KernelMemory → KernelMemory
set_pool pf_kernel p m = record m { kernel_pool = p }
set_pool pf_user p m = record m { user_pool = p }

abbrev pub vaddr_of : PoolFlags → KernelMemory → VirtualAddr
vaddr_of pf_kernel m = m.kernel_vaddr
vaddr_of pf_user m = m.userprog_vaddr

abbrev pub set_vaddr : PoolFlags → VirtualAddr → KernelMemory → KernelMemory
set_vaddr pf_kernel v m = record m { kernel_vaddr = v }
set_vaddr pf_user v m = record m { userprog_vaddr = v }

-- The lock of the pool is free or the thread's; `lock_release` has an ASSERT on its holder.
unfoldable pub hold : PoolFlags → KernelMemory → KernelMemory
hold pf m = let p = pool_of pf m in set_pool pf (record p { holds = p.holds + 1 }) m

unfoldable pub unhold : PoolFlags → KernelMemory → Outcome KernelMemory
unhold pf m =
    let p = pool_of pf m in
    assert_then (ltb 0 p.holds) (done (set_pool pf (record p { holds = p.holds - 1 }) m))

-- A write at a physical address.
abbrev pub write_at : ℕ → ℕ → KernelMemory → KernelMemory
write_at x w m = record m { words = λ y. if y == x then w else m.words y }

-- The physical address of a virtual one.
abbrev pub mmu : KernelMemory → ℕ → ℕ
mmu m a =
    m.words (m.words (m.page_dir + a / 2 ^ 22 * 4) / 4096 * 4096 + a / 2 ^ 12 % 2 ^ 10 * 4)
      / 4096
      * 4096
    + a % 4096

-- `*a`, `*a = w`, and `memset(a, 0, n)` inside one page.
abbrev pub load : KernelMemory → ℕ → ℕ
load m a = m.words (mmu m a)

abbrev pub write_word : ℕ → ℕ → KernelMemory → KernelMemory
write_word a w m = write_at (mmu m a) w m

abbrev pub clear_words : ℕ → ℕ → KernelMemory → KernelMemory
clear_words a n m =
    let x = mmu m a in record m { words = λ y. if leb x y && ltb y (x + n) then 0 else m.words y }

-- `memset(a, 0, n * PG_SIZE)`, page by page.
pub clear_pages : ℕ → ℕ → KernelMemory → KernelMemory
clear_pages zero a m = m
clear_pages (suc n) a m = clear_pages n (add32 a 4096) (clear_words a 4096 m)

-- A loop over `bitmap_set`: `n` bits from `i` on become `v`.
pub set_run : ℕ → ℕ → ℕ → Bitmap → Outcome Bitmap
set_run zero i v map = done map
set_run (suc n) i v map =
    or_panic (bitmap_set map i v) >>= λ (next : Bitmap). set_run n (add32 i 1) v next

-- The ASSERT that keeps user memory below the stack of the process.
pub below_stack : PoolFlags → ℕ → Bool
below_stack pf_kernel vaddr = true
below_stack pf_user vaddr = ltb vaddr (0xc0000000 - 4096)

-- What `vaddr_get` does with the answer of the scan.
pub reserve : PoolFlags → ℕ → KernelMemory → Option ℕ → Outcome (ℕ × KernelMemory)
reserve pf n m none = done (0, m)
reserve pf n m (some i) =
    let v = vaddr_of pf m in
    let start = add32 v.vaddr_start (mul32 i 4096) in
    set_run n i 1 v.vaddr_bitmap >>= λ (map : Bitmap).
    assert_then (below_stack pf start)
      (done (start, set_vaddr pf (record v { vaddr_bitmap = map }) m))

pub vaddr_get : PoolFlags → ℕ → KernelMemory → Outcome (ℕ × KernelMemory)
vaddr_get pf n m = bitmap_scan (vaddr_of pf m).vaddr_bitmap n >>= reserve pf n m

-- What `palloc` does with the answer of the scan.
pub take_frame : Pool → Option ℕ → Outcome (ℕ × Pool)
take_frame p none = done (0, p)
take_frame p (some i) = or_panic (bitmap_set p.pool_bitmap i 1) >>= λ (map : Bitmap).
    done (add32 (mul32 i 4096) p.phy_addr_start, record p { pool_bitmap = map })

pub palloc : Pool → Outcome (ℕ × Pool)
palloc p = bitmap_scan p.pool_bitmap 1 >>= take_frame p

abbrev pub palloc_in : PoolFlags → KernelMemory → Outcome (ℕ × KernelMemory)
palloc_in pf m = palloc (pool_of pf m) >>= λ ((frame, p) : ℕ × Pool). done (frame, set_pool pf p m)

-- `frame | PG_US_U | PG_RW_W | PG_P_1`
abbrev pub table_entry : ℕ → ℕ
table_entry frame = frame / 8 * 8 + 7

-- `*a & 0x00000001`
abbrev pub present : KernelMemory → ℕ → Bool
present m a = load m a % 2 == 1

-- The end of `page_table_add`: the ASSERT and the write of the entry.
pub write_pte : ℕ → ℕ → KernelMemory → Outcome KernelMemory
write_pte vaddr frame m =
    assert_then (not (present m (pte_ptr vaddr)))
      (done (write_word (pte_ptr vaddr) (table_entry frame) m))

-- The directory entry of the new table, and the table cleared.
pub new_table : ℕ → ℕ → KernelMemory → KernelMemory
new_table vaddr frame m =
    clear_words (pte_ptr vaddr / 4096 * 4096) 4096
      (write_word (pde_ptr vaddr) (table_entry frame) m)

pub page_table_add : ℕ → ℕ → KernelMemory → Outcome KernelMemory
page_table_add vaddr frame m =
    if present m (pde_ptr vaddr)
    then write_pte vaddr frame m
    else (palloc_in pf_kernel m >>= λ ((table, m') : ℕ × KernelMemory).
        write_pte vaddr frame (new_table vaddr table m'))

-- The loop of `malloc_page`; `false` is its `return NULL`.
pub map_pages : PoolFlags → ℕ → ℕ → KernelMemory → Outcome (Bool × KernelMemory)
map_pages pf zero vaddr m = done (true, m)
map_pages pf (suc n) vaddr m = palloc_in pf m >>= λ ((frame, m') : ℕ × KernelMemory).
    if frame == 0
    then done (false, m')
    else (page_table_add vaddr frame m' >>= map_pages pf n (add32 vaddr 4096))

-- `malloc_page` from the answer of `vaddr_get` on.
pub back_pages : PoolFlags → ℕ → ℕ → KernelMemory → Outcome (ℕ × KernelMemory)
back_pages pf n start m =
    if start == 0
    then done (0, m)
    else (map_pages pf n start m >>= λ ((all, m') : Bool × KernelMemory).
        done (if all then start else 0, m'))

pub malloc_page : PoolFlags → ℕ → KernelMemory → Outcome (ℕ × KernelMemory)
malloc_page pf n m =
    assert_then (ltb 0 n && ltb n 3840)
      (vaddr_get pf n m >>= λ ((start, m') : ℕ × KernelMemory). back_pages pf n start m')

pub get_kernel_pages : ℕ → KernelMemory → Outcome (ℕ × KernelMemory)
get_kernel_pages n m =
    malloc_page pf_kernel n (hold pf_kernel m) >>= λ ((vaddr, m') : ℕ × KernelMemory).
    unhold pf_kernel (if vaddr == 0 then m' else clear_pages n vaddr m') >>= λ (m'' : KernelMemory).
    done (vaddr, m'')

pub get_user_pages : ℕ → KernelMemory → Outcome (ℕ × KernelMemory)
get_user_pages n m = malloc_page pf_user n (hold pf_user m) >>= λ ((vaddr, m') : ℕ × KernelMemory).
    unhold pf_user (clear_pages n vaddr m') >>= λ (m'' : KernelMemory). done (vaddr, m'')
