-- ===== src/Memory/Init/Tests.antt =====
-- A machine with 32 MB, and the theorems about its memory.
use sparrow_os.Common.{
  ℕ, ◌+◌, ◌-◌, ◌*◌, ◌/◌, ◌%◌, ◌^◌, ◌<◌, ◌≤◌, ◌≡◌, ◌≢◌, ◌⊎◌, inl, inr, refl, sym, ap, ◌∙◌, true,
  false, none, arith, done, leb, ltb, ◌==◌, ◌&&◌, if◌then◌else◌,
}
use sparrow_os.Bitmap.{Bitmap}
use sparrow_os.Bitmap.View.{used}
use sparrow_os.Memory.{block_desc_init}
use sparrow_os.Memory.Pages.{
  pf_kernel, Pool, VirtualAddr, KernelMemory, malloc_page, page_table_add,
}
use sparrow_os.Memory.Pages.Frames.{Owns, taken}
use sparrow_os.Memory.Pages.Tables.{
  IsPage, dir_word, table_of, entry_at, odd, HasTable, HasTable-same, IsTables, IsTables-same,
  SameTables, Absent, Mapped,
}
use sparrow_os.Memory.Pages.Add.{TablesTaken}
use sparrow_os.Memory.Pages.Reserve.{IsHeap, HasTables, Allocates}
use sparrow_os.Memory.Pages.Allocate.{malloc_page-Allocates}
use sparrow_os.Memory.Release.{addr_v2p}
use sparrow_os.Memory.Release.Free.{IsSplit, addr_v2p-page_table_add}
use sparrow_os.Memory.Release.RoundTrip.{GivesBack, mfree_page-malloc_page}
use sparrow_os.Memory.Init.{split_memory, mem_pool_init, kernel_bits, kernel_vaddr_bits}
use sparrow_os.Memory.Init.Layout.{len_at, fresh, Layout, mem_pool_init-Layout}
use sparrow_os.Memory.Init.Ready.{mem_pool_init-Ready}

abbrev pub no_map : Bitmap
no_map = record { btmp_bytes_len = 0; bits = λ k. 0 }

abbrev pub no_pool : Pool
no_pool = record { pool_bitmap = no_map; phy_addr_start = 0; pool_size = 0; holds = 0 }

abbrev pub no_vaddr : VirtualAddr
no_vaddr = record { vaddr_bitmap = no_map; vaddr_start = 0 }

-- The page directory that the loader leaves at 0x100000.
abbrev dir_entry : ℕ → ℕ
dir_entry i =
    if i == 1023
    then 0x100007
    else if leb 768 i
    then 0x101007 + (i - 768) * 4096
    else if i == 0
    then 0x101007
    else 0

-- All tables are empty.
abbrev loaded : ℕ → ℕ
loaded a = if leb 0x100000 a && ltb a 0x101000 then dir_entry ((a - 0x100000) / 4) else 0

abbrev pub blank : KernelMemory
blank = record {
  kernel_pool = no_pool;
  user_pool = no_pool;
  kernel_vaddr = no_vaddr;
  userprog_vaddr = no_vaddr;
  pgdir = false;
  page_dir = 0x100000;
  words = loaded;
  arenas = λ a. record { desc = none; cnt = 0; large = false };
  k_block_descs = block_desc_init;
  u_block_desc = block_desc_init;
}

abbrev ready : KernelMemory
ready = mem_pool_init (λ a. 0) 0x2000000 blank

mem_pool_init-Layout_example : Layout 0x2000000 ready
mem_pool_init-Layout_example =
    mem_pool_init-Layout (λ a. 0) 0x2000000 blank (λ x. omega arith) (omega arith) (omega arith)

loaded_lem : (i : ℕ) → i < 1024 → loaded (0x100000 + i * 4) ≡ dir_entry i
loaded_lem i l =
    let at : (0x100000 + i * 4 - 0x100000) / 4 ≡ i = omega arith in
    let inside : (leb 0x100000 (0x100000 + i * 4) && ltb (0x100000 + i * 4) 0x101000) ≡ true =
      ground arith in
    rw (inside, at) refl

empty : (a : ℕ) → 0x101000 ≤ a → loaded a ≡ 0
empty a h = ground arith

dir_entry-table :
    (i : ℕ)
    → 0 < i
    → i < 1023
    → odd (dir_entry i) ≡ true
    → (768 ≤ i) × (dir_entry i ≡ 0x101007 + (i - 768) * 4096)
dir_entry-table i a b o = ground arith

-- The entry of a directory and its table.
blank-table :
    (i : ℕ)
    → 0 < i
    → i < 1023
    → odd (dir_word blank i) ≡ true
    → (768 ≤ i) × (table_of blank i ≡ 0x101000 + (i - 768) * 4096)
blank-table i a b o =
    let at = loaded_lem i (omega arith) in
    let (high, e) = dir_entry-table i a b (ap odd (sym at) ∙ o) in
    let base : (0x101007 + (i - 768) * 4096) / 4096 * 4096 ≡ 0x101000 + (i - 768) * 4096 =
      omega arith in
    (high, ap (λ w. w / 4096 * 4096) (at ∙ e) ∙ base)

blank-IsTables : IsTables blank
blank-IsTables = record {
  aligned = refl;
  self = refl;
  beside = λ i a b o e. let (high, t) = blank-table i a b o in omega arith;
  distinct = λ i j a b c o p e.
      let (high, t) = blank-table i a (omega arith) o in
      let (high', t') = blank-table j (omega arith) c p in omega arith;
}

ready-SameTables : SameTables blank ready
unfolding mem_pool_init
ready-SameTables = record { page_dir = refl; entries = λ i l. refl }

ready-IsTables : IsTables ready
ready-IsTables = IsTables-same blank ready ready-SameTables blank-IsTables

above-HasTable : (u : ℕ) → 0xc0000000 ≤ u → u < 2 ^ 32 → HasTable ready u
above-HasTable u a b =
    HasTable-same blank ready u ready-SameTables b
      (ap odd (loaded_lem (u / 2 ^ 22) (omega arith)) ∙ odd_entry (u / 2 ^ 22) (omega arith))
  where
    odd_entry : (i : ℕ) → 768 ≤ i → odd (dir_entry i) ≡ true
    odd_entry i h = ground arith

ready-HasTables : HasTables ready.kernel_vaddr ready
unfolding mem_pool_init split_memory
ready-HasTables i h =
    let len = len_at (λ a. 0) (kernel_vaddr_bits 0x2000000) 480 in
    above-HasTable (0xc0100000 + i * 4096) (omega arith) (omega (arith, len))

-- No page of the heap is mapped yet.
heap-Absent : (u : ℕ) → 0xc0100000 ≤ u → u < 0xffc00000 → Absent blank u
unfolding mem_pool_init
heap-Absent u a b =
    let page : IsPage u = (omega arith, omega arith) in
    let (high, t) = blank-table (u / 2 ^ 22) (omega arith) (omega arith) (
      HasTable-same ready blank u
        (record { page_dir = refl; entries = λ i l. sym (ready-SameTables.entries i l) })
        (omega arith) (above-HasTable u (omega arith) (omega arith))) in
    inr (ap odd (empty (entry_at blank u) (omega arith)))

ready_lem :
    IsSplit ready
    × IsHeap pf_kernel ready.kernel_vaddr ready
    × ((j : ℕ)
        → j < 8 * ready.kernel_vaddr.vaddr_bitmap.btmp_bytes_len
        → used ready.kernel_vaddr.vaddr_bitmap j ≡ false)
ready_lem =
    mem_pool_init-Ready (λ a. 0) 0x2000000 blank (λ x. omega arith) (omega arith) (omega arith)
      heap-Absent

mem_pool_init-Ready_example :
    IsSplit ready
    × IsHeap pf_kernel ready.kernel_vaddr ready
    × ((j : ℕ)
        → j < 8 * ready.kernel_vaddr.vaddr_bitmap.btmp_bytes_len
        → used ready.kernel_vaddr.vaddr_bitmap j ≡ false)
mem_pool_init-Ready_example =
    mem_pool_init-Ready (λ a. 0) 0x2000000 blank (λ x. omega arith) (omega arith) (omega arith)
      heap-Absent

malloc_page-Allocates_example : Allocates pf_kernel ready 3 (malloc_page pf_kernel 3 ready)
malloc_page-Allocates_example =
    malloc_page-Allocates pf_kernel 3 ready (omega arith) (omega arith) ready_lem.0.pools
      ready-IsTables ready-HasTables ready_lem.1

mfree_page-malloc_page_example :
    (addr : ℕ) × (m' : KernelMemory) × (malloc_page pf_kernel 3 ready ≡ done (addr, m'))
    × ((addr ≡ 0) ⊎ GivesBack pf_kernel ready 3 addr m')
mfree_page-malloc_page_example =
    mfree_page-malloc_page pf_kernel 3 ready (omega arith) (omega arith) ready_lem.0 ready-IsTables
      ready-HasTables ready_lem.1

first-Owns : Owns ready.kernel_pool 0x200000
unfolding mem_pool_init split_memory
first-Owns =
    let len = len_at (λ a. 0) kernel_bits 480 in
    record { aligned = refl; above = omega arith; below = omega (arith, len) }

-- All frames are free, and the tables lie below them.
first_free : taken ready.kernel_pool 0x200000 ≡ false
unfolding mem_pool_init split_memory
first_free = (fresh (λ a. 0) (λ x. omega arith) kernel_bits 480).1 0 (omega arith)

kernel_start : ready.kernel_pool.phy_addr_start ≡ 0x200000
unfolding mem_pool_init split_memory
kernel_start = refl

ready-TablesTaken : TablesTaken ready
ready-TablesTaken = record {
  directory =
      λ o. let at = ready-SameTables.page_dir in absurd (omega (arith, at, o.above, kernel_start));
  tables = λ i a b p o.
      let same = ready-SameTables.entries i (omega arith) in
      let (high, t) = blank-table i a b (ap odd (sym same) ∙ p) in
      let at = ap (λ w. w / 4096 * 4096) same ∙ t in
      absurd (omega (arith, at, o.above, kernel_start));
}

-- A page of a process, which has no table.
not_mapped : Absent ready 0x8048000
unfolding mem_pool_init
not_mapped = inl refl

addr_v2p-page_table_add_example :
    (m' : KernelMemory) × (page_table_add 0x8048000 0x300000 ready ≡ done m')
    × (addr_v2p (0x8048000 + 20) m' ≡ 0x300000 + 20)
    × ((u g : ℕ)
        → u % 4096 ≡ 0
        → g % 4096 ≡ 0
        → IsPage u
        → u ≢ 0x8048000
        → Mapped ready u g
        → addr_v2p (u + 20) m' ≡ addr_v2p (u + 20) ready)
    × IsTables m'
addr_v2p-page_table_add_example =
    addr_v2p-page_table_add ready 0x8048000 0x300000 20 refl refl (omega arith)
      (omega arith, omega arith) ready_lem.0.pools.kernel ready-IsTables ready-TablesTaken
      not_mapped (inr (0x200000, first-Owns, first_free))
