-- ===== src/Memory/Heap.antt =====
-- sparrow/kernel/memory.c: `sys_malloc` and `sys_free`. A block is its address. The headers of the
-- arenas and the free lists are kept beside the words, so that a write into a free block is not
-- seen there. The interrupts that are off while an arena is cut up have no effect here.
pub mod Kinds
pub mod Blocks
pub mod RoundTrip
pub mod Tests
use sparrow_os.Common.{
  ℕ, zero, suc, ◌+◌, ◌-◌, ◌*◌, ◌/◌, Bool, true, false, not, ◌&&◌, ◌||◌, Option, none, some, List,
  [], ◌∷◌, ◌++◌, get_or, set, ltb, leb, ◌==◌, if◌then◌else◌, add32, sub32, Outcome, done, panic,
  ◌>>=◌, assert_then,
}
use sparrow_os.LinkedList.View.{elem}
use sparrow_os.Memory.{MemBlockDesc, arena2block, block2arena}
use sparrow_os.Memory.Pages.{
  PoolFlags, pf_kernel, pf_user, Arena, KernelMemory, pool_of, hold, unhold, clear_words,
  clear_pages, malloc_page,
}
use sparrow_os.Memory.Release.{mfree_page}

abbrev pub descs_of : PoolFlags → KernelMemory → List MemBlockDesc
descs_of pf_kernel m = m.k_block_descs
descs_of pf_user m = m.u_block_desc

abbrev pub set_descs : PoolFlags → List MemBlockDesc → KernelMemory → KernelMemory
set_descs pf_kernel ds m = record m { k_block_descs = ds }
set_descs pf_user ds m = record m { u_block_desc = ds }

-- `descs[i]`
abbrev pub kind_of : List MemBlockDesc → ℕ → MemBlockDesc
kind_of ds i = get_or ds i (record { block_size = 0; blocks_per_arena = 0; free_list = [] })

abbrev pub set_arena : ℕ → Arena → KernelMemory → KernelMemory
set_arena a h m = record m { arenas = λ q. if q == a then h else m.arenas q }

abbrev pub set_free_list : PoolFlags → ℕ → List ℕ → KernelMemory → KernelMemory
set_free_list pf i xs m =
    let ds = descs_of pf m in set_descs pf (set ds i (record (kind_of ds i) { free_list = xs })) m

-- The running thread's pool: that of the kernel for a kernel thread, that of the processes else.
abbrev pub own_pool : KernelMemory → PoolFlags
own_pool m = if m.pgdir then pf_user else pf_kernel

-- The loop that looks for the kind of blocks, with the number of rounds that are left.
pub find_kind : List MemBlockDesc → ℕ → ℕ → ℕ → ℕ
find_kind ds size zero i = i
find_kind ds size (suc left) i =
    let rest = find_kind ds size left (i + 1) in
    if leb size (kind_of ds i).block_size then i else rest

-- The pages of a request of more than 1024 bytes.
pub malloc_large : PoolFlags → ℕ → KernelMemory → Outcome (ℕ × KernelMemory)
malloc_large pf size m =
    let n = add32 size (12 + 4096 - 1) / 4096 in
    malloc_page pf n m >>= λ ((a, m') : ℕ × KernelMemory).
    if a == 0
    then (unhold pf m' >>= λ (m'' : KernelMemory). done (0, m''))
    else (unhold pf
          (set_arena a (record { desc = none; cnt = n; large = true }) (clear_pages n a m'))
        >>= λ (m'' : KernelMemory). done (add32 a 12, m''))

-- The loop that cuts an arena into blocks: `n` blocks from number `idx` on join the free list.
pub carve : ℕ → ℕ → MemBlockDesc → ℕ → List ℕ → Outcome (List ℕ)
carve zero a d idx xs = done xs
carve (suc n) a d idx xs =
    let b = arena2block a d idx in
    assert_then (not (elem b xs)) (carve n a d (idx + 1) (xs ++ b ∷ []))

-- A new arena of kind `i`, `false` where there is no page for it.
pub new_arena : PoolFlags → ℕ → KernelMemory → Outcome (Bool × KernelMemory)
new_arena pf i m = malloc_page pf 1 m >>= λ ((a, m') : ℕ × KernelMemory).
    if a == 0
    then done (false, m')
    else (let d = kind_of (descs_of pf m') i in
        let header : Arena = record { desc = some i; cnt = d.blocks_per_arena; large = false } in
        carve d.blocks_per_arena a d 0 d.free_list >>= λ (xs : List ℕ).
        done (true, set_free_list pf i xs (set_arena a header (clear_words a 4096 m'))))

-- `list_empty` and what `sys_malloc` does then.
pub refill : PoolFlags → ℕ → List ℕ → KernelMemory → Outcome (Bool × KernelMemory)
refill pf i [] m = new_arena pf i m
refill pf i (b ∷ xs) m = done (true, m)

-- The first block of the list leaves it. The list is not empty where this is called.
pub take_block : PoolFlags → ℕ → List ℕ → KernelMemory → Outcome (ℕ × KernelMemory)
take_block pf i [] m = panic
take_block pf i (b ∷ xs) m =
    let a = block2arena b in
    let header = m.arenas a in
    let m' = clear_words b (kind_of (descs_of pf m) i).block_size (set_free_list pf i xs m) in
    done (b, set_arena a (record header { cnt = sub32 header.cnt 1 }) m')

-- The blocks of up to 1024 bytes.
pub malloc_small : PoolFlags → ℕ → KernelMemory → Outcome (ℕ × KernelMemory)
malloc_small pf size m =
    let i = find_kind (descs_of pf m) size 7 0 in
    refill pf i (kind_of (descs_of pf m) i).free_list m >>= λ ((ok, m') : Bool × KernelMemory).
    (if ok then take_block pf i (kind_of (descs_of pf m') i).free_list m' else done (0, m'))
    >>= λ ((b, m'') : ℕ × KernelMemory). unhold pf m'' >>= λ (m''' : KernelMemory). done (b, m''')

pub sys_malloc : ℕ → KernelMemory → Outcome (ℕ × KernelMemory)
sys_malloc size m =
    let pf = own_pool m in
    if ltb 0 size && ltb size (pool_of pf m).pool_size
    then if ltb 1024 size
      then malloc_large pf size (hold pf m)
      else malloc_small pf size (hold pf m)
    else done (0, m)

-- `list_remove`
abbrev pub remove : ℕ → List ℕ → List ℕ
remove b [] = []
remove b (x ∷ xs) = if b == x then xs else x ∷ remove b xs

-- The loop that takes the blocks of an arena out of the free list, as `carve` put them in.
pub uncarve : ℕ → ℕ → MemBlockDesc → ℕ → List ℕ → Outcome (List ℕ)
uncarve zero a d idx xs = done xs
uncarve (suc n) a d idx xs =
    let b = arena2block a d idx in assert_then (elem b xs) (uncarve n a d (idx + 1) (remove b xs))

-- A block of kind `i` returns to its arena, and the arena goes when all its blocks are free.
pub free_block : PoolFlags → ℕ → ℕ → KernelMemory → Outcome KernelMemory
free_block pf i b m =
    let a = block2arena b in
    let d = kind_of (descs_of pf m) i in
    let header = m.arenas a in
    let xs = d.free_list ++ b ∷ [] in
    let m' = set_arena a (record header { cnt = add32 header.cnt 1 }) (set_free_list pf i xs m) in
    if add32 header.cnt 1 == d.blocks_per_arena
    then (uncarve d.blocks_per_arena a d 0 xs >>= λ (ys : List ℕ).
        mfree_page pf a 1 (set_free_list pf i ys m'))
    else done m'

-- `sys_free` behind the lock, by the two tests of its if. A small arena always has a kind.
pub free_in : PoolFlags → ℕ → Option ℕ → Bool → KernelMemory → Outcome KernelMemory
free_in pf ptr none true m = mfree_page pf (block2arena ptr) (m.arenas (block2arena ptr)).cnt m
free_in pf ptr none false m = panic
free_in pf ptr (some i) large m = free_block pf i ptr m

pub sys_free : ℕ → KernelMemory → Outcome KernelMemory
sys_free ptr m =
    let pf = own_pool m in
    assert_then (not (ptr == 0)) (
      assert_then (m.pgdir || leb 0xc0100000 ptr) (
        let header = m.arenas (block2arena ptr) in
        free_in pf ptr header.desc header.large (hold pf m) >>= unhold pf))
