-- ===== src/Memory/Addresses.antt =====
-- Where the blocks of an arena and the entries of the page tables lie (sparrow/kernel/memory.c).
use native.Mathlib.Nat.{suc-mul, mul-le-mul_right}
use sparrow_os.Common.{
  ℕ, suc, ◌≡◌, refl, ◌≤◌, ◌<◌, ◌+◌, ◌*◌, ◌/◌, ◌%◌, ◌^◌, [], get_or, arith, Bool, true, ◌&&◌, leb,
  holds_below, test_of_holds_below,
}
use sparrow_os.Memory.{
  pde_ptr, pte_ptr, MemBlockDesc, init_descs, block_desc_init, arena2block, block2arena,
}

-- The kind of blocks with number `i`; there are 7 of them.
abbrev pub desc : ℕ → MemBlockDesc
desc i = get_or block_desc_init i (record { block_size = 0; blocks_per_arena = 0; free_list = [] })

-- Blocks `idx` and `other` of the arena at `a`.
pub record Placed (a : ℕ) (d : MemBlockDesc) (idx other : ℕ) : Type 0 where
  pub back : block2arena (arena2block a d idx) ≡ a
  pub behind_header : a + 12 ≤ arena2block a d idx
  pub in_page : arena2block a d idx + d.block_size ≤ a + 4096
  pub apart : idx < other → arena2block a d idx + d.block_size ≤ arena2block a d other

-- `n` blocks of a size take up more room than fewer of them and one.
mul_room : (k n size : ℕ) → k < n → k * size + size ≤ n * size
mul_room k n size h = omega (arith, suc-mul k size, mul-le-mul_right {m = suc k} {n = n} size h)

abbrev fits : ℕ → Bool
fits i =
    leb 16 (desc i).block_size && leb ((desc i).blocks_per_arena * (desc i).block_size + 12) 4096

fits_table : holds_below fits 7 ≡ true
unfolding holds_below block_desc_init init_descs
fits_table = refl

pub block_in_page :
    (a idx : ℕ) (d : MemBlockDesc)
    → 16 ≤ d.block_size
    → d.blocks_per_arena * d.block_size + 12 ≤ 4096
    → a % 4096 ≡ 0
    → a < 2 ^ 32
    → idx < d.blocks_per_arena
    → (arena2block a d idx ≡ a + 12 + idx * d.block_size)
      × (idx * d.block_size + d.block_size + 12 ≤ 4096)
unfolding arena2block
block_in_page a idx d h t p s m =
    let room = mul_room idx d.blocks_per_arena d.block_size m in (omega arith, omega arith)

block2arena_lem : (a b : ℕ) → a % 4096 ≡ 0 → a ≤ b → b < a + 4096 → block2arena b ≡ a
unfolding block2arena
block2arena_lem a b p h l = omega arith

-- For each of the 7 kinds of blocks, the blocks of an arena lie behind its header and in its page,
-- two of them do not overlap, and `block2arena` leads from each to the arena.
pub arena2block-Placed :
    (i a idx other : ℕ)
    → i < 7
    → a % 4096 ≡ 0
    → a < 2 ^ 32
    → idx < (desc i).blocks_per_arena
    → other < (desc i).blocks_per_arena
    → Placed a (desc i) idx other
arena2block-Placed i a idx other h p s m n =
    let d = desc i in
    let test : fits i ≡ true = test_of_holds_below fits i 7 h fits_table in
    let big : 16 ≤ d.block_size = ground arith in
    let room : d.blocks_per_arena * d.block_size + 12 ≤ 4096 = ground arith in
    let (at, within) = block_in_page a idx d big room p s m in
    let (at_other, within_other) = block_in_page a other d big room p s n in
    record {
      back = block2arena_lem a (arena2block a d idx) p (omega arith) (omega arith);
      behind_header = omega arith;
      in_page = omega arith;
      apart = λ l. let below = mul_room idx other d.block_size l in omega arith;
    }

-- The entries of the page tables form one array: the entry of an address stands at the number of
-- its page, and the page directory entry is the page table entry of that entry.
pub pte_ptr-page :
    (vaddr : ℕ)
    → vaddr < 2 ^ 32
    → (pte_ptr vaddr ≡ 0xffc00000 + vaddr / 4096 * 4) × (pde_ptr vaddr ≡ pte_ptr (pte_ptr vaddr))
unfolding pte_ptr pde_ptr
pte_ptr-page vaddr h = (omega arith, omega arith)

-- The addresses of a page share an entry.
pub pte_ptr-in_page :
    (v k : ℕ) → v % 4096 ≡ 0 → k < 4096 → v < 0xffc00000 → pte_ptr (v + k) ≡ pte_ptr v
unfolding pte_ptr
pte_ptr-in_page v k al l low = omega arith
