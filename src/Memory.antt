-- ===== src/Memory.antt =====
-- sparrow/kernel/memory.c: the addresses of page table entries, and the blocks of an arena. A mask
-- that keeps the high bits of an address is written as a division, and a shift as one too. An
-- arena begins with a header of 12 bytes.
pub mod Addresses
pub mod Pages
pub mod Release
pub mod Init
pub mod Heap
pub mod Tests
use sparrow_os.Common.{ℕ, zero, suc, ◌+◌, ◌-◌, ◌*◌, ◌/◌, ◌%◌, ◌^◌, List, [], ◌∷◌, get_or}

-- The page directory entry of an address, in the last page of the address space.
pub pde_ptr : ℕ → ℕ
pde_ptr vaddr = (0xfffff000 + vaddr / 2 ^ 22 * 4) % 2 ^ 32

-- The page table entry of an address, in the last 4 MB of the address space.
pub pte_ptr : ℕ → ℕ
pte_ptr vaddr = (0xffc00000 + vaddr / 2 ^ 22 * 2 ^ 12 + vaddr / 2 ^ 12 % 2 ^ 10 * 4) % 2 ^ 32

-- `struct mem_block_desc`, with the free list as its blocks.
pub record MemBlockDesc : Type 0 where
  pub block_size : ℕ
  pub blocks_per_arena : ℕ
  pub free_list : List ℕ

-- The loop of `block_desc_init`, with the number of rounds that are left. `block_size` has 16 bits.
pub init_descs : ℕ → ℕ → List MemBlockDesc
init_descs zero block_size = []
init_descs (suc left) block_size =
    record { block_size = block_size; blocks_per_arena = (4096 - 12) / block_size; free_list = [] }
    ∷ init_descs left (block_size * 2 % 2 ^ 16)

pub block_desc_init : List MemBlockDesc
block_desc_init = init_descs 7 16

pub arena2block : ℕ → MemBlockDesc → ℕ → ℕ
arena2block a desc idx = (a + 12 + idx * desc.block_size) % 2 ^ 32

pub block2arena : ℕ → ℕ
block2arena b = b / 2 ^ 12 * 2 ^ 12
