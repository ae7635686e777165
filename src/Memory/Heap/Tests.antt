-- ===== src/Memory/Heap/Tests.antt =====
-- A heap with one free block, and `sys_malloc` on it.
use sparrow_os.Common.{
  ℕ, ◌*◌, ◌^◌, ◌≤◌, ◌≡◌, refl, Bool, true, false, some, [], ◌∷◌, set, arith, ◌==◌, done, eq-true,
  holds_below, test_of_holds_below,
}
use sparrow_os.Memory.{block2arena, block_desc_init, init_descs}
use sparrow_os.Memory.Pages.{pf_kernel, KernelMemory}
use sparrow_os.Memory.Heap.{kind_of, find_kind, sys_malloc, sys_free}
use sparrow_os.Memory.Heap.Kinds.{HasSizes}
use sparrow_os.Memory.Heap.RoundTrip.{GivenBack, sys_free-sys_malloc}
use sparrow_os.Memory.Init.Tests.{blank, no_pool}

-- The smallest kind has one free block, and another block of its arena is in use.
abbrev in_use : KernelMemory
in_use = record blank {
  kernel_pool = record no_pool { pool_size = 0x1000000 };
  arenas = λ a. record { desc = some 0; cnt = 1; large = false };
  k_block_descs =
      set block_desc_init 0
        (record { block_size = 16; blocks_per_arena = 255; free_list = 0xc010001c ∷ [] });
}

abbrev fits : ℕ → Bool
fits i = (kind_of in_use.k_block_descs i).block_size == 16 * 2 ^ i

fits_table : holds_below fits 7 ≡ true
unfolding holds_below block_desc_init init_descs
fits_table = refl

in_use-HasSizes : HasSizes in_use.k_block_descs
unfolding block_desc_init init_descs
in_use-HasSizes = record {
  count = refl;
  size = λ i l. eq-true _ _ (test_of_holds_below fits i 7 l fits_table);
}

sys_free-sys_malloc_example :
    (5 ≤ (kind_of in_use.k_block_descs (find_kind in_use.k_block_descs 5 7 0)).block_size)
    × ((m' : KernelMemory) × (sys_malloc 5 in_use ≡ done (0xc010001c, m'))
        × ((m'' : KernelMemory) × (sys_free 0xc010001c m' ≡ done m'')
            × GivenBack pf_kernel (find_kind in_use.k_block_descs 5 7 0) 0xc010001c [] in_use m''))
unfolding find_kind block_desc_init init_descs block2arena
sys_free-sys_malloc_example =
    sys_free-sys_malloc pf_kernel 5 0xc010001c [] in_use refl in_use-HasSizes (omega arith)
      (omega arith) (omega arith) refl (omega arith) refl refl (omega arith) (omega arith)
      (omega arith)
