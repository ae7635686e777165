-- ===== src/Memory/Init/Ready.antt =====
-- The memory that `mem_pool_init` of sparrow/kernel/memory.c leaves is fit for `malloc_page`.
use sparrow_os.Common.{ℕ, ◌+◌, ◌*◌, ◌^◌, ◌<◌, ◌≤◌, ◌≡◌, refl, false, arith}
use sparrow_os.Bitmap.View.{used}
use sparrow_os.Memory.Pages.{pf_kernel, KernelMemory}
use sparrow_os.Memory.Pages.Tables.{Absent}
use sparrow_os.Memory.Pages.Reserve.{IsHeap, below_stack-kernel}
use sparrow_os.Memory.Release.Free.{IsSplit}
use sparrow_os.Memory.Init.{split_memory, kernel_vaddr_bits, mem_pool_init}
use sparrow_os.Memory.Init.Layout.{mem_pool_init-Layout, fresh, len_at, split_memory-Sums}

-- On a machine with at least 2 MB and less than 4 GB whose kernel heap is not mapped yet, the pools
-- are well formed and apart after `mem_pool_init`, and every page of the kernel heap is free and
-- not mapped.
pub mem_pool_init-Ready :
    (ram : ℕ → ℕ) (all_mem : ℕ) (m : KernelMemory)
    → ((x : ℕ) → ram x < 256)
    → 0x200000 ≤ all_mem
    → all_mem < 2 ^ 32
    → ((u : ℕ) → 0xc0100000 ≤ u → u < 0xffc00000 → Absent m u)
    → let k = mem_pool_init ram all_mem m in
      IsSplit k
      × IsHeap pf_kernel k.kernel_vaddr k
      × ((j : ℕ)
          → j < 8 * k.kernel_vaddr.vaddr_bitmap.btmp_bytes_len
          → used k.kernel_vaddr.vaddr_bitmap j ≡ false)
unfolding mem_pool_init
mem_pool_init-Ready ram all_mem m b low word gap =
    let s = split_memory all_mem in
    let t = split_memory-Sums all_mem low word in
    let l = mem_pool_init-Layout ram all_mem m b low word in
    let vl = len_at ram (kernel_vaddr_bits all_mem) s.kbm_length in
    let (bytes, free) = fresh ram b (kernel_vaddr_bits all_mem) s.kbm_length in
    (
      record {
        pools = record { kernel = l.kernel_frames; user = l.user_frames };
        behind_tables = omega (arith, l.behind_tables);
        apart = l.apart;
      },
      record {
        bytes = bytes;
        small = omega (arith, vl, t.kernel);
        aligned = refl;
        high = omega arith;
        fits = l.heap_below_tables;
        stack = λ i h no. absurd (below_stack-kernel _ no);
        gaps = λ i h f.
            gap (0xc0100000 + i * 4096) (omega arith) (omega (arith, h, l.heap_below_tables));
      },
      λ j h. free j (omega (arith, vl, h)),
    )
