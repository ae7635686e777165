-- ===== src/Memory/Init.antt =====
-- sparrow/kernel/memory.c: `mem_init`, which splits the free memory between the kernel and the
-- processes. The bytes of the memory from address 0 on are `ram`; a bitmap is the bytes from its
-- pointer on.
pub mod Layout
pub mod Ready
pub mod Tests
use sparrow_os.Common.{ℕ, ◌+◌, ◌-◌, ◌*◌, ◌/◌, ◌%◌, ◌^◌, add32, sub32}
use sparrow_os.Bitmap.{Bitmap, bitmap_init}
use sparrow_os.Memory.{block_desc_init}
use sparrow_os.Memory.Pages.{KernelMemory}

-- 1 MB and the 256 pages of the page tables.
abbrev pub used_mem : ℕ
used_mem = 4096 * 256 + 0x100000

-- The locals of `mem_pool_init`; a number of pages has 16 bits.
pub record Split : Type 0 where
  pub kernel_free_pages : ℕ
  pub user_free_pages : ℕ
  pub kbm_length : ℕ
  pub ubm_length : ℕ
  pub kp_start : ℕ
  pub up_start : ℕ

pub split_memory : ℕ → Split
split_memory all_mem =
    let all_free_pages = sub32 all_mem used_mem / 4096 % 2 ^ 16 in
    let kernel_free_pages = all_free_pages / 2 in
    let user_free_pages = all_free_pages - kernel_free_pages in
    record {
      kernel_free_pages = kernel_free_pages;
      user_free_pages = user_free_pages;
      kbm_length = kernel_free_pages / 8;
      ubm_length = user_free_pages / 8;
      kp_start = used_mem;
      up_start = add32 used_mem (kernel_free_pages * 4096);
    }

-- A bitmap of `len` bytes at `at`, cleared.
abbrev pub bitmap_at : (ℕ → ℕ) → ℕ → ℕ → Bitmap
bitmap_at ram at len = bitmap_init (record { btmp_bytes_len = len; bits = λ k. ram (at + k) })

abbrev pub mem_bitmap_base : ℕ
mem_bitmap_base = 0xc009a000

-- Where the bitmaps of the pools lie.
pub kernel_bits : ℕ
kernel_bits = mem_bitmap_base

pub user_bits : ℕ → ℕ
user_bits all_mem = mem_bitmap_base + (split_memory all_mem).kbm_length

pub kernel_vaddr_bits : ℕ → ℕ
kernel_vaddr_bits all_mem =
    let s = split_memory all_mem in mem_bitmap_base + s.kbm_length + s.ubm_length

pub mem_pool_init : (ℕ → ℕ) → ℕ → KernelMemory → KernelMemory
mem_pool_init ram all_mem m =
    let s = split_memory all_mem in
    record m {
      kernel_pool = record {
        pool_bitmap = bitmap_at ram kernel_bits s.kbm_length;
        phy_addr_start = s.kp_start;
        pool_size = s.kernel_free_pages * 4096;
        holds = 0;
      };
      user_pool = record {
        pool_bitmap = bitmap_at ram (user_bits all_mem) s.ubm_length;
        phy_addr_start = s.up_start;
        pool_size = s.user_free_pages * 4096;
        holds = 0;
      };
      kernel_vaddr = record {
        vaddr_bitmap = bitmap_at ram (kernel_vaddr_bits all_mem) s.kbm_length;
        vaddr_start = 0xc0100000;
      };
    }

pub mem_init : (ℕ → ℕ) → ℕ → KernelMemory → KernelMemory
mem_init ram mem_bytes_total m = record (mem_pool_init ram mem_bytes_total m) {
  k_block_descs = block_desc_init;
}
