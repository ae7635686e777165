-- ===== src/Memory/Init/Layout.antt =====
-- Where `mem_pool_init` of sparrow/kernel/memory.c puts the pools and their bitmaps.
use sparrow_os.Common.{ℕ, ◌+◌, ◌*◌, ◌^◌, ◌<◌, ◌≤◌, ◌≡◌, refl, ◌∙◌, false, arith}
use sparrow_os.Bitmap.View.{used, IsBytes, bitmap_init-used, btmp_bytes_len-bitmap_init}
use sparrow_os.Memory.Pages.{KernelMemory}
use sparrow_os.Memory.Pages.Frames.{frames, IsFrames, Owns, taken}
use sparrow_os.Memory.Init.{
  Split, split_memory, bitmap_at, kernel_bits, user_bits, kernel_vaddr_bits, mem_pool_init,
}

-- The pools of `k` and their bitmaps, on a machine with `all_mem` bytes.
pub record Layout (all_mem : ℕ) (k : KernelMemory) : Type 0 where
  pub kernel_frames : IsFrames k.kernel_pool
  pub user_frames : IsFrames k.user_pool
  pub behind_tables : 0x200000 ≤ k.kernel_pool.phy_addr_start
  pub apart :
      k.kernel_pool.phy_addr_start + frames k.kernel_pool * 4096 ≤ k.user_pool.phy_addr_start
  pub inside : k.user_pool.phy_addr_start + frames k.user_pool * 4096 ≤ all_mem
  pub in_size : frames k.kernel_pool * 4096 ≤ k.kernel_pool.pool_size
  pub little_lost :
      all_mem < 0x10200000
      → all_mem < 0x200000 + (frames k.kernel_pool + frames k.user_pool + 16) * 4096
  pub kernel_free : (f : ℕ) → Owns k.kernel_pool f → taken k.kernel_pool f ≡ false
  pub user_free : (f : ℕ) → Owns k.user_pool f → taken k.user_pool f ≡ false
  pub bitmaps_apart :
      (kernel_bits + k.kernel_pool.pool_bitmap.btmp_bytes_len ≤ user_bits all_mem)
      × (user_bits all_mem + k.user_pool.pool_bitmap.btmp_bytes_len ≤ kernel_vaddr_bits all_mem)
  pub below_stack :
      kernel_vaddr_bits all_mem + k.kernel_vaddr.vaddr_bitmap.btmp_bytes_len ≤ 0xc009e000
  pub heap_below_tables :
      k.kernel_vaddr.vaddr_start + 8 * k.kernel_vaddr.vaddr_bitmap.btmp_bytes_len * 4096
      ≤ 0xffc00000

-- The numbers of the split.
pub record Sums (all_mem : ℕ) (s : Split) : Type 0 where
  pub kernel : 16 * s.kbm_length ≤ 65535
  pub start : s.kp_start ≡ 0x200000
  pub next : s.up_start ≡ 0x200000 + s.kernel_free_pages * 4096
  pub kernel_in : 8 * s.kbm_length ≤ s.kernel_free_pages
  pub user_in : 8 * s.ubm_length ≤ s.user_free_pages
  pub total : 0x200000 + (s.kernel_free_pages + s.user_free_pages) * 4096 ≤ all_mem
  pub words : s.kernel_free_pages + s.user_free_pages ≤ 65535
  pub rest :
      all_mem < 0x10200000 → all_mem < 0x200000 + (8 * s.kbm_length + 8 * s.ubm_length + 16) * 4096

pub split_memory-Sums :
    (all_mem : ℕ) → 0x200000 ≤ all_mem → all_mem < 2 ^ 32 → Sums all_mem (split_memory all_mem)
unfolding split_memory
split_memory-Sums all_mem low word = record {
  kernel = omega arith;
  start = refl;
  next = omega arith;
  kernel_in = omega arith;
  user_in = omega arith;
  total = omega arith;
  words = omega arith;
  rest = λ h. omega arith;
}

-- A cleared bitmap at `at`.
pub fresh :
    (ram : ℕ → ℕ)
    → ((x : ℕ) → ram x < 256)
    → (at len : ℕ)
    → IsBytes (bitmap_at ram at len)
      × ((j : ℕ) → j < 8 * len → used (bitmap_at ram at len) j ≡ false)
fresh ram b at len =
    let (bytes, free) =
      bitmap_init-used (record { btmp_bytes_len = len; bits = λ k. ram (at + k) })
        (record { byte = λ k. b (at + k) }) in
    (bytes, λ j h. free j ∙ ground arith)

pub len_at : (ram : ℕ → ℕ) (at len : ℕ) → (bitmap_at ram at len).btmp_bytes_len ≡ len
len_at ram at len =
    btmp_bytes_len-bitmap_init (record { btmp_bytes_len = len; bits = λ k. ram (at + k) })

-- On a machine with at least 2 MB and less than 4 GB, the pools of the kernel and of the processes
-- are page-aligned, lie behind the page tables, do not overlap, end inside the memory and are free,
-- and each has a frame for every bit; below 258 MB less than 16 pages are lost. The three bitmaps
-- do not overlap and end below the stack, and the heap ends below the page tables.
pub mem_pool_init-Layout :
    (ram : ℕ → ℕ) (all_mem : ℕ) (m : KernelMemory)
    → ((x : ℕ) → ram x < 256)
    → 0x200000 ≤ all_mem
    → all_mem < 2 ^ 32
    → Layout all_mem (mem_pool_init ram all_mem m)
unfolding mem_pool_init kernel_bits user_bits kernel_vaddr_bits
mem_pool_init-Layout ram all_mem m b low word =
    let s = split_memory all_mem in
    let t = split_memory-Sums all_mem low word in
    let kl = len_at ram kernel_bits s.kbm_length in
    let ul = len_at ram (user_bits all_mem) s.ubm_length in
    let vl = len_at ram (kernel_vaddr_bits all_mem) s.kbm_length in
    let (k_bytes, k_free) = fresh ram b kernel_bits s.kbm_length in
    let (u_bytes, u_free) = fresh ram b (user_bits all_mem) s.ubm_length in
    record {
      kernel_frames = record {
        bytes = k_bytes;
        small = omega (arith, kl, t.kernel);
        aligned = omega (arith, t.start);
        high = omega (arith, t.start);
        fits = omega (arith, kl, t.kernel, t.start);
      };
      user_frames = record {
        bytes = u_bytes;
        small = omega (arith, ul, t.user_in, t.words);
        aligned = omega (arith, t.next);
        high = omega (arith, t.next);
        fits = omega (arith, ul, t.next, t.user_in, t.words);
      };
      behind_tables = omega (arith, t.start);
      apart = omega (arith, kl, t.start, t.next, t.kernel_in);
      inside = omega (arith, ul, t.next, t.user_in, t.total);
      in_size = omega (arith, kl, t.kernel_in);
      little_lost = λ h. omega (arith, kl, ul, t.rest h);
      kernel_free = λ f o. k_free _ (omega (arith, kl, o.above, o.below));
      user_free = λ f o. u_free _ (omega (arith, ul, o.above, o.below));
      bitmaps_apart = (omega (arith, kl), omega (arith, ul));
      below_stack = omega (arith, vl, t.kernel, t.user_in, t.words, t.kernel_in);
      heap_below_tables = omega (arith, vl, t.kernel);
    }
