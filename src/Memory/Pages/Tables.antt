-- ===== src/Memory/Pages/Tables.antt =====
-- The page tables (sparrow/kernel/memory.c): the directory, its tables, and the mapping of a page.
use sparrow_os.Common.{
  ℕ, ◌+◌, ◌*◌, ◌/◌, ◌%◌, ◌^◌, ◌<◌, ◌≤◌, ◌≡◌, ◌≢◌, ◌⊎◌, inl, inr, refl, sym, ap, ◌∙◌, Bool, true,
  false, arith, ◌==◌, ltb, ltb→lt, Bool-cases, eq-true, eq_self,
}
use sparrow_os.Memory.{pde_ptr, pte_ptr}
use sparrow_os.Memory.Pages.{Pool, KernelMemory, table_entry, mmu}
use sparrow_os.Memory.Pages.Frames.{IsFrames, Owns, taken, Given, Changed-IsFrames}

-- The pages that the tables tell apart: the first 4 MB, left out, share the table of those from
-- 0xc0000000 on, and from 0xffc00000 on the tables themselves are seen.
abbrev pub IsPage : ℕ → Type 0
IsPage u = (0x400000 ≤ u) × (u < 0xffc00000)

-- Entry `i` of the page directory, the table that it names, and where the entry of a page lies.
abbrev pub dir_word : KernelMemory → ℕ → ℕ
dir_word m i = m.words (m.page_dir + i * 4)

abbrev pub table_of : KernelMemory → ℕ → ℕ
table_of m i = dir_word m i / 4096 * 4096

abbrev pub entry_at : KernelMemory → ℕ → ℕ
entry_at m u = table_of m (u / 2 ^ 22) + u / 2 ^ 12 % 2 ^ 10 * 4

abbrev pub odd : ℕ → Bool
odd w = w % 2 == 1

abbrev pub HasTable : KernelMemory → ℕ → Type 0
HasTable m u = odd (dir_word m (u / 2 ^ 22)) ≡ true

-- The last entry of the directory is the directory itself, and the entries 1 to 1022 that are
-- there name different tables.
pub record IsTables (m : KernelMemory) : Type 0 where
  pub aligned : m.page_dir % 4096 ≡ 0
  pub self : table_of m 1023 ≡ m.page_dir
  pub beside : (i : ℕ) → 0 < i → i < 1023 → odd (dir_word m i) ≡ true → table_of m i ≢ m.page_dir
  pub distinct :
      (i j : ℕ)
      → 0 < i
      → i < j
      → j < 1023
      → odd (dir_word m i) ≡ true
      → odd (dir_word m j) ≡ true
      → table_of m i ≢ table_of m j

-- The directory has not changed.
pub record SameTables (m m' : KernelMemory) : Type 0 where
  pub page_dir : m'.page_dir ≡ m.page_dir
  pub entries : (i : ℕ) → i < 1024 → dir_word m' i ≡ dir_word m i

-- The page of `u` is mapped to `frame`.
pub record Mapped (m : KernelMemory) (u frame : ℕ) : Type 0 where
  pub table : HasTable m u
  pub entry : m.words (entry_at m u) ≡ table_entry frame

-- The page of `u` is not mapped: it has no table, or no entry in it.
abbrev pub Absent : KernelMemory → ℕ → Type 0
Absent m u = (odd (dir_word m (u / 2 ^ 22)) ≡ false) ⊎ (odd (m.words (entry_at m u)) ≡ false)

-- Frames of `p` may have been taken, and none given back.
pub record Grows (p p' : Pool) : Type 0 where
  pub start : p'.phy_addr_start ≡ p.phy_addr_start
  pub len : p'.pool_bitmap.btmp_bytes_len ≡ p.pool_bitmap.btmp_bytes_len
  pub holds : p'.holds ≡ p.holds
  pub frames : IsFrames p'
  pub keeps : (f : ℕ) → Owns p f → taken p f ≡ true → taken p' f ≡ true

pub Grows-refl : (p : Pool) → IsFrames p → Grows p p
Grows-refl p h = record { start = refl; len = refl; holds = refl; frames = h; keeps = λ f o t. t }

pub Owns-start :
    {p p' : Pool} {f : ℕ}
    → p'.phy_addr_start ≡ p.phy_addr_start
    → p'.pool_bitmap.btmp_bytes_len ≡ p.pool_bitmap.btmp_bytes_len
    → Owns p f
    → Owns p' f
Owns-start s l o = record {
  aligned = o.aligned;
  above = omega (arith, s, o.above);
  below = omega (arith, s, l, o.below);
}

pub Grows-trans : {p q r : Pool} → Grows p q → Grows q r → Grows p r
Grows-trans a b = record {
  start = b.start ∙ a.start;
  len = b.len ∙ a.len;
  holds = b.holds ∙ a.holds;
  frames = b.frames;
  keeps = λ f o t. b.keeps f (Owns-start a.start a.len o) (a.keeps f o t);
}

pub Given-Grows : {p p' : Pool} {f : ℕ} → IsFrames p → Given p f p' → Grows p p'
Given-Grows {p} {p'} {f} h g = record {
  start = g.changed.start;
  len = g.changed.len;
  holds = g.changed.holds;
  frames = Changed-IsFrames h g.changed;
  keeps = λ q o t. elim (Bool-cases (q == f)) [
    | inl same ↦ ground (arith, g.changed.here, g.free)
    | inr other ↦ g.changed.others q o (ground arith) ∙ t
  ];
}

-- What does not concern the tables and the pools of frames.
pub record SameBeside (m m' : KernelMemory) : Type 0 where
  pub kernel_vaddr : m'.kernel_vaddr ≡ m.kernel_vaddr
  pub userprog_vaddr : m'.userprog_vaddr ≡ m.userprog_vaddr
  pub pgdir : m'.pgdir ≡ m.pgdir
  pub page_dir : m'.page_dir ≡ m.page_dir
  pub arenas : m'.arenas ≡ m.arenas
  pub k_block_descs : m'.k_block_descs ≡ m.k_block_descs
  pub u_block_desc : m'.u_block_desc ≡ m.u_block_desc

pub SameBeside-pools :
    (m : KernelMemory) (k u : Pool) (w : ℕ → ℕ)
    → SameBeside m (record m { kernel_pool = k; user_pool = u; words = w })
SameBeside-pools m k u w = record {
  kernel_vaddr = refl;
  userprog_vaddr = refl;
  pgdir = refl;
  page_dir = refl;
  arenas = refl;
  k_block_descs = refl;
  u_block_desc = refl;
}

pub SameTables-trans : (a b c : KernelMemory) → SameTables a b → SameTables b c → SameTables a c
SameTables-trans a b c p q = record {
  page_dir = q.page_dir ∙ p.page_dir;
  entries = λ i l. q.entries i l ∙ p.entries i l;
}

pub HasTable-same :
    (m m' : KernelMemory) (u : ℕ) → SameTables m m' → u < 2 ^ 32 → HasTable m u → HasTable m' u
HasTable-same m m' u s l h = ap odd (s.entries (u / 2 ^ 22) (omega arith)) ∙ h

pub IsTables-same : (m m' : KernelMemory) → SameTables m m' → IsTables m → IsTables m'
IsTables-same m m' s h = record {
  aligned = omega (arith, h.aligned, s.page_dir);
  self = ap (λ w. w / 4096 * 4096) (s.entries 1023 (omega arith)) ∙ h.self ∙ sym s.page_dir;
  beside = λ i a b o e.
      let w = s.entries i (omega arith) in
      h.beside i a b (ap odd (sym w) ∙ o) (ap (λ w. w / 4096 * 4096) (sym w) ∙ e ∙ s.page_dir);
  distinct = λ i j a b c o p e.
      let w = s.entries i (omega arith) in
      let x = s.entries j (omega arith) in
      h.distinct i j a b c (ap odd (sym w) ∙ o) (ap odd (sym x) ∙ p)
        (ap (λ w. w / 4096 * 4096) (sym w) ∙ e ∙ ap (λ w. w / 4096 * 4096) x);
}

-- Through the last entry of the directory the code sees the directory and the tables.
module _ (m : KernelMemory) (h : IsTables m) (v : ℕ) (word : v < 2 ^ 32) where
  pub mmu-pde_ptr : mmu m (pde_ptr v) ≡ m.page_dir + v / 2 ^ 22 * 4
  unfolding pde_ptr
  mmu-pde_ptr =
      let top : (0xfffff000 + v / 2 ^ 22 * 4) % 2 ^ 32 / 2 ^ 22 ≡ 1023 = omega arith in
      let next : (0xfffff000 + v / 2 ^ 22 * 4) % 2 ^ 32 / 2 ^ 12 % 2 ^ 10 ≡ 1023 = omega arith in
      let off : (0xfffff000 + v / 2 ^ 22 * 4) % 2 ^ 32 % 4096 ≡ v / 2 ^ 22 * 4 = omega arith in
      rw (top, next, off, h.self, h.self) refl

  pub mmu-pte_ptr : mmu m (pte_ptr v) ≡ entry_at m v
  unfolding pte_ptr
  mmu-pte_ptr =
      let a = (0xffc00000 + v / 2 ^ 22 * 2 ^ 12 + v / 2 ^ 12 % 2 ^ 10 * 4) % 2 ^ 32 in
      let top : a / 2 ^ 22 ≡ 1023 = omega arith in
      let next : a / 2 ^ 12 % 2 ^ 10 ≡ v / 2 ^ 22 = omega arith in
      let off : a % 4096 ≡ v / 2 ^ 12 % 2 ^ 10 * 4 = omega arith in rw (top, next, off, h.self) refl

  pub mmu-table : mmu m (pte_ptr v / 4096 * 4096) ≡ table_of m (v / 2 ^ 22)
  unfolding pte_ptr
  mmu-table =
      let a = (0xffc00000 + v / 2 ^ 22 * 2 ^ 12 + v / 2 ^ 12 % 2 ^ 10 * 4) % 2 ^ 32 / 4096 * 4096 in
      let top : a / 2 ^ 22 ≡ 1023 = omega arith in
      let next : a / 2 ^ 12 % 2 ^ 10 ≡ v / 2 ^ 22 = omega arith in
      let off : a % 4096 ≡ 0 = omega arith in
      let base : table_of m (v / 2 ^ 22) + 0 ≡ table_of m (v / 2 ^ 22) = omega arith in
      rw (top, next, off, h.self) base

-- The places of two entries.
word_apart :
    (s t i j : ℕ)
    → s % 4096 ≡ 0
    → t % 4096 ≡ 0
    → s ≢ t
    → i < 1024
    → j < 1024
    → s + i * 4 ≢ t + j * 4
word_apart s t i j a b n hi hj e = n (omega arith)

module _ (m : KernelMemory) (h : IsTables m) (v : ℕ) (page : IsPage v) (there : HasTable m v) where
  -- No entry of a table is one of the directory, and two pages have different entries.
  pub entry-directory : (j : ℕ) → j < 1024 → m.page_dir + j * 4 ≢ entry_at m v
  entry-directory j l =
      word_apart m.page_dir (table_of m (v / 2 ^ 22)) j (v / 2 ^ 12 % 2 ^ 10) h.aligned
        (omega arith) (λ e. h.beside (v / 2 ^ 22) (omega arith) (omega arith) there (sym e)) l
        (omega arith)

  tables_apart :
      (u : ℕ)
      → IsPage u
      → HasTable m u
      → u / 2 ^ 22 ≢ v / 2 ^ 22
      → table_of m (u / 2 ^ 22) ≢ table_of m (v / 2 ^ 22)
  tables_apart u pu tu n e = elim (Bool-cases (ltb (u / 2 ^ 22) (v / 2 ^ 22))) [
    | inl less ↦
        h.distinct (u / 2 ^ 22) (v / 2 ^ 22) (omega arith) (ltb→lt _ _ less) (omega arith) tu there
          e
    | inr more ↦
        h.distinct (v / 2 ^ 22) (u / 2 ^ 22) (omega arith) (ground arith) (omega arith) there tu
          (sym e)
  ]

  pub entry-apart :
      (u : ℕ) → IsPage u → HasTable m u → u / 4096 ≢ v / 4096 → entry_at m u ≢ entry_at m v
  entry-apart u pu tu n = elim (Bool-cases (u / 2 ^ 22 == v / 2 ^ 22)) [
    | inl same ↦ λ e. let s = eq-true _ _ same in let base = ap (table_of m) s in n (omega arith)
    | inr other ↦
        word_apart (table_of m (u / 2 ^ 22)) (table_of m (v / 2 ^ 22)) (u / 2 ^ 12 % 2 ^ 10)
          (v / 2 ^ 12 % 2 ^ 10) (omega arith) (omega arith)
          (tables_apart u pu tu (λ s. ground (arith, eq_self (v / 2 ^ 22)))) (omega arith)
          (omega arith)
  ]
