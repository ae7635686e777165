-- ===== src/Memory/Pages/Add.antt =====
-- `page_table_add` of sparrow/kernel/memory.c maps one page and keeps every other mapping.
use sparrow_os.Common.{
  ℕ, ◌/◌, ◌^◌, ◌<◌, ◌≡◌, ◌≢◌, ◌⊎◌, inl, inr, refl, sym, ap, subst, ◌∙◌, true, false, arith, Outcome,
  done, Bool-cases,
}
use sparrow_os.Memory.{pde_ptr, pte_ptr}
use sparrow_os.Memory.Pages.{
  Pool, KernelMemory, palloc, write_pte, page_table_add, table_entry, write_at, present,
}
use sparrow_os.Memory.Pages.Frames.{IsFrames, Owns, taken, Given, palloc-Gives}
use sparrow_os.Memory.Pages.Tables.{
  IsPage, dir_word, table_of, entry_at, odd, HasTable, IsTables, SameTables, Mapped, Absent, Grows,
  Grows-refl, Given-Grows, SameBeside, SameBeside-pools, IsTables-same, mmu-pde_ptr, mmu-pte_ptr,
}
use sparrow_os.Memory.Pages.Entries.{
  entered, entered-SameTables, entered-here, entered-HasTable, entered-Mapped, entered-Absent,
  IsNew, emptied, emptied-IsTables, new_table_lem, emptied-HasTable, emptied-here, emptied-Mapped,
  emptied-Absent,
}

-- `m'` is `m` with the page of `v` mapped to `frame`.
pub record Added (m : KernelMemory) (v frame : ℕ) (m' : KernelMemory) : Type 0 where
  pub mapped : Mapped m' v frame
  pub others : (u g : ℕ) → IsPage u → u / 4096 ≢ v / 4096 → Mapped m u g → Mapped m' u g
  pub absent : (u : ℕ) → IsPage u → u / 4096 ≢ v / 4096 → Absent m u → Absent m' u
  pub kernel_pool : Grows m.kernel_pool m'.kernel_pool
  pub user_pool : m'.user_pool ≡ m.user_pool
  pub beside : SameBeside m m'
  pub tables : IsTables m'

-- What `page_table_add` does where it ends.
abbrev pub Adds : KernelMemory → ℕ → ℕ → Outcome KernelMemory → Type 0
Adds m v frame o = (m' : KernelMemory) × (o ≡ done m') × Added m v frame m'

-- Every frame of the kernel's pool that the directory or a table lies in is taken.
pub record TablesTaken (m : KernelMemory) : Type 0 where
  pub directory : Owns m.kernel_pool m.page_dir → taken m.kernel_pool m.page_dir ≡ true
  pub tables :
      (i : ℕ)
      → 0 < i
      → i < 1023
      → odd (dir_word m i) ≡ true
      → Owns m.kernel_pool (table_of m i)
      → taken m.kernel_pool (table_of m i) ≡ true

entry-odd : (frame : ℕ) → odd (table_entry frame) ≡ true
entry-odd frame = ground arith

module _ (m : KernelMemory) (v frame : ℕ) (page : IsPage v) (h : IsTables m) where
  -- The code's test of the directory entry, and its ASSERT on the entry of the table.
  present-table : present m (pde_ptr v) ≡ odd (dir_word m (v / 2 ^ 22))
  present-table = ap (λ x. odd (m.words x)) (mmu-pde_ptr m h v (omega arith))

  write_pte_lem :
      odd (m.words (entry_at m v)) ≡ false
      → write_pte v frame m ≡ done (write_at (entry_at m v) (table_entry frame) m)
  unfolding write_pte
  write_pte_lem e =
      let at = mmu-pte_ptr m h v (omega arith) in
      let test : present m (pte_ptr v) ≡ false = ap (λ x. odd (m.words x)) at ∙ e in
      rw test (ap (λ x. done (write_at x (table_entry frame) m)) at)

  entry_free : HasTable m v → Absent m v → odd (m.words (entry_at m v)) ≡ false
  entry_free there (inl n) = let differ : true ≡ false = sym there ∙ n in absurd (ground arith)
  entry_free there (inr n) = n

  -- The entry is written into a table that is there.
  entered-Added :
      IsFrames m.kernel_pool
      → (there : HasTable m v) → Added m v frame (entered m h v (table_entry frame) page there)
  entered-Added f there = record {
    mapped = record {
      table = entered-HasTable m h v (table_entry frame) page there;
      entry = entered-here m h v (table_entry frame) page there;
    };
    others = λ u g p n t. entered-Mapped m h v (table_entry frame) page there u p n g t;
    absent = λ u p n a. entered-Absent m h v (table_entry frame) page there u p n a;
    kernel_pool = Grows-refl m.kernel_pool f;
    user_pool = refl;
    beside = SameBeside-pools m _ _ _;
    tables = IsTables-same m _ (entered-SameTables m h v (table_entry frame) page there) h;
  }

  pub add_in_table :
      IsFrames m.kernel_pool
      → HasTable m v
      → Absent m v
      → (m' : KernelMemory) × (page_table_add v frame m ≡ done m')
        × Added m v frame m'
        × SameTables m m'
  unfolding page_table_add
  add_in_table f there a =
      let has : present m (pde_ptr v) ≡ true = present-table ∙ there in
      (
        entered m h v (table_entry frame) page there,
        rw has (write_pte_lem (entry_free there a)),
        entered-Added f there,
        entered-SameTables m h v (table_entry frame) page there,
      )

-- A frame that `palloc` gave is none of the tables.
Given-IsNew :
    (m : KernelMemory) (f : ℕ) (p : Pool)
    → TablesTaken m
    → Given m.kernel_pool f p
    → IsNew (record m { kernel_pool = p }) f
Given-IsNew m f p t g = record {
  aligned = g.own.aligned;
  directory = λ e.
      let full = t.directory (subst (Owns m.kernel_pool) e g.own) in
      let free = ap (taken m.kernel_pool) (sym e) ∙ g.free in
      let differ : true ≡ false = sym full ∙ free in ground arith;
  tables = λ i a b o e.
      let full = t.tables i a b o (subst (Owns m.kernel_pool) (sym e) g.own) in
      let free = ap (taken m.kernel_pool) e ∙ g.free in
      let differ : true ≡ false = sym full ∙ free in ground arith;
}

-- The tables are seen in the words and the directory alone.
IsTables-pool : (m : KernelMemory) (p : Pool) → IsTables m → IsTables (record m { kernel_pool = p })
IsTables-pool m p h = record {
  aligned = h.aligned;
  self = h.self;
  beside = h.beside;
  distinct = h.distinct;
}

module _ (m : KernelMemory) (v frame : ℕ) (page : IsPage v) (h : IsTables m) where
  -- The page has no table: `palloc` gives a frame for one.
  add_new_table :
      IsFrames m.kernel_pool
      → TablesTaken m
      → odd (dir_word m (v / 2 ^ 22)) ≡ false
      → (table : ℕ) (p : Pool) → palloc m.kernel_pool ≡ done (table, p)
      → Given m.kernel_pool table p
      → Adds m v frame (page_table_add v frame m)
  unfolding page_table_add
  add_new_table f t lacks table p e g =
      let m1 : KernelMemory = record m { kernel_pool = p } in
      let h1 = IsTables-pool m p h in
      let new = Given-IsNew m table p t g in
      let m2 = emptied m1 h1 v table page new in
      let h2 = emptied-IsTables m1 h1 v table page new in
      let there = emptied-HasTable m1 h1 v table page new in
      let free = emptied-here m1 h1 v table page new in
      let grown = Given-Grows f g in
      let a = entered-Added m2 v frame page h2 grown.frames there in
      let has : present m (pde_ptr v) ≡ false = present-table m v frame page h ∙ lacks in
      (
        entered m2 h2 v (table_entry frame) page there,
        rw (has, e, new_table_lem m1 h1 v table page new) (write_pte_lem m2 v frame page h2 free),
        record {
          mapped = a.mapped;
          others = λ u g p n t. a.others u g p n (
              emptied-Mapped m1 h1 v table page new lacks u p g
                (record { table = t.table; entry = t.entry }));
          absent = λ u p n b. a.absent u p n (emptied-Absent m1 h1 v table page new lacks u p b);
          kernel_pool = grown;
          user_pool = refl;
          beside = SameBeside-pools m _ _ _;
          tables = a.tables;
        },
      )

  -- Where the page of `v` is not mapped, and has a table or the kernel a free frame for one,
  -- `page_table_add` ends without a failed ASSERT, maps it to the frame, keeps every other page
  -- mapped or not as it was, and takes at most frames of the kernel.
  pub page_table_add-Adds :
      IsFrames m.kernel_pool
      → TablesTaken m
      → Absent m v
      → HasTable m v ⊎ ((q : ℕ) × Owns m.kernel_pool q × (taken m.kernel_pool q ≡ false))
      → Adds m v frame (page_table_add v frame m)
  page_table_add-Adds f t a room = elim (Bool-cases (odd (dir_word m (v / 2 ^ 22)))) [
    | inl there ↦ let (m', e, r, s) = add_in_table m v frame page h f there a in (m', e, r)
    | inr lacks ↦ elim room [
      | inl there ↦ let differ : true ≡ false = sym there ∙ lacks in absurd (ground arith)
      | inr (q, own, free) ↦
          let (table, p, e, alt) = palloc-Gives m.kernel_pool f in
          elim alt [
            | inl (z, same, full) ↦
                let differ : true ≡ false = sym (full q own) ∙ free in absurd (ground arith)
            | inr g ↦ add_new_table f t lacks table p e g
          ]
    ]
  ]
