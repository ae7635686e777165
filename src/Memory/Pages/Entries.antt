-- ===== src/Memory/Pages/Entries.antt =====
-- The writes of sparrow/kernel/memory.c into the page tables, seen from the mapping of every page.
use sparrow_os.Common.{
  ℕ, ◌+◌, ◌*◌, ◌/◌, ◌%◌, ◌^◌, ◌<◌, ◌≡◌, ◌≢◌, inl, inr, refl, sym, ap, ◌∙◌, true, false, ◌&&◌, arith,
  ◌==◌, leb, ltb, if◌then◌else◌, Bool-cases, eq-true, eq_self, ◌⊎◌,
}
use sparrow_os.Memory.{pte_ptr}
use sparrow_os.Memory.Pages.{KernelMemory, table_entry, write_at, new_table, clear_words}
use sparrow_os.Memory.Pages.Tables.{
  IsPage, dir_word, table_of, entry_at, odd, HasTable, IsTables, SameTables, Mapped, Absent,
  IsTables-same, mmu-pde_ptr, mmu-table, entry-directory, entry-apart,
}

-- The same directory and the same entry.
pub Mapped-words :
    (m m' : KernelMemory) (u g : ℕ)
    → dir_word m' (u / 2 ^ 22) ≡ dir_word m (u / 2 ^ 22)
    → m'.words (entry_at m' u) ≡ m.words (entry_at m u)
    → Mapped m u g
    → Mapped m' u g
Mapped-words m m' u g d e h = record { table = ap odd d ∙ h.table; entry = e ∙ h.entry }

pub Absent-words :
    (m m' : KernelMemory) (u : ℕ)
    → dir_word m' (u / 2 ^ 22) ≡ dir_word m (u / 2 ^ 22)
    → m'.words (entry_at m' u) ≡ m.words (entry_at m u)
    → Absent m u
    → Absent m' u
Absent-words m m' u d e (inl h) = inl (ap odd d ∙ h)
Absent-words m m' u d e (inr h) = inr (ap odd e ∙ h)

pub entry-same :
    (m m' : KernelMemory) (u : ℕ) → SameTables m m' → IsPage u → entry_at m' u ≡ entry_at m u
entry-same m m' u s p =
    ap (λ w. w / 4096 * 4096 + u / 2 ^ 12 % 2 ^ 10 * 4) (s.entries (u / 2 ^ 22) (omega arith))

-- The entry of the page of `v` becomes `w`, in a table that is there.
module _ (m : KernelMemory) (h : IsTables m) (v w : ℕ) (page : IsPage v)
    (there : HasTable m v) where
  abbrev pub entered : KernelMemory
  entered = write_at (entry_at m v) w m

  pub entered-SameTables : SameTables m entered
  entered-SameTables = record {
    page_dir = refl;
    entries = λ i l.
        let away = entry-directory m h v page there i l in
        let other : (m.page_dir + i * 4 == entry_at m v) ≡ false = ground arith in rw other refl;
  }

  pub entered-here : entered.words (entry_at entered v) ≡ w
  entered-here =
      ap entered.words (entry-same m entered v entered-SameTables page)
      ∙ rw (eq_self (entry_at m v)) refl

  pub entered-HasTable : HasTable entered v
  entered-HasTable = ap odd (entered-SameTables.entries (v / 2 ^ 22) (omega arith)) ∙ there

  module _ (u : ℕ) (pu : IsPage u) (n : u / 4096 ≢ v / 4096) where
    dir_same : dir_word entered (u / 2 ^ 22) ≡ dir_word m (u / 2 ^ 22)
    dir_same = entered-SameTables.entries (u / 2 ^ 22) (omega arith)

    entered_other : HasTable m u → entered.words (entry_at entered u) ≡ m.words (entry_at m u)
    entered_other tu =
        let away = entry-apart m h v page there u pu tu n in
        let other : (entry_at m u == entry_at m v) ≡ false = ground arith in
        ap entered.words (entry-same m entered u entered-SameTables pu) ∙ rw other refl

    pub entered-Mapped : (g : ℕ) → Mapped m u g → Mapped entered u g
    entered-Mapped g t = Mapped-words m entered u g dir_same (entered_other t.table) t

    pub entered-Absent : Absent m u → Absent entered u
    entered-Absent (inl e) = inl (ap odd dir_same ∙ e)
    entered-Absent (inr e) = elim (Bool-cases (odd (dir_word m (u / 2 ^ 22)))) [
      | inl tu ↦ inr (ap odd (entered_other tu) ∙ e)
      | inr lacks ↦ inl (ap odd dir_same ∙ lacks)
    ]

-- A frame that is neither the directory nor a table of it.
pub record IsNew (m : KernelMemory) (frame : ℕ) : Type 0 where
  pub aligned : frame % 4096 ≡ 0
  pub directory : frame ≢ m.page_dir
  pub tables : (i : ℕ) → 0 < i → i < 1023 → odd (dir_word m i) ≡ true → table_of m i ≢ frame

table_entry-frame : (f : ℕ) → f % 4096 ≡ 0 → table_entry f / 4096 * 4096 ≡ f
table_entry-frame f h = omega arith

-- The directory names a new table for the page of `v`.
module _ (m : KernelMemory) (h : IsTables m) (v f : ℕ) (page : IsPage v) (new : IsNew m f) where
  abbrev named : KernelMemory
  named = write_at (m.page_dir + v / 2 ^ 22 * 4) (table_entry f) m

  named-here : dir_word named (v / 2 ^ 22) ≡ table_entry f
  named-here = rw (eq_self (m.page_dir + v / 2 ^ 22 * 4)) refl

  named-other : (i : ℕ) → i ≢ v / 2 ^ 22 → dir_word named i ≡ dir_word m i
  named-other i n =
      let away : (m.page_dir + i * 4 == m.page_dir + v / 2 ^ 22 * 4) ≡ false = ground arith in
      rw away refl

  named-table : table_of named (v / 2 ^ 22) ≡ f
  named-table = ap (λ w. w / 4096 * 4096) named-here ∙ table_entry-frame f new.aligned

  table-other : (i : ℕ) → i ≢ v / 2 ^ 22 → table_of named i ≡ table_of m i
  table-other i n = ap (λ w. w / 4096 * 4096) (named-other i n)

  -- A table of the directory is the new one, or one that was there.
  named-cases :
      (i : ℕ)
      → 0 < i
      → i < 1023
      → odd (dir_word named i) ≡ true
      → ((i ≡ v / 2 ^ 22) × (table_of named i ≡ f))
        ⊎ ((i ≢ v / 2 ^ 22) × (table_of named i ≡ table_of m i) × (odd (dir_word m i) ≡ true))
  named-cases i a b o = elim (Bool-cases (i == v / 2 ^ 22)) [
    | inl same ↦ let e = eq-true i (v / 2 ^ 22) same in inl (e, ap (table_of named) e ∙ named-table)
    | inr other ↦
        let n : i ≢ v / 2 ^ 22 = λ e. ground (arith, eq_self (v / 2 ^ 22)) in
        inr (n, table-other i n, ap odd (sym (named-other i n)) ∙ o)
  ]

  named-IsTables : IsTables named
  named-IsTables = record {
    aligned = h.aligned;
    self = table-other 1023 (λ e. omega arith) ∙ h.self;
    beside = λ i a b o e. elim (named-cases i a b o) [
      | inl (s, t) ↦ new.directory (sym t ∙ e)
      | inr (n, t, p) ↦ h.beside i a b p (sym t ∙ e)
    ];
    distinct = λ i j a b c o p e. elim (named-cases i a (omega arith) o) [
      | inl (s, t) ↦ elim (named-cases j (omega arith) c p) [
        | inl (s', t') ↦ absurd (omega arith)
        | inr (n', t', q') ↦ new.tables j (omega arith) c q' (sym t' ∙ sym e ∙ t)
      ]
      | inr (n, t, q) ↦ elim (named-cases j (omega arith) c p) [
        | inl (s', t') ↦ new.tables i a (omega arith) q (sym t ∙ e ∙ t')
        | inr (n', t', q') ↦ h.distinct i j a b c q q' (sym t ∙ e ∙ t')
      ]
    ];
  }

  -- And the table is cleared.
  abbrev pub emptied : KernelMemory
  emptied = record named { words = λ y. if leb f y && ltb y (f + 4096) then 0 else named.words y }

  emptied-outside :
      (t k : ℕ)
      → t % 4096 ≡ 0
      → t ≢ f
      → k < 1024
      → emptied.words (t + k * 4) ≡ named.words (t + k * 4)
  emptied-outside t k al n l =
      let al' = new.aligned in
      let out : (leb f (t + k * 4) && ltb (t + k * 4) (f + 4096)) ≡ false =
        elim (Bool-cases (leb f (t + k * 4) && ltb (t + k * 4) (f + 4096))) [
          | inr no_word ↦ no_word
          | inl inside ↦ absurd (in_page t k f al al' l n inside)
        ] in
      rw out refl
    where
      in_page :
          (t k f : ℕ)
          → t % 4096 ≡ 0
          → f % 4096 ≡ 0
          → k < 1024
          → t ≢ f
          → (leb f (t + k * 4) && ltb (t + k * 4) (f + 4096)) ≡ true
          → ⊥
      in_page t k f al al' l n inside = ground arith

  emptied-SameTables : SameTables named emptied
  emptied-SameTables = record {
    page_dir = refl;
    entries = λ i l. emptied-outside m.page_dir i h.aligned (λ e. new.directory (sym e)) l;
  }

  pub emptied-IsTables : IsTables emptied
  emptied-IsTables = IsTables-same named emptied emptied-SameTables named-IsTables

  pub new_table_lem : new_table v f m ≡ emptied
  unfolding new_table
  new_table_lem =
      ap (λ x. clear_words (pte_ptr v / 4096 * 4096) 4096 (write_at x (table_entry f) m))
        (mmu-pde_ptr m h v (omega arith))
      ∙ ap
          (λ x. record named {
            words = λ y. if leb x y && ltb y (x + 4096) then 0 else named.words y;
          })
          (mmu-table named named-IsTables v (omega arith) ∙ named-table)

  pub emptied-HasTable : HasTable emptied v
  emptied-HasTable =
      ap odd (emptied-SameTables.entries (v / 2 ^ 22) (omega arith) ∙ named-here) ∙ ground arith

  -- The new table has no entries.
  emptied_entry :
      (u : ℕ) → IsPage u → u / 2 ^ 22 ≡ v / 2 ^ 22 → emptied.words (entry_at emptied u) ≡ 0
  emptied_entry u pu e =
      let at : entry_at emptied u ≡ f + u / 2 ^ 12 % 2 ^ 10 * 4 =
        entry-same named emptied u emptied-SameTables pu
        ∙ ap (λ t. t + u / 2 ^ 12 % 2 ^ 10 * 4) (ap (table_of named) e ∙ named-table) in
      ap emptied.words at ∙ first_page f (u / 2 ^ 12 % 2 ^ 10) (omega arith)
    where
      first_page :
          (f k : ℕ)
          → k < 1024
          → (if leb f (f + k * 4) && ltb (f + k * 4) (f + 4096) then 0 else named.words (f + k * 4))
            ≡ 0
      first_page f k l = ground arith

  pub emptied-here : odd (emptied.words (entry_at emptied v)) ≡ false
  emptied-here = ap odd (emptied_entry v page refl)

  module _ (lacks : odd (dir_word m (v / 2 ^ 22)) ≡ false) (u : ℕ) (pu : IsPage u) where
    emptied-dir : u / 2 ^ 22 ≢ v / 2 ^ 22 → dir_word emptied (u / 2 ^ 22) ≡ dir_word m (u / 2 ^ 22)
    emptied-dir n =
        emptied-SameTables.entries (u / 2 ^ 22) (omega arith) ∙ named-other (u / 2 ^ 22) n

    emptied-word :
        u / 2 ^ 22 ≢ v / 2 ^ 22
        → HasTable m u
        → emptied.words (entry_at emptied u) ≡ m.words (entry_at m u)
    emptied-word n tu =
        let i = u / 2 ^ 22 in
        let at : entry_at emptied u ≡ entry_at m u =
          ap (λ w. w / 4096 * 4096 + u / 2 ^ 12 % 2 ^ 10 * 4) (emptied-dir n) in
        let away = entry-directory m h u pu tu (v / 2 ^ 22) (omega arith) in
        let other : (entry_at m u == m.page_dir + v / 2 ^ 22 * 4) ≡ false = ground arith in
        ap emptied.words at
        ∙ emptied-outside (table_of m i) (u / 2 ^ 12 % 2 ^ 10) (omega arith)
            (new.tables i (omega arith) (omega arith) tu) (omega arith)
        ∙ rw other refl

    has_other : HasTable m u → u / 2 ^ 22 ≢ v / 2 ^ 22
    has_other tu e =
        let differ : true ≡ false = sym tu ∙ ap (λ i. odd (dir_word m i)) e ∙ lacks in ground arith

    pub emptied-Mapped : (g : ℕ) → Mapped m u g → Mapped emptied u g
    emptied-Mapped g t =
        let n = has_other t.table in
        Mapped-words m emptied u g (emptied-dir n) (emptied-word n t.table) t

    pub emptied-Absent : Absent m u → Absent emptied u
    emptied-Absent a = elim (Bool-cases (u / 2 ^ 22 == v / 2 ^ 22)) [
      | inl same ↦ inr (ap odd (emptied_entry u pu (eq-true _ _ same)))
      | inr other ↦
          let n : u / 2 ^ 22 ≢ v / 2 ^ 22 = λ e. ground (arith, eq_self (v / 2 ^ 22)) in
          elim (Bool-cases (odd (dir_word m (u / 2 ^ 22)))) [
            | inr none_there ↦ inl (ap odd (emptied-dir n) ∙ none_there)
            | inl tu ↦ inr (ap odd (emptied-word n tu) ∙ entry_free a tu)
          ]
    ]
      where
        entry_free : Absent m u → HasTable m u → odd (m.words (entry_at m u)) ≡ false
        entry_free (inl e) tu = let differ : true ≡ false = sym tu ∙ e in absurd (ground arith)
        entry_free (inr e) tu = e
