-- ===== src/Inode/Recount.antt =====
-- The list of open inodes of sparrow/fs/inode.c with another count for one of them.
use sparrow_os.Common.{
  ℕ, ◌<◌, ◌≡◌, inl, inr, refl, sym, ap, subst, ◌∙◌, false, some, arith, ◌==◌, if◌then◌else◌,
  Bool-cases, Option-cases, eq-true, eq_self,
}
use sparrow_os.LinkedList.View.{Distinct}
use sparrow_os.Inode.{OpenInodes, set_inode, find_inode}
use sparrow_os.Inode.OpenList.{
  opens, opens_of, IsOpenList, find_inode-changed, numbers-changed, find_inode-some,
}

-- A change of the count of the inode that the walk finds.
module _ (s : OpenInodes) (nr p n : ℕ) (found : find_inode s.inodes nr s.open_inodes ≡ some p) where
  abbrev pub recounted : OpenInodes
  recounted = set_inode p (record (s.inodes p) { i_open_cnts = n }) s

  counted_here : (recounted.inodes p).i_open_cnts ≡ n
  counted_here = rw (eq_self p) refl

  counted_other :
      (q : ℕ) → (q == p) ≡ false → (recounted.inodes q).i_open_cnts ≡ (s.inodes q).i_open_cnts
  counted_other q n = rw n refl

  pub opens-recounted : (m : ℕ) → opens recounted m ≡ (if m == nr then n else opens s m)
  opens-recounted m =
      let same = find_inode-changed s.inodes p (record (s.inodes p) { i_open_cnts = n }) refl in
      ap (opens_of recounted.inodes) (same m s.open_inodes) ∙ elim (Bool-cases (m == nr)) [
        | inl at ↦
            let e = eq-true m nr at in
            ap (λ k. opens_of recounted.inodes (find_inode s.inodes k s.open_inodes)) e
            ∙ ap (opens_of recounted.inodes) found
            ∙ counted_here
            ∙ rw at refl
        | inr other ↦ elim (Option-cases (find_inode s.inodes m s.open_inodes)) [
          | inl missing ↦ rw (missing, other) refl
          | inr (q, there) ↦
              let number = (find_inode-some s.inodes m q s.open_inodes there).0 in
              let own = (find_inode-some s.inodes nr p s.open_inodes found).0 in
              let differ : (q == p) ≡ false = apart q m number own other in
              rw (there, other) (counted_other q differ)
        ]
      ]
    where
      apart :
          (q m : ℕ)
          → (s.inodes q).i_no ≡ m
          → (s.inodes p).i_no ≡ nr
          → (m == nr) ≡ false
          → (q == p) ≡ false
      apart q m a b c = elim (Bool-cases (q == p)) [
        | inr other ↦ other
        | inl same ↦
            let e : m ≡ nr = sym a ∙ ap (λ x. (s.inodes x).i_no) (eq-true q p same) ∙ b in
            absurd (ground arith)
      ]

  pub recounted-IsOpenList : IsOpenList s → 0 < n → IsOpenList recounted
  recounted-IsOpenList h pos = record {
    distinct =
        subst Distinct
          (sym (
            numbers-changed s.inodes p (record (s.inodes p) { i_open_cnts = n }) refl
              s.open_inodes))
          h.distinct;
    positive = λ q on. elim (Bool-cases (q == p)) [
      | inl same ↦ rw same pos
      | inr other ↦ rw other (h.positive q on)
    ];
  }
