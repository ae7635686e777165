-- ===== src/Inode/OpenList.antt =====
-- The open inodes of sparrow/fs/inode.c: how often each number is open.
use sparrow_os.Common.{
  ℕ, ◌<◌, ◌≡◌, ◌≢◌, inl, inr, refl, sym, ap, subst, ◌∙◌, true, false, Option, none, some, List, [],
  ◌∷◌, arith, ◌==◌, if◌then◌else◌, Bool-cases, eq-true, eq_self,
}
use sparrow_os.LinkedList.View.{elem, ◌∈◌, ◌∉◌, Distinct}
use sparrow_os.Inode.{Inode, OpenInodes, find_inode}

-- How often the inode with number `nr` is open; the abstract view of the list.
abbrev pub opens_of : (ℕ → Inode) → Option ℕ → ℕ
opens_of inodes none = 0
opens_of inodes (some p) = (inodes p).i_open_cnts

abbrev pub opens : OpenInodes → ℕ → ℕ
opens s nr = opens_of s.inodes (find_inode s.inodes nr s.open_inodes)

abbrev pub numbers : (ℕ → Inode) → List ℕ → List ℕ
numbers inodes [] = []
numbers inodes (p ∷ ps) = (inodes p).i_no ∷ numbers inodes ps

-- No number is open under two addresses, and each inode of the list is open.
pub record IsOpenList (s : OpenInodes) : Type 0 where
  pub distinct : Distinct (numbers s.inodes s.open_inodes)
  pub positive : (p : ℕ) → p ∈ s.open_inodes → 0 < (s.inodes p).i_open_cnts

-- A change of an inode that keeps its number.
module _ (inodes : ℕ → Inode) (p : ℕ) (inode : Inode) (same : inode.i_no ≡ (inodes p).i_no) where
  abbrev changed : ℕ → Inode
  changed q = if q == p then inode else inodes q

  i_no-changed : (q : ℕ) → (changed q).i_no ≡ (inodes q).i_no
  i_no-changed q = elim (Bool-cases (q == p)) [
    | inl at ↦ rw at (same ∙ ap (λ x. (inodes x).i_no) (sym (eq-true q p at)))
    | inr other ↦ rw other refl
  ]

  pub find_inode-changed :
      (nr : ℕ) (xs : List ℕ) → find_inode changed nr xs ≡ find_inode inodes nr xs
  unfolding find_inode
  find_inode-changed nr [] = refl
  find_inode-changed nr (x ∷ xs) =
      ap (λ k. if k == nr then some x else find_inode changed nr xs) (i_no-changed x)
      ∙ ap (λ rest. if (inodes x).i_no == nr then some x else rest) (find_inode-changed nr xs)

  pub numbers-changed : (xs : List ℕ) → numbers changed xs ≡ numbers inodes xs
  numbers-changed [] = refl
  numbers-changed (x ∷ xs) =
      ap (λ k. k ∷ numbers changed xs) (i_no-changed x)
      ∙ ap (λ ks. (inodes x).i_no ∷ ks) (numbers-changed xs)

-- The address that the walk finds is on the list and has the number.
pub find_inode-some :
    (inodes : ℕ → Inode) (nr p : ℕ) (xs : List ℕ)
    → find_inode inodes nr xs ≡ some p
    → ((inodes p).i_no ≡ nr) × (p ∈ xs)
unfolding find_inode
find_inode-some inodes nr p [] h = absurd (none-ne-some h)
  where
    none-ne-some : none ≢ some p
    none-ne-some e = ground arith
find_inode-some inodes nr p (x ∷ xs) h = elim (Bool-cases ((inodes x).i_no == nr)) [
  | inl hit ↦
      let e : x ≡ p = some-injective x p (rw hit at h) in
      (
        ap (λ q. (inodes q).i_no) (sym e) ∙ eq-true (inodes x).i_no nr hit,
        ground (arith, eq_self p),
      )
  | inr miss ↦
      let (number, on) = find_inode-some inodes nr p xs (rw miss at h) in (number, ground arith)
]
  where
    some-injective : (a b : ℕ) → some a ≡ some b → a ≡ b
    some-injective a b e = ground arith

pub find_inode-none :
    (inodes : ℕ → Inode) (nr : ℕ) (xs : List ℕ)
    → find_inode inodes nr xs ≡ none
    → nr ∉ numbers inodes xs
unfolding find_inode
find_inode-none inodes nr [] h = refl
find_inode-none inodes nr (x ∷ xs) h = elim (Bool-cases ((inodes x).i_no == nr)) [
  | inl hit ↦ absurd (none-ne-some (sym (rw hit at h)))
  | inr miss ↦ ground (arith, find_inode-none inodes nr xs (rw miss at h))
]
  where
    none-ne-some : none ≢ some x
    none-ne-some e = ground arith

pub find_inode-absent :
    (inodes : ℕ → Inode) (nr : ℕ) (xs : List ℕ)
    → nr ∉ numbers inodes xs
    → find_inode inodes nr xs ≡ none
unfolding find_inode
find_inode-absent inodes nr [] h = refl
find_inode-absent inodes nr (x ∷ xs) h =
    let miss : ((inodes x).i_no == nr) ≡ false = ground arith in
    let rest : nr ∉ numbers inodes xs = ground arith in
    rw (miss, find_inode-absent inodes nr xs rest) refl

-- A write to an inode that is not on the list.
module _ (inodes : ℕ → Inode) (a : ℕ) (inode : Inode) where
  abbrev beside : ℕ → Inode
  beside q = if q == a then inode else inodes q

  pub find_inode-beside :
      (nr : ℕ) (xs : List ℕ) → a ∉ xs → find_inode beside nr xs ≡ find_inode inodes nr xs
  unfolding find_inode
  find_inode-beside nr [] h = refl
  find_inode-beside nr (x ∷ xs) h =
      let other : (x == a) ≡ false = ground arith in
      let rest : a ∉ xs = ground arith in rw (other, find_inode-beside nr xs rest) refl

  pub numbers-beside : (xs : List ℕ) → a ∉ xs → numbers beside xs ≡ numbers inodes xs
  numbers-beside [] h = refl
  numbers-beside (x ∷ xs) h =
      let other : (x == a) ≡ false = ground arith in
      let rest : a ∉ xs = ground arith in rw (other, numbers-beside xs rest) refl

  pub beside_other : (q : ℕ) → (q == a) ≡ false → beside q ≡ inodes q
  beside_other q n = rw n refl

pub mem-differs : (q a : ℕ) (xs : List ℕ) → q ∈ xs → a ∉ xs → (q == a) ≡ false
mem-differs q a xs h n = elim (Bool-cases (q == a)) [
  | inr other ↦ other
  | inl same ↦
      let e : elem a xs ≡ true = subst (λ x. elem x xs ≡ true) (eq-true q a same) h in
      absurd (ground arith)
]

pub find_inode-head :
    (inodes : ℕ → Inode) (nr p : ℕ) (xs : List ℕ)
    → ((inodes p).i_no == nr) ≡ true
    → find_inode inodes nr (p ∷ xs) ≡ some p
unfolding find_inode
find_inode-head inodes nr p xs h = rw h refl

pub find_inode-tail :
    (inodes : ℕ → Inode) (nr p : ℕ) (xs : List ℕ)
    → ((inodes p).i_no == nr) ≡ false
    → find_inode inodes nr (p ∷ xs) ≡ find_inode inodes nr xs
unfolding find_inode
find_inode-tail inodes nr p xs h = rw h refl
