-- ===== src/Inode/Leave.antt =====
-- The list of open inodes of sparrow/fs/inode.c without one of them.
use sparrow_os.Common.{
  ℕ, ◌≡◌, ◌≢◌, inl, inr, refl, sym, ap, subst, ◌∙◌, true, false, none, some, List, [], ◌∷◌, arith,
  ◌==◌, if◌then◌else◌, Bool-cases, eq-true, eq_self,
}
use sparrow_os.LinkedList.View.{elem, ◌∈◌, ◌∉◌, Distinct}
use sparrow_os.Inode.{Inode, find_inode, without}
use sparrow_os.Inode.OpenList.{numbers, find_inode-some, find_inode-absent}

-- The walk when an inode has left the list.
pub without-subset : (p q : ℕ) (xs : List ℕ) → q ∈ without p xs → q ∈ xs
without-subset p q [] h = h
without-subset p q (x ∷ xs) h = elim (Bool-cases (p == x)) [
  | inl same ↦ ground arith
  | inr other ↦ ground (arith, without-subset p q xs)
]

numbers-without :
    (inodes : ℕ → Inode) (p m : ℕ) (xs : List ℕ)
    → m ∉ numbers inodes xs
    → m ∉ numbers inodes (without p xs)
numbers-without inodes p m [] h = h
numbers-without inodes p m (x ∷ xs) h = elim (Bool-cases (p == x)) [
  | inl same ↦ ground arith
  | inr other ↦ ground (arith, numbers-without inodes p m xs)
]

pub Distinct-without :
    (inodes : ℕ → Inode) (p : ℕ) (xs : List ℕ)
    → Distinct (numbers inodes xs)
    → Distinct (numbers inodes (without p xs))
Distinct-without inodes p [] h = tt
Distinct-without inodes p (x ∷ xs) h = elim (Bool-cases (p == x)) [
  | inl same ↦ rw same h.1
  | inr other ↦
      rw other (numbers-without inodes p (inodes x).i_no xs h.0, Distinct-without inodes p xs h.1)
]

pub number_on :
    (inodes : ℕ → Inode) (q : ℕ) (xs : List ℕ) → q ∈ xs → (inodes q).i_no ∈ numbers inodes xs
number_on inodes q [] h = absurd (ground arith)
number_on inodes q (x ∷ xs) h = elim (Bool-cases (q == x)) [
  | inl same ↦
      let e : ((inodes q).i_no == (inodes x).i_no) ≡ true =
        ap (λ y. (inodes y).i_no == (inodes x).i_no) (eq-true q x same) ∙ eq_self (inodes x).i_no in
      ground arith
  | inr other ↦ ground (arith, number_on inodes q xs)
]

pub without_self :
    (inodes : ℕ → Inode) (p : ℕ) (xs : List ℕ) → Distinct (numbers inodes xs) → p ∉ without p xs
without_self inodes p [] h = refl
without_self inodes p (x ∷ xs) h = elim (Bool-cases (p == x)) [
  | inl same ↦ elim (Bool-cases (elem p xs)) [
    | inr out ↦ rw same out
    | inl on ↦
        let e : elem (inodes x).i_no (numbers inodes xs) ≡ true =
          subst (λ y. elem (inodes y).i_no (numbers inodes xs) ≡ true) (eq-true p x same)
            (number_on inodes p xs on) in
        absurd (ground arith)
  ]
  | inr other ↦ rw (other, other) (without_self inodes p xs h.1)
]

pub find_inode-without :
    (inodes : ℕ → Inode) (nr p m : ℕ) (xs : List ℕ)
    → Distinct (numbers inodes xs)
    → find_inode inodes nr xs ≡ some p
    → find_inode inodes m (without p xs) ≡ (if m == nr then none else find_inode inodes m xs)
unfolding find_inode
find_inode-without inodes nr p m [] h f = absurd (none-ne-some f)
  where
    none-ne-some : none ≢ some p
    none-ne-some e = ground arith
find_inode-without inodes nr p m (x ∷ xs) h f = elim (Bool-cases ((inodes x).i_no == nr)) [
  | inl hit ↦
      let at : (p == x) ≡ true = first x (rw hit at f) in
      let own = eq-true (inodes x).i_no nr hit in
      elim (Bool-cases (m == nr)) [
        | inl same ↦
            let e : m ≡ (inodes x).i_no = eq-true m nr same ∙ sym own in
            rw (at, same)
              (find_inode-absent inodes m xs (subst (λ k. k ∉ numbers inodes xs) (sym e) h.0))
        | inr other ↦
            let miss : ((inodes x).i_no == m) ≡ false = ground arith in rw (at, other, miss) refl
      ]
  | inr miss ↦
      let there : find_inode inodes nr xs ≡ some p = rw miss at f in
      let number = (find_inode-some inodes nr p xs there).0 in
      let apart : (p == x) ≡ false = differ x miss number in
      let rest = find_inode-without inodes nr p m xs h.1 there in
      elim (Bool-cases ((inodes x).i_no == m)) [
        | inl hit ↦ let other : (m == nr) ≡ false = ground arith in rw (apart, hit, other) refl
        | inr pass ↦ rw (apart, pass) rest
      ]
]
  where
    first : (x : ℕ) → some x ≡ some p → (p == x) ≡ true
    first x e = ground arith

    differ : (x : ℕ) → ((inodes x).i_no == nr) ≡ false → (inodes p).i_no ≡ nr → (p == x) ≡ false
    differ x miss number = elim (Bool-cases (p == x)) [
      | inr other ↦ other
      | inl same ↦
          let e : (inodes x).i_no ≡ nr =
            ap (λ q. (inodes q).i_no) (sym (eq-true p x same)) ∙ number in
          absurd (ground arith)
    ]
