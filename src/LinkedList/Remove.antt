-- ===== src/LinkedList/Remove.antt =====
-- `list_remove` and `list_pop` of sparrow/lib/kernel/list.c on the sequence that a list stands for.
use sparrow_os.Common.{ℕ, ◌≡◌, refl, List, [], ◌∷◌, ◌++◌, arith, ◌==◌, if◌then◌else◌}
use sparrow_os.Interrupt.{intr_set_status-intr_disable}
use sparrow_os.LinkedList.{Store, KernelList, list_remove, list_pop}
use sparrow_os.LinkedList.View.{
  ◌∈◌, Distinct, Linked, behind, IsList, SameBeside, elem-append, elem_of_right, ne_of_elem,
  Linked-frame, prev-mem,
}
use sparrow_os.LinkedList.Insert.{append_behind}

module _ (s : Store) (e : ℕ) where
  next-remove : (a : ℕ) → (list_remove e s).next a ≡ (if a == s.prev e then s.next e else s.next a)
  unfolding list_remove
  next-remove a = refl

  prev-remove : (a : ℕ) → (list_remove e s).prev a ≡ (if a == s.next e then s.prev e else s.prev a)
  unfolding list_remove
  prev-remove a = ground arith

  intr-remove : (list_remove e s).intr ≡ s.intr
  unfolding list_remove
  intr-remove = intr_set_status-intr_disable s.intr

  next-Linked : (x y : ℕ) (us vs : List ℕ) → Linked s x (us ++ e ∷ y ∷ vs) → s.next e ≡ y
  next-Linked x y [] vs h = h.2.0
  next-Linked x y (u ∷ us) vs h = next-Linked u y us vs h.2

  remove-Linked :
      (x y : ℕ) (us vs : List ℕ)
      → Linked s x (us ++ e ∷ y ∷ vs)
      → Distinct (x ∷ us ++ e ∷ y ∷ vs)
      → Linked (list_remove e s) x (us ++ y ∷ vs)
  remove-Linked x y [] vs h d = (
    ground (arith, next-remove x),
    ground (arith, prev-remove y),
    Linked-frame s (list_remove e s) y vs
        (λ a i. ground (arith, next-remove a, ne_of_elem a x (y ∷ vs) i))
        (λ a i. ground (arith, prev-remove a, ne_of_elem a y vs i)) h.2.2,
  )
  remove-Linked x y (u ∷ us) vs h d = (
    ground (
      arith,
      next-remove x,
      prev-mem s u e us (y ∷ vs) h.2,
      elem-append x (u ∷ us) (e ∷ y ∷ vs),
      ne_of_elem (s.prev e) x (u ∷ us),
    ),
    ground (arith, prev-remove u, next-Linked u y us vs h.2, elem-append u us (e ∷ y ∷ vs)),
    remove-Linked u y us vs h.2 d.1,
  )

Distinct-remove : (e : ℕ) (us vs : List ℕ) → Distinct (us ++ e ∷ vs) → Distinct (us ++ vs)
Distinct-remove e [] vs d = d.1
Distinct-remove e (u ∷ us) vs d =
    (ground (arith, elem-append u us vs, elem-append u us (e ∷ vs)), Distinct-remove e us vs d.1)

-- What follows the elements `vs` has a first element.
behind-cons : (l : KernelList) (vs : List ℕ) → (y : ℕ) × (rest : List ℕ) × (behind l vs ≡ y ∷ rest)
behind-cons l [] = (l.tail, [], refl)
behind-cons l (v ∷ vs) = (v, behind l vs, refl)

module _ (s : Store) (l : KernelList) (e y : ℕ) (us vs rest : List ℕ)
    (first : behind l vs ≡ y ∷ rest) (list : IsList s l (us ++ e ∷ vs)) where
  split : behind l (us ++ e ∷ vs) ≡ us ++ e ∷ y ∷ rest
  split = rw (append_behind l us (e ∷ vs), first)

  linked : Linked s l.head (us ++ e ∷ y ∷ rest)
  linked = rw split at list.linked

  distinct : Distinct (l.head ∷ us ++ e ∷ y ∷ rest)
  distinct = rw split at list.distinct

  before-mem : s.prev e ∈ l.head ∷ behind l (us ++ e ∷ vs)
  before-mem = rw split (
      ground
        (arith, prev-mem s l.head e us (y ∷ rest) linked, elem-append (s.prev e) us (e ∷ y ∷ rest)))

  after-mem : s.next e ∈ behind l (us ++ e ∷ vs)
  after-mem =
      rw (split, next-Linked s e l.head y us rest linked)
        (elem_of_right y us (e ∷ y ∷ rest) (ground arith))

  remove-IsList : IsList (list_remove e s) l (us ++ vs)
  remove-IsList = record {
    linked = rw (append_behind l us vs, first) (remove-Linked s e l.head y us rest linked distinct);
    distinct =
        rw (append_behind l us vs, first) (Distinct-remove e (l.head ∷ us) (y ∷ rest) distinct);
  }

  remove-SameBeside : SameBeside l e (us ++ e ∷ vs) s (list_remove e s)
  remove-SameBeside = record {
    intr = intr-remove s e;
    prev = λ a ne out.
        ground
          (arith, prev-remove s e a, ne_of_elem (s.next e) a (behind l (us ++ e ∷ vs)) after-mem);
    next = λ a ne out. ground (
      arith,
      next-remove s e a,
      ne_of_elem (s.prev e) a (l.head ∷ behind l (us ++ e ∷ vs)) before-mem out,
    );
  }

module _ (s : Store) (l : KernelList) (e : ℕ) where
  -- `list_remove` takes an element out of the list that holds it, wherever it stands, keeps the
  -- others in order, and changes no link beside those of the list.
  pub list_remove-IsList :
      (us vs : List ℕ)
      → IsList s l (us ++ e ∷ vs)
      → IsList (list_remove e s) l (us ++ vs) × SameBeside l e (us ++ e ∷ vs) s (list_remove e s)
  list_remove-IsList us vs list =
      let (y, rest, first) = behind-cons l vs in
      (remove-IsList s l e y us vs rest first list, remove-SameBeside s l e y us vs rest first list)

  -- `list_pop` of a list that is not empty returns its first element and leaves the others, and
  -- changes no link beside those of the list.
  pub list_pop-IsList :
      (xs : List ℕ)
      → IsList s l (e ∷ xs)
      → ((list_pop l s).0 ≡ e)
        × IsList (list_pop l s).1 l xs
        × SameBeside l e (e ∷ xs) s (list_pop l s).1
  unfolding list_pop
  list_pop-IsList xs list =
      let first : s.next l.head ≡ e = list.linked.0 in
      let gone = list_remove-IsList [] xs list in (first, rw first gone.0, rw first gone.1)
