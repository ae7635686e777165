-- ===== src/LinkedList/Insert.antt =====
-- `list_insert_before`, `list_push` and `list_append` of sparrow/lib/kernel/list.c on the sequence
-- that a list stands for.
use sparrow_os.Common.{ℕ, ◌≡◌, refl, List, [], ◌∷◌, ◌++◌, arith, ◌==◌, if◌then◌else◌}
use mathlib.Core.List.{append_assoc, append-nil}
use sparrow_os.Interrupt.{intr_set_status-intr_disable}
use sparrow_os.LinkedList.{Store, KernelList, list_insert_before, list_push, list_append}
use sparrow_os.LinkedList.View.{
  ◌∈◌, ◌∉◌, Distinct, Linked, behind, IsList, SameBeside, elem-append, elem_of_right, elem_head,
  ne_of_elem, Linked-frame, prev-mem,
}

-- The links after `list_insert_before`, and the flag.
module _ (s : Store) (q e : ℕ) where
  prev-insert :
      (a : ℕ)
      → (list_insert_before q e s).prev a
        ≡ (if a == q then e else if a == e then s.prev q else s.prev a)
  unfolding list_insert_before
  prev-insert a = refl

  next-insert :
      (a : ℕ)
      → (list_insert_before q e s).next a
        ≡ (if a == e then q else if a == s.prev q then e else s.next a)
  unfolding list_insert_before
  next-insert a = refl

  intr-insert : (list_insert_before q e s).intr ≡ s.intr
  unfolding list_insert_before
  intr-insert = intr_set_status-intr_disable s.intr

  insert-Linked :
      (x : ℕ) (us vs : List ℕ)
      → Linked s x (us ++ q ∷ vs)
      → Distinct (x ∷ us ++ q ∷ vs)
      → e ∉ x ∷ us ++ q ∷ vs
      → Linked (list_insert_before q e s) x (us ++ e ∷ q ∷ vs)
  insert-Linked x [] vs h d o = (
    ground (arith, next-insert x),
    ground (arith, prev-insert e),
    (
      ground (arith, next-insert e),
      ground (arith, prev-insert q),
      Linked-frame s (list_insert_before q e s) q vs
          (λ a i.
            ground (arith, next-insert a, ne_of_elem a e (q ∷ vs) i, ne_of_elem a x (q ∷ vs) i))
          (λ a i. ground (arith, prev-insert a, ne_of_elem a e vs i, ne_of_elem a q vs i)) h.2,
    ),
  )
  insert-Linked x (u ∷ us) vs h d o = (
    ground (
      arith,
      next-insert x,
      prev-mem s u q us vs h.2,
      elem-append x (u ∷ us) (q ∷ vs),
      ne_of_elem (s.prev q) x (u ∷ us),
    ),
    ground (arith, prev-insert u, elem-append u us (q ∷ vs)),
    insert-Linked u us vs h.2 d.1 (ground arith),
  )

-- In any list, inserting before the element `q`, or before the tail.
Distinct-insert :
    (e : ℕ) (us vs : List ℕ) → Distinct (us ++ vs) → e ∉ us ++ vs → Distinct (us ++ e ∷ vs)
Distinct-insert e [] vs d o = (o, d)
Distinct-insert e (u ∷ us) vs d o = (
  ground (arith, elem-append u us vs, elem-append u us (e ∷ vs)),
  Distinct-insert e us vs d.1 (ground arith),
)

pub append_behind : (l : KernelList) (us vs : List ℕ) → behind l (us ++ vs) ≡ us ++ behind l vs
append_behind l us vs = append_assoc us vs (l.tail ∷ [])

-- `q` is the first element of `vs`, or the tail where `vs` is empty.
module _ (s : Store) (l : KernelList) (q e : ℕ) (us vs rest : List ℕ)
    (first : behind l vs ≡ q ∷ rest) (list : IsList s l (us ++ vs)) where
  split : behind l (us ++ vs) ≡ us ++ q ∷ rest
  split = rw (append_behind l us vs, first)

  linked : Linked s l.head (us ++ q ∷ rest)
  linked = rw split at list.linked

  distinct : Distinct (l.head ∷ us ++ q ∷ rest)
  distinct = rw split at list.distinct

  place-mem : q ∈ behind l (us ++ vs)
  place-mem = rw split (elem_of_right q us (q ∷ rest) (elem_head q rest))

  before-mem : s.prev q ∈ l.head ∷ behind l (us ++ vs)
  before-mem =
      rw split
        (ground (arith, prev-mem s l.head q us rest linked, elem-append (s.prev q) us (q ∷ rest)))

  insert-IsList :
      e ∉ l.head ∷ behind l (us ++ vs) → IsList (list_insert_before q e s) l (us ++ e ∷ vs)
  insert-IsList out =
      let out' = rw split at out in
      record {
        linked =
            rw (append_behind l us (e ∷ vs), first)
              (insert-Linked s q e l.head us rest linked distinct out');
        distinct =
            rw (append_behind l us (e ∷ vs), first)
              (Distinct-insert e (l.head ∷ us) (q ∷ rest) distinct out');
      }

  insert-SameBeside : SameBeside l e (us ++ vs) s (list_insert_before q e s)
  insert-SameBeside = record {
    intr = intr-insert s q e;
    prev = λ a ne out.
        ground (arith, prev-insert s q e a, ne_of_elem q a (behind l (us ++ vs)) place-mem);
    next = λ a ne out. ground (
      arith,
      next-insert s q e a,
      ne_of_elem (s.prev q) a (l.head ∷ behind l (us ++ vs)) before-mem out,
    );
  }

pub first_behind :
    (s : Store) (l : KernelList) (x : ℕ) (xs : List ℕ)
    → Linked s x (behind l xs)
    → (rest : List ℕ) × (behind l xs ≡ s.next x ∷ rest)
first_behind s l x [] h = ([], ground arith)
first_behind s l x (y ∷ ys) h = (behind l ys, ground arith)

module _ (s : Store) (l : KernelList) (e : ℕ) (xs : List ℕ) (list : IsList s l xs)
    (out : e ∉ l.head ∷ behind l xs) where
  -- `list_append` puts an element that is not on the list behind all others, and changes no link
  -- beside those of the list and of the element.
  pub list_append-IsList :
      IsList (list_append l e s) l (xs ++ e ∷ []) × SameBeside l e xs s (list_append l e s)
  unfolding list_append
  list_append-IsList =
      let list' : IsList s l (xs ++ []) = rw append-nil list in
      (
        insert-IsList s l l.tail e xs [] [] refl list' (rw append-nil out),
        rw append-nil at (insert-SameBeside s l l.tail e xs [] [] refl list'),
      )

  -- `list_push` puts an element that is not on the list before all others, and changes no link
  -- beside those of the list and of the element.
  pub list_push-IsList : IsList (list_push l e s) l (e ∷ xs) × SameBeside l e xs s (list_push l e s)
  unfolding list_push
  list_push-IsList =
      let (rest, first) = first_behind s l l.head xs list.linked in
      (
        insert-IsList s l (s.next l.head) e [] xs rest first list out,
        insert-SameBeside s l (s.next l.head) e [] xs rest first list,
      )
