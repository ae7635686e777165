-- ===== src/LinkedList/Walk.antt =====
-- The walks of sparrow/lib/kernel/list.c: `list_empty`, `elem_find`, `list_len` and
-- `list_traversal` on the sequence that a list stands for.
use sparrow_os.Common.{
  ℕ, zero, suc, ◌+◌, ◌<◌, ◌^◌, ◌≡◌, ap, ◌∙◌, refl, Bool, true, false, Option, none, some, List, [],
  ◌∷◌, arith, ◌==◌, if◌then◌else◌, length, done, eq_self, add32, Bool-cases, inl, inr,
}
use native.Mathlib.Nat.{zero-add}
use sparrow_os.LinkedList.{
  Store, KernelList, find_from, elem_find, list_empty, traverse_from, list_traversal, count_from,
  list_len,
}
use sparrow_os.LinkedList.View.{elem, Distinct, Linked, behind, IsList, elem-append}

-- The callback on the elements in order, up to the first that it accepts.
pub first_hit : {S : Type 0} → (ℕ → ℕ → S → Bool × S) → ℕ → List ℕ → S → Option ℕ × S
first_hit func arg [] t = (none, t)
first_hit func arg (x ∷ xs) t =
    let (hit, t') = func x arg t in if hit then (some x, t') else first_hit func arg xs t'

-- The tail of a list is none of its elements.
tail-not-mem :
    (l : KernelList) (x : ℕ) (xs : List ℕ) → Distinct (behind l (x ∷ xs)) → (x == l.tail) ≡ false
tail-not-mem l x xs d = ground (arith, elem-append x xs (l.tail ∷ []))

module _ (s : Store) (l : KernelList) where
  find_from-elem :
      (e fuel p : ℕ) (xs : List ℕ)
      → Linked s p (behind l xs)
      → Distinct (behind l xs)
      → length xs < fuel
      → find_from l e s fuel (s.next p) ≡ done (elem e xs)
  unfolding find_from
  find_from-elem e zero p xs h d m = absurd (omega arith)
  find_from-elem e (suc fuel) p [] h d m = rw (h.0, eq_self)
  find_from-elem e (suc fuel) p (x ∷ xs) h d m =
      rw (h.0, tail-not-mem l x xs d)
        (ground (arith, find_from-elem e fuel x xs h.2 d.1 (omega arith)))

  count_from-length :
      (fuel p n : ℕ) (xs : List ℕ)
      → Linked s p (behind l xs)
      → Distinct (behind l xs)
      → length xs < fuel
      → n + length xs < 2 ^ 32
      → count_from l s fuel (s.next p) n ≡ done (n + length xs)
  unfolding count_from
  count_from-length zero p n xs h d m b = absurd (omega arith)
  count_from-length (suc fuel) p n [] h d m b = rw (h.0, eq_self) (ground arith)
  count_from-length (suc fuel) p n (x ∷ xs) h d m b =
      rw (h.0, tail-not-mem l x xs d)
        (ground
          (arith, count_from-length fuel x (add32 n 1) xs h.2 d.1 (omega arith) (omega arith)))

  traverse_from-first_hit :
      {S : Type 0} (func : ℕ → ℕ → S → Bool × S) (arg fuel p : ℕ) (xs : List ℕ) (t : S)
      → Linked s p (behind l xs)
      → Distinct (behind l xs)
      → length xs < fuel
      → traverse_from l func arg s fuel (s.next p) t ≡ done (first_hit func arg xs t)
  unfolding traverse_from first_hit
  traverse_from-first_hit func arg zero p xs t h d m = absurd (omega arith)
  traverse_from-first_hit func arg (suc fuel) p [] t h d m = rw (h.0, eq_self)
  traverse_from-first_hit func arg (suc fuel) p (x ∷ xs) t h d m =
      rw (h.0, tail-not-mem l x xs d)
        (elim (Bool-cases (func x arg t).0) [
          | inl hit ↦ rw hit
          | inr miss ↦
              rw miss
                (traverse_from-first_hit func arg fuel x xs (func x arg t).1 h.2 d.1 (omega arith))
        ])

abbrev pub is_nil : List ℕ → Bool
is_nil [] = true
is_nil (x ∷ xs) = false

module _ (s : Store) (l : KernelList) where
  -- `list_empty` tells whether the list has no element.
  pub list_empty-is_nil : (xs : List ℕ) → IsList s l xs → list_empty l s ≡ is_nil xs
  unfolding list_empty
  list_empty-is_nil [] list = rw (list.linked.0, eq_self)
  list_empty-is_nil (x ∷ xs) list = rw (list.linked.0, tail-not-mem l x xs list.distinct.1)

  module _ (fuel : ℕ) (xs : List ℕ) (list : IsList s l xs) (enough : length xs < fuel) where
    -- With fuel for one step more than the list has elements, `elem_find` ends and tells whether
    -- the element is on the list.
    pub elem_find-elem : (e : ℕ) → elem_find fuel l e s ≡ done (elem e xs)
    unfolding elem_find
    elem_find-elem e = find_from-elem s l e fuel l.head xs list.linked list.distinct.1 enough

    -- With that fuel `list_len` ends and returns the number of elements, if that fits 32 bits.
    pub list_len-length : length xs < 2 ^ 32 → list_len fuel l s ≡ done (length xs)
    unfolding list_len
    list_len-length b =
        count_from-length s l fuel l.head 0 xs list.linked list.distinct.1 enough (omega arith)
        ∙ ap done (zero-add (length xs))

    -- With that fuel `list_traversal` ends. It calls the callback on the elements in order, up to
    -- the first that it accepts, returns that one, or NULL where there is none, and hands the
    -- callback's state from call to call.
    pub list_traversal-first_hit :
        {S : Type 0} (func : ℕ → ℕ → S → Bool × S) (arg : ℕ) (t : S)
        → list_traversal fuel l func arg s t ≡ done (first_hit func arg xs t)
    unfolding list_traversal first_hit
    list_traversal-first_hit func arg t =
        rw
          (
            traverse_from-first_hit s l func arg fuel l.head xs t list.linked list.distinct.1
                enough,
            list_empty-is_nil xs list,
          )
          (nothing xs)
      where
        nothing :
            (ys : List ℕ)
            → (if is_nil ys then done (none, t) else done (first_hit func arg ys t))
              ≡ done (first_hit func arg ys t)
        nothing [] = refl
        nothing (y ∷ ys) = refl
