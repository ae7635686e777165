-- ===== src/LinkedList/View.antt =====
-- The sequence of elements that a list of sparrow/lib/kernel/list.c stands for.
use sparrow_os.Common.{
  ℕ, ◌≡◌, ◌≢◌, Bool, true, false, ◌||◌, List, [], ◌∷◌, ◌++◌, arith, ◌==◌, eq_self, refl, ◌∙◌,
}
use sparrow_os.LinkedList.{Store, KernelList, list_init}

abbrev pub elem : ℕ → List ℕ → Bool
elem a [] = false
elem a (x ∷ xs) = (a == x) || elem a xs

infix 40 ◌∈◌ ◌∉◌
abbrev pub ◌∈◌ : ℕ → List ℕ → Type 0
a ∈ xs = elem a xs ≡ true

abbrev pub ◌∉◌ : ℕ → List ℕ → Type 0
a ∉ xs = elem a xs ≡ false

abbrev pub Distinct : List ℕ → Type 0
Distinct [] = Unit
Distinct (x ∷ xs) = (x ∉ xs) × Distinct xs

-- From `x` the links lead through `xs` to its last element, forwards and backwards.
abbrev pub Linked : Store → ℕ → List ℕ → Type 0
Linked s x [] = Unit
Linked s x (y ∷ ys) = (s.next x ≡ y) × (s.prev y ≡ x) × Linked s y ys

-- What stands behind the head: the elements and the tail.
abbrev pub behind : KernelList → List ℕ → List ℕ
behind l xs = xs ++ l.tail ∷ []

-- The list `l` holds the elements `xs` in order, all of them different.
pub record IsList (s : Store) (l : KernelList) (xs : List ℕ) : Type 0 where
  pub linked : Linked s l.head (behind l xs)
  pub distinct : Distinct (l.head ∷ behind l xs)

-- Nothing changes but links of the sentinels, of the elements `xs` and of `e`.
pub record SameBeside (l : KernelList) (e : ℕ) (xs : List ℕ) (s s' : Store) : Type 0 where
  pub intr : s'.intr ≡ s.intr
  pub prev : (a : ℕ) → a ≢ e → a ∉ l.head ∷ behind l xs → s'.prev a ≡ s.prev a
  pub next : (a : ℕ) → a ≢ e → a ∉ l.head ∷ behind l xs → s'.next a ≡ s.next a

pub elem-append : (a : ℕ) (xs ys : List ℕ) → elem a (xs ++ ys) ≡ (elem a xs || elem a ys)
elem-append a [] ys = refl
elem-append a (x ∷ xs) ys = ground (arith, elem-append a xs ys)

pub elem_of_right : (a : ℕ) (xs ys : List ℕ) → a ∈ ys → a ∈ xs ++ ys
elem_of_right a xs ys h = ground (arith, elem-append a xs ys)

pub elem_head : (a : ℕ) (xs : List ℕ) → a ∈ a ∷ xs
elem_head a xs = ground (arith, eq_self a)

pub ne_of_elem : (a b : ℕ) (xs : List ℕ) → a ∈ xs → b ∉ xs → a ≢ b
ne_of_elem a b xs i o e = ground arith

-- The links of a chain are those of the elements on it.
pub Linked-frame :
    (s s' : Store) (x : ℕ) (xs : List ℕ)
    → ((a : ℕ) → a ∈ x ∷ xs → s'.next a ≡ s.next a)
    → ((a : ℕ) → a ∈ xs → s'.prev a ≡ s.prev a)
    → Linked s x xs
    → Linked s' x xs
Linked-frame s s' x [] n p h = tt
Linked-frame s s' x (y ∷ ys) n p h = (
  n x (ground arith) ∙ h.0,
  p y (ground arith) ∙ h.1,
  Linked-frame s s' y ys (λ a i. n a (ground arith)) (λ a i. p a (ground arith)) h.2,
)

-- The element before `q` on a chain stands on the part of the chain before `q`.
pub prev-mem :
    (s : Store) (x q : ℕ) (us vs : List ℕ) → Linked s x (us ++ q ∷ vs) → s.prev q ∈ x ∷ us
prev-mem s x q [] vs h = ground arith
prev-mem s x q (u ∷ us) vs h = ground (arith, prev-mem s u q us vs h.2)

-- `list_init` makes the list empty.
pub list_init-IsList : (s : Store) (l : KernelList) → l.head ≢ l.tail → IsList (list_init l s) l []
unfolding list_init
list_init-IsList s l h = record { linked = ground arith; distinct = ground arith }
