-- ===== src/LinkedList.antt =====
-- sparrow/lib/kernel/list.c: the doubly linked list of the kernel, over the memory of all
-- `struct list_elem`s. A pointer is a number and NULL is 0; page 0 is mapped in the kernel, so a
-- write through NULL is a write like any other. A walk takes fuel.
pub mod View
pub mod Insert
pub mod Remove
pub mod Walk
pub mod Tests
use sparrow_os.Common.{
  ℕ, zero, suc, ◌+◌, Bool, true, false, Option, none, some, ◌==◌, if◌then◌else◌, add32, Outcome,
  done, out_of_fuel,
}
use sparrow_os.Interrupt.{intr_disable, intr_set_status}

-- The fields `prev` and `next` of the element at each address, and the interrupt flag.
pub record Store : Type 0 where
  pub intr : Bool
  pub prev : ℕ → ℕ
  pub next : ℕ → ℕ

-- `struct list`: the addresses of its two sentinels.
pub record KernelList : Type 0 where
  pub head : ℕ
  pub tail : ℕ

abbrev pub set_prev : Store → ℕ → ℕ → Store
set_prev s p v = record s { prev = λ a. if a == p then v else s.prev a }

abbrev pub set_next : Store → ℕ → ℕ → Store
set_next s p v = record s { next = λ a. if a == p then v else s.next a }

pub list_init : KernelList → Store → Store
list_init l s =
    set_next (set_prev (set_next (set_prev s l.head 0) l.head l.tail) l.tail l.head) l.tail 0

-- The four writes of `list_insert_before`.
abbrev pub link_before : ℕ → ℕ → Store → Store
link_before before elem s =
    let s1 = set_next s (s.prev before) elem in
    let s2 = set_prev s1 elem (s1.prev before) in
    let s3 = set_next s2 elem before in set_prev s3 before elem

pub list_insert_before : ℕ → ℕ → Store → Store
list_insert_before before elem s =
    let (old_status, off) = intr_disable s.intr in
    let s' = link_before before elem (record s { intr = off }) in
    record s' { intr = (intr_set_status old_status s'.intr).1 }

pub list_push : KernelList → ℕ → Store → Store
list_push plist elem s = list_insert_before (s.next plist.head) elem s

pub list_append : KernelList → ℕ → Store → Store
list_append plist elem s = list_insert_before plist.tail elem s

-- The two writes of `list_remove`.
abbrev pub unlink : ℕ → Store → Store
unlink pelem s =
    let s1 = set_next s (s.prev pelem) (s.next pelem) in set_prev s1 (s1.next pelem) (s1.prev pelem)

pub list_remove : ℕ → Store → Store
list_remove pelem s =
    let (old_status, off) = intr_disable s.intr in
    let s' = unlink pelem (record s { intr = off }) in
    record s' { intr = (intr_set_status old_status s'.intr).1 }

pub list_pop : KernelList → Store → ℕ × Store
list_pop plist s = let elem = s.next plist.head in (elem, list_remove elem s)

pub find_from : KernelList → ℕ → Store → ℕ → ℕ → Outcome Bool
find_from plist obj_elem s zero elem = out_of_fuel
find_from plist obj_elem s (suc fuel) elem =
    let rest = find_from plist obj_elem s fuel (s.next elem) in
    if elem == plist.tail then done false else if elem == obj_elem then done true else rest

pub elem_find : ℕ → KernelList → ℕ → Store → Outcome Bool
elem_find fuel plist obj_elem s = find_from plist obj_elem s fuel (s.next plist.head)

pub list_empty : KernelList → Store → Bool
list_empty plist s = if s.next plist.head == plist.tail then true else false

-- The callback may change a state of its own, and no link.
pub traverse_from :
    {S : Type 0}
    → KernelList
    → (ℕ → ℕ → S → Bool × S)
    → ℕ
    → Store
    → ℕ
    → ℕ
    → S
    → Outcome (Option ℕ × S)
traverse_from plist func arg s zero elem t = out_of_fuel
traverse_from plist func arg s (suc fuel) elem t =
    let (hit, t') = func elem arg t in
    let rest = traverse_from plist func arg s fuel (s.next elem) t' in
    if elem == plist.tail then done (none, t) else if hit then done (some elem, t') else rest

pub list_traversal :
    {S : Type 0} → ℕ → KernelList → (ℕ → ℕ → S → Bool × S) → ℕ → Store → S → Outcome (Option ℕ × S)
list_traversal fuel plist func arg s t =
    let walk = traverse_from plist func arg s fuel (s.next plist.head) t in
    if list_empty plist s then done (none, t) else walk

pub count_from : KernelList → Store → ℕ → ℕ → ℕ → Outcome ℕ
count_from plist s zero elem length = out_of_fuel
count_from plist s (suc fuel) elem length =
    let rest = count_from plist s fuel (s.next elem) (add32 length 1) in
    if elem == plist.tail then done length else rest

pub list_len : ℕ → KernelList → Store → Outcome ℕ
list_len fuel plist s = count_from plist s fuel (s.next plist.head) 0
