-- ===== src/LinkedList/Tests.antt =====
-- Runs of the list functions, and their theorems at concrete lists.
use sparrow_os.Common.{◌≡◌, refl, true, false, [], ◌∷◌, arith, ◌==◌, if◌then◌else◌, done}
use sparrow_os.LinkedList.{
  Store, KernelList, list_init, list_append, list_remove, list_empty, list_len,
}
use sparrow_os.LinkedList.View.{IsList, SameBeside, list_init-IsList}
use sparrow_os.LinkedList.Insert.{list_append-IsList}
use sparrow_os.LinkedList.Remove.{list_remove-IsList}
use sparrow_os.LinkedList.Walk.{list_empty-is_nil, list_len-length}

abbrev queue : KernelList
queue = record { head = 100; tail = 101 }

abbrev blank : Store
blank = record { intr = true; prev = λ a. 0; next = λ a. 0 }

-- The list 5, 7.
abbrev pair : Store
pair = record {
  intr = true;
  prev = λ a. if a == 101 then 7 else if a == 7 then 5 else 100;
  next = λ a. if a == 100 then 5 else if a == 5 then 7 else 101;
}

pair-IsList : IsList pair queue (5 ∷ 7 ∷ [])
pair-IsList = record { linked = ground arith; distinct = ground arith }

list_init-IsList_example : IsList (list_init queue blank) queue []
list_init-IsList_example = list_init-IsList blank queue (omega arith)

list_append-IsList_example :
    IsList (list_append queue 9 pair) queue (5 ∷ 7 ∷ 9 ∷ [])
    × SameBeside queue 9 (5 ∷ 7 ∷ []) pair (list_append queue 9 pair)
list_append-IsList_example = list_append-IsList pair queue 9 (5 ∷ 7 ∷ []) pair-IsList refl

list_remove-IsList_example :
    IsList (list_remove 7 pair) queue (5 ∷ [])
    × SameBeside queue 7 (5 ∷ 7 ∷ []) pair (list_remove 7 pair)
list_remove-IsList_example = list_remove-IsList pair queue 7 (5 ∷ []) [] pair-IsList

list_empty-is_nil_example : list_empty queue pair ≡ false
list_empty-is_nil_example = list_empty-is_nil pair queue (5 ∷ 7 ∷ []) pair-IsList

list_len-length_example : list_len 3 queue pair ≡ done 2
list_len-length_example =
    list_len-length pair queue 3 (5 ∷ 7 ∷ []) pair-IsList (omega arith) (omega arith)
