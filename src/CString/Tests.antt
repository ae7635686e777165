-- ===== src/CString/Tests.antt =====
-- Runs of the string functions, and their theorems at concrete texts.
use sparrow_os.Common.{
  ℕ, ◌≤◌, ◌<◌, ◌≡◌, ◌↔◌, refl, List, [], ◌∷◌, arith, ◌==◌, if◌then◌else◌, none, done, ltb,
}
use sparrow_os.CString.{Memory, memset, equal, find_end, strlen, strcmp, strchr, strchrs}
use sparrow_os.CString.View.{IsString, SameOutside}
use sparrow_os.CString.Memory.{memset_lem}
use sparrow_os.CString.Copy.{strlen-length}
use sparrow_os.CString.Compare.{text_compare, strcmp-text_compare}
use sparrow_os.CString.Search.{first_at, count, strchr-first_at, strchrs-count}

-- "aba" at 10 and "ab" at 20.
abbrev memory : Memory
memory a =
    if a == 10
    then 97
    else if a == 11
    then 98
    else if a == 12
    then 97
    else if a == 20
    then 97
    else if a == 21
    then 98
    else 0

abbrev aba : List ℕ
aba = 97 ∷ 98 ∷ 97 ∷ []

abbrev ab : List ℕ
ab = 97 ∷ 98 ∷ []

aba-IsString : IsString memory 10 aba
aba-IsString = omega arith

ab-IsString : IsString memory 20 ab
ab-IsString = omega arith

memory-bytes : (p : ℕ) → memory p < 256
memory-bytes p = ground arith

strlen_runs : strlen 4 10 memory ≡ done 3
unfolding strlen find_end
strlen_runs = refl

memset_lem_example :
    (m' : Memory) × (memset 30 7 4 memory ≡ done m')
    × ((a : ℕ) → 30 ≤ a → a < 34 → m' a ≡ 7)
    × SameOutside 30 4 memory m'
memset_lem_example = memset_lem 30 7 4 memory (omega arith)

strlen-length_example : strlen 4 10 memory ≡ done 3
strlen-length_example = strlen-length 4 10 aba memory (omega arith) aba-IsString (omega arith)

strcmp-text_compare_example :
    (strcmp 4 10 20 memory ≡ done (text_compare aba ab))
    × ((text_compare aba ab ≡ equal) ↔ (aba ≡ ab))
strcmp-text_compare_example =
    strcmp-text_compare 4 10 20 aba ab memory (omega arith) (omega arith) memory-bytes aba-IsString
      ab-IsString (omega arith)

strchr-first_at_example :
    strchr 4 10 98 memory ≡ done (if ltb 98 128 then first_at 10 aba 98 else none)
strchr-first_at_example =
    strchr-first_at 4 10 98 aba memory (omega arith) aba-IsString (omega arith)

strchrs-count_example : strchrs 4 10 97 memory ≡ done (count aba 97)
strchrs-count_example =
    strchrs-count 4 10 97 aba memory (omega arith) aba-IsString (omega arith) (omega arith)
      (omega arith)
