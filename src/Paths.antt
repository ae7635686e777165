-- ===== src/Paths.antt =====
-- The paths of sparrow/fs/fs.c and sparrow/shell/buildin_cmd.c. A path is the text before its
-- NUL, a list of character codes; a pointer into it is the text from there on, NULL is `none`.
-- The loops run on fuel, one round more than the path has characters.
pub mod Words
pub mod Wash
pub mod Tests
use sparrow_os.Common.{
  ℕ, zero, suc, ◌+◌, Bool, true, false, not, ◌&&◌, ◌||◌, Option, none, some, List, [], ◌∷◌, ◌++◌,
  ◌==◌, if◌then◌else◌, length, ltb, add32, Outcome, done, out_of_fuel, ◌>>=◌, assert_then,
}

-- `strcmp(a, b) == 0`
abbrev pub text_eq : List ℕ → List ℕ → Bool
text_eq [] [] = true
text_eq [] (y ∷ ys) = false
text_eq (x ∷ xs) [] = false
text_eq (x ∷ xs) (y ∷ ys) = (x == y) && text_eq xs ys

abbrev pub is_empty : List ℕ → Bool
is_empty [] = true
is_empty (c ∷ cs) = false

pub skip_slashes : List ℕ → List ℕ
skip_slashes [] = []
skip_slashes (c ∷ cs) = if c == 47 then skip_slashes cs else c ∷ cs

pub name_of : List ℕ → List ℕ
name_of [] = []
name_of (c ∷ cs) = if c == 47 then [] else c ∷ name_of cs

pub rest_of : List ℕ → Option (List ℕ)
rest_of [] = none
rest_of (c ∷ cs) = if c == 47 then some (c ∷ cs) else rest_of cs

-- The name that goes to `name_store`, and the result. There is no bound on the name, and no NUL is
-- written behind it: whether it fits the buffer is a question for the callers.
pub path_parse : List ℕ → List ℕ × Option (List ℕ)
path_parse pathname = let p = skip_slashes pathname in (name_of p, rest_of p)

-- `memset(name, 0, ...); if (p) p = path_parse(p, name);`
pub parse_on : Option (List ℕ) → List ℕ × Option (List ℕ)
parse_on none = ([], none)
parse_on (some p) = path_parse p

-- A name and the NUL behind it fit `char name[MAX_FILE_NAME_LEN]`.
abbrev pub fits : List ℕ → Bool
fits name = ltb (length name) 16

-- A name that does not fit is written over the end of the buffer, or read past it: `panic`.
pub depth_loop : ℕ → List ℕ → Option (List ℕ) → ℕ → Outcome ℕ
depth_loop zero name p depth = out_of_fuel
depth_loop (suc fuel) name p depth =
    let rest = depth_loop fuel (parse_on p).0 (parse_on p).1 (add32 depth 1) in
    if is_empty name then done depth else assert_then (fits name) rest

-- `name` is not initialised before the first `path_parse`: `junk` is the text that stands in it,
-- and is what the loop sees where the path has no name.
pub path_depth_cnt : List ℕ → List ℕ → Outcome ℕ
path_depth_cnt junk pathname =
    let (name, p) = path_parse pathname in
    depth_loop (suc (suc (length pathname))) (if is_empty name then junk else name) p 0

abbrev pub has_slash : List ℕ → Bool
has_slash [] = false
has_slash (c ∷ cs) = (c == 47) || has_slash cs

-- The text before `strrchr(text, '/')`.
abbrev pub before_last : List ℕ → List ℕ
before_last [] = []
before_last (c ∷ cs) = if has_slash cs then c ∷ before_last cs else []

-- The branch for "..": the last name goes, and the slash in front of it unless it is the first.
pub up_one : List ℕ → List ℕ
up_one new_abs_path =
    if is_empty (before_last new_abs_path) then 47 ∷ [] else before_last new_abs_path

-- One round of the loop of `wash_path`.
pub wash_name : List ℕ → List ℕ → List ℕ
wash_name new_abs_path name =
    if text_eq name (46 ∷ 46 ∷ [])
    then up_one new_abs_path
    else if text_eq name (46 ∷ [])
    then new_abs_path
    else (if text_eq new_abs_path (47 ∷ []) then new_abs_path else new_abs_path ++ 47 ∷ []) ++ name

-- As in `depth_loop`, a name that does not fit `name` is a `panic`. The buffer of the new path is
-- the caller's.
pub wash_loop : ℕ → List ℕ → Option (List ℕ) → List ℕ → Outcome (List ℕ)
wash_loop zero name sub_path new_abs_path = out_of_fuel
wash_loop (suc fuel) name sub_path new_abs_path =
    let rest =
      wash_loop fuel (parse_on sub_path).0 (parse_on sub_path).1 (wash_name new_abs_path name) in
    if is_empty name then done new_abs_path else assert_then (fits name) rest

abbrev pub starts_with_slash : List ℕ → Bool
starts_with_slash [] = false
starts_with_slash (c ∷ cs) = c == 47

pub wash_path : List ℕ → Outcome (List ℕ)
wash_path old_abs_path =
    let (name, sub_path) = path_parse old_abs_path in
    let rest = wash_loop (suc (length old_abs_path)) name sub_path (47 ∷ []) in
    assert_then (starts_with_slash old_abs_path) (if is_empty name then done (47 ∷ []) else rest)
