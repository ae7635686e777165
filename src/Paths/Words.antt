-- ===== src/Paths/Words.antt =====
-- The names of a path of sparrow/fs/fs.c, and `path_parse` as the way from one to the next.
use sparrow_os.Common.{
  and-split, ◌&&◌, ℕ, zero, suc, ◌≡◌, ◌≤◌, ◌<◌, ◌∙◌, sym, refl, ap, subst, ◌^◌, ◌+◌, true, false,
  Option, none, some, List, [], ◌∷◌, ◌++◌, ◌==◌, ◌⊎◌, if◌then◌else◌, length, arith, Bool-cases, inl,
  inr, done, add32, append-nil, Bool,
}
use sparrow_os.Paths.{
  is_empty, skip_slashes, name_of, rest_of, path_parse, parse_on, depth_loop, path_depth_cnt,
  has_slash, fits,
}

-- A name that is complete.
abbrev flush : List ℕ → List (List ℕ) → List (List ℕ)
flush cur ws = if is_empty cur then ws else cur ∷ ws

-- The names of a path: the longest parts without a slash, read from left to right; `cur` is what
-- has been read of the next one.
abbrev words : List ℕ → List ℕ → List (List ℕ)
words cur [] = flush cur []
words cur (c ∷ cs) = if c == 47 then flush cur (words [] cs) else words (cur ++ c ∷ []) cs

abbrev pub names : List ℕ → List (List ℕ)
names path = words [] path

abbrev pub names_on : Option (List ℕ) → List (List ℕ)
names_on none = []
names_on (some p) = names p

words-skip_slashes : (p : List ℕ) → names (skip_slashes p) ≡ names p
unfolding skip_slashes
words-skip_slashes [] = refl
words-skip_slashes (c ∷ cs) = elim (Bool-cases (c == 47)) [
  | inl slash ↦ rw slash (words-skip_slashes cs)
  | inr other ↦ rw (other, other) refl
]

pub append_one : (xs : List ℕ) (c : ℕ) (ys : List ℕ) → (xs ++ c ∷ []) ++ ys ≡ xs ++ c ∷ ys
append_one [] c ys = refl
append_one (x ∷ xs) c ys = ap (λ zs. x ∷ zs) (append_one xs c ys)

words-name_of : (cur p : List ℕ) → words cur p ≡ flush (cur ++ name_of p) (names_on (rest_of p))
unfolding name_of rest_of
words-name_of cur [] = ap (λ l. flush l []) (sym (append-nil cur))
words-name_of cur (c ∷ cs) = elim (Bool-cases (c == 47)) [
  | inl slash ↦ rw (slash, append-nil cur, slash) refl
  | inr other ↦ rw other (
      words-name_of (cur ++ c ∷ []) cs
      ∙ ap (λ l. flush l (names_on (rest_of cs))) (append_one cur c (name_of cs)))
]

-- `path_parse` takes the first name of the path and leaves the others, or nothing where there is no
-- name.
pub names-path_parse :
    (p : List ℕ)
    → names p ≡ (
        if is_empty (path_parse p).0
        then names_on (path_parse p).1
        else (path_parse p).0 ∷ names_on (path_parse p).1)
unfolding path_parse
names-path_parse p = sym (words-skip_slashes p) ∙ words-name_of [] (skip_slashes p)

abbrev pub size_on : Option (List ℕ) → ℕ
size_on none = 0
size_on (some p) = length p

-- Without a name nothing is left, and with one less than before.
pub record Parsed (size : ℕ) (r : List ℕ × Option (List ℕ)) : Type 0 where
  pub none_left : is_empty r.0 ≡ true → r.1 ≡ none
  pub shorter : is_empty r.0 ≡ false → size_on r.1 < size

length-skip_slashes : (p : List ℕ) → length (skip_slashes p) ≤ length p
unfolding skip_slashes
length-skip_slashes [] = omega arith
length-skip_slashes (c ∷ cs) = ground (arith, length-skip_slashes cs)

size-rest_of : (p : List ℕ) → size_on (rest_of p) ≤ length p
unfolding rest_of
size-rest_of [] = omega arith
size-rest_of (c ∷ cs) = ground (arith, size-rest_of cs)

-- What `skip_slashes` leaves is nothing or a name and what follows it.
skip_slashes-cases :
    (p : List ℕ)
    → (skip_slashes p ≡ [])
      ⊎ ((c : ℕ) × (cs : List ℕ) × ((c == 47) ≡ false) × (skip_slashes p ≡ c ∷ cs))
unfolding skip_slashes
skip_slashes-cases [] = inl refl
skip_slashes-cases (c ∷ cs) = elim (Bool-cases (c == 47)) [
  | inl slash ↦ rw slash (skip_slashes-cases cs)
  | inr other ↦ inr (c, cs, other, rw other refl)
]

-- The name and the rest of a text of which `size` characters are left.
abbrev split_at : List ℕ → List ℕ × Option (List ℕ)
split_at q = (name_of q, rest_of q)

split_at-Parsed :
    (size c : ℕ) (cs : List ℕ)
    → (c == 47) ≡ false
    → suc (length cs) ≤ size
    → Parsed size (split_at (c ∷ cs))
unfolding name_of rest_of
split_at-Parsed size c cs other room = record {
  none_left = λ h. ground arith;
  shorter = λ h. rw other (omega (arith, size-rest_of cs));
}

nil-Parsed : (size : ℕ) → Parsed size (split_at [])
unfolding name_of rest_of
nil-Parsed size = record { none_left = λ h. refl; shorter = λ h. ground arith }

pub path_parse-Parsed : (p : List ℕ) → Parsed (length p) (path_parse p)
unfolding path_parse
path_parse-Parsed p = elim (skip_slashes-cases p) [
  | inl nothing ↦ subst (λ q. Parsed (length p) (split_at q)) (sym nothing) (nil-Parsed (length p))
  | inr (c, cs, other, e) ↦
      let room : suc (length cs) ≤ length p = omega (arith, length-skip_slashes p, ap length e) in
      subst (λ q. Parsed (length p) (split_at q)) (sym e)
        (split_at-Parsed (length p) c cs other room)
]

-- The names that the text in `name` and the rest stand for.
abbrev pub names_left : List ℕ → Option (List ℕ) → List (List ℕ)
names_left name p = if is_empty name then [] else name ∷ names_on p

-- One round further, `parse_on` stands at the names that are left.
pub names_left-parse_on :
    (p : Option (List ℕ)) → names_left (parse_on p).0 (parse_on p).1 ≡ names_on p
unfolding parse_on
names_left-parse_on none = refl
names_left-parse_on (some p) = elim (Bool-cases (is_empty (path_parse p).0)) [
  | inl nothing ↦ rw (names-path_parse p, nothing, (path_parse-Parsed p).none_left nothing) refl
  | inr name ↦ rw (names-path_parse p, name) refl
]

pub size-parse_on :
    (p : Option (List ℕ)) → is_empty (parse_on p).0 ≡ false → size_on (parse_on p).1 < size_on p
unfolding parse_on
size-parse_on none h = ground arith
size-parse_on (some p) h = (path_parse-Parsed p).shorter h

-- The rounds that a loop over the names needs.
abbrev pub need : List ℕ → Option (List ℕ) → ℕ
need name p = if is_empty name then 1 else size_on p + 2

pub need-parse_on :
    (name : List ℕ) (p : Option (List ℕ)) (fuel : ℕ)
    → is_empty name ≡ false
    → need name p ≤ suc fuel
    → need (parse_on p).0 (parse_on p).1 ≤ fuel
need-parse_on name p fuel word room =
    let left : size_on p + 2 ≤ suc fuel = ground arith in
    elim (Bool-cases (is_empty (parse_on p).0)) [
      | inl nothing ↦ rw nothing (omega arith)
      | inr next ↦ rw next (omega (arith, size-parse_on p next))
    ]

-- The rounds for a whole path.
pub need-path_parse : (p : List ℕ) → need (path_parse p).0 (path_parse p).1 ≤ suc (length p)
need-path_parse p = elim (Bool-cases (is_empty (path_parse p).0)) [
  | inl nothing ↦ rw nothing (omega arith)
  | inr name ↦ rw name (omega (arith, (path_parse-Parsed p).shorter name))
]

-- All names fit the buffer of a loop.
abbrev pub all_fit : List (List ℕ) → Bool
all_fit [] = true
all_fit (w ∷ ws) = fits w && all_fit ws

depth_loop-names :
    (fuel : ℕ) (name : List ℕ) (p : Option (List ℕ)) (depth : ℕ)
    → need name p ≤ fuel
    → all_fit (names_left name p) ≡ true
    → depth + length (names_left name p) < 2 ^ 32
    → depth_loop fuel name p depth ≡ done (depth + length (names_left name p))
unfolding depth_loop
depth_loop-names zero name p depth room fit small = absurd (ground arith)
depth_loop-names (suc fuel) name p depth room fit small = elim (Bool-cases (is_empty name)) [
  | inl nothing ↦ rw nothing (ap done (omega arith))
  | inr word ↦
      let few : depth + suc (length (names_on p)) < 2 ^ 32 = ground arith in
      let one_more : add32 depth 1 ≡ suc depth = omega arith in
      let left = ap length (names_left-parse_on p) in
      let all : (fits name && all_fit (names_on p)) ≡ true =
        subst (λ e. all_fit (if e then [] else name ∷ names_on p) ≡ true) word fit in
      let (own, others) = and-split (fits name) (all_fit (names_on p)) all in
      rw (word, own, one_more)
        (depth_loop-names fuel (parse_on p).0 (parse_on p).1 (suc depth)
            (need-parse_on name p fuel word room) (ap all_fit (names_left-parse_on p) ∙ others)
            (omega arith)
          ∙ ap done (omega arith))
]

pub names_left-path_parse : (p : List ℕ) → names_left (path_parse p).0 (path_parse p).1 ≡ names p
unfolding parse_on
names_left-path_parse p = names_left-parse_on (some p)

-- For a path with at least one name, whose names all have at most 15 characters, `path_depth_cnt`
-- always ends and counts the names, whatever stood in the buffer before.
pub path_depth_cnt-names :
    (junk p : List ℕ)
    → 0 < length (names p)
    → length (names p) < 2 ^ 32
    → all_fit (names p) ≡ true
    → path_depth_cnt junk p ≡ done (length (names p))
unfolding path_depth_cnt
path_depth_cnt-names junk p some_name small fit =
    let whole = ap length (names_left-path_parse p) in
    let name : is_empty (path_parse p).0 ≡ false = ground arith in
    rw name (
      depth_loop-names (suc (suc (length p))) (path_parse p).0 (path_parse p).1 0
        (omega (arith, need-path_parse p)) (ap all_fit (names_left-path_parse p) ∙ fit)
        (omega arith)
      ∙ ap done (omega (arith, whole)))

-- Names are not empty and have no slash.
abbrev pub AreNames : List (List ℕ) → Type 0
AreNames [] = Unit
AreNames (w ∷ ws) = (is_empty w ≡ false) × (has_slash w ≡ false) × AreNames ws

flush-AreNames :
    (cur : List ℕ) (ws : List (List ℕ))
    → has_slash cur ≡ false
    → AreNames ws
    → AreNames (flush cur ws)
flush-AreNames [] ws h a = a
flush-AreNames (c ∷ cs) ws h a = (refl, h, a)

has_slash-snoc :
    (cur : List ℕ) (c : ℕ)
    → has_slash cur ≡ false
    → (c == 47) ≡ false
    → has_slash (cur ++ c ∷ []) ≡ false
has_slash-snoc [] c h e = ground arith
has_slash-snoc (x ∷ xs) c h e = ground (arith, has_slash-snoc xs c)

words-AreNames : (cur p : List ℕ) → has_slash cur ≡ false → AreNames (words cur p)
words-AreNames cur [] h = flush-AreNames cur [] h tt
words-AreNames cur (c ∷ cs) h = elim (Bool-cases (c == 47)) [
  | inl slash ↦ rw slash (flush-AreNames cur (words [] cs) h (words-AreNames [] cs refl))
  | inr other ↦ rw other (words-AreNames (cur ++ c ∷ []) cs (has_slash-snoc cur c h other))
]

pub names-AreNames : (p : List ℕ) → AreNames (names p)
names-AreNames p = words-AreNames [] p refl
