-- ===== src/Paths/Wash.antt =====
-- `wash_path` of sparrow/shell/buildin_cmd.c: it resolves "." and "..".
use sparrow_os.Common.{
  ℕ, zero, suc, ◌≡◌, ◌≤◌, ◌∙◌, sym, refl, ap, subst, true, false, Option, List, [], ◌∷◌, ◌++◌,
  if◌then◌else◌, length, arith, Bool-cases, inl, inr, done, panic, Outcome,
}
use sparrow_os.Paths.{
  text_eq, is_empty, path_parse, parse_on, has_slash, before_last, up_one, wash_name, wash_loop,
  wash_path, starts_with_slash, fits,
}
use sparrow_os.Paths.Words.{
  names, names_on, names_left, names_left-parse_on, names_left-path_parse, need, need-parse_on,
  need-path_parse, all_fit, append_one, AreNames, names-AreNames,
}

-- A stack of names: "." stays, ".." drops the last name if there is one, another name is put on it.
abbrev pub enter : List (List ℕ) → List ℕ → List (List ℕ)
enter st name =
    if text_eq name (46 ∷ 46 ∷ [])
    then elim st [ [] ↦ [] | last ∷ st' ↦ st' ]
    else if text_eq name (46 ∷ [])
    then st
    else name ∷ st

abbrev pub resolve : List (List ℕ) → List (List ℕ) → List (List ℕ)
resolve st [] = st
resolve st (w ∷ ws) = resolve (enter st w) ws

-- The absolute path of a stack, whose top is the last name.
abbrev pub below : List (List ℕ) → List ℕ
below [] = []
below (w ∷ st) = below st ++ 47 ∷ w

abbrev pub path_of : List (List ℕ) → List ℕ
path_of [] = 47 ∷ []
path_of (w ∷ st) = below (w ∷ st)

slash_in : (xs v : List ℕ) → has_slash (xs ++ 47 ∷ v) ≡ true
slash_in [] v = refl
slash_in (x ∷ xs) v = ground (arith, slash_in xs v)

before_last-append : (xs v : List ℕ) → has_slash v ≡ false → before_last (xs ++ 47 ∷ v) ≡ xs
before_last-append [] v h = rw h refl
before_last-append (x ∷ xs) v h = rw (slash_in xs v) (ap (λ ys. x ∷ ys) (before_last-append xs v h))

text_eq_root : (xs v : List ℕ) → is_empty v ≡ false → text_eq (xs ++ 47 ∷ v) (47 ∷ []) ≡ false
text_eq_root [] [] h = ground arith
text_eq_root [] (c ∷ v) h = refl
text_eq_root (x ∷ []) v h = ground arith
text_eq_root (x ∷ y ∷ xs) v h = ground arith

not_empty : (xs v : List ℕ) → is_empty (xs ++ 47 ∷ v) ≡ false
not_empty [] v = refl
not_empty (x ∷ xs) v = refl

up_one-path_of :
    (w : List ℕ) (st : List (List ℕ)) → has_slash w ≡ false → up_one (path_of (w ∷ st)) ≡ path_of st
unfolding up_one
up_one-path_of w [] h = rw (before_last-append [] w h) refl
up_one-path_of w (v ∷ st) h =
    rw (before_last-append (below (v ∷ st)) w h, not_empty (below st) v) refl

drop_last :
    (st : List (List ℕ))
    → AreNames st
    → up_one (path_of st) ≡ path_of (elim st [ [] ↦ [] | last ∷ st' ↦ st' ])
unfolding up_one
drop_last [] a = refl
drop_last (w ∷ st) a = up_one-path_of w st a.1

put_on :
    (st : List (List ℕ)) (name : List ℕ)
    → AreNames st
    → (if text_eq (path_of st) (47 ∷ []) then path_of st else path_of st ++ 47 ∷ []) ++ name
      ≡ path_of (name ∷ st)
put_on [] name a = refl
put_on (w ∷ st) name a = rw (text_eq_root (below st) w a.0) (append_one (below (w ∷ st)) 47 name)

wash_name-enter :
    (st : List (List ℕ)) (name : List ℕ)
    → AreNames st
    → wash_name (path_of st) name ≡ path_of (enter st name)
unfolding wash_name
wash_name-enter st name a = elim (Bool-cases (text_eq name (46 ∷ 46 ∷ []))) [
  | inl up ↦ rw up (drop_last st a)
  | inr not_up ↦ elim (Bool-cases (text_eq name (46 ∷ []))) [
    | inl here ↦ rw (not_up, here) refl
    | inr other ↦ rw (not_up, other) (put_on st name a)
  ]
]

tail-AreNames :
    (st : List (List ℕ)) → AreNames st → AreNames (elim st [ [] ↦ [] | last ∷ st' ↦ st' ])
tail-AreNames [] a = tt
tail-AreNames (w ∷ st) a = a.2

enter-AreNames :
    (st : List (List ℕ)) (name : List ℕ)
    → AreNames st
    → is_empty name ≡ false
    → has_slash name ≡ false
    → AreNames (enter st name)
enter-AreNames st name a e h = elim (Bool-cases (text_eq name (46 ∷ 46 ∷ []))) [
  | inl up ↦ rw up (tail-AreNames st a)
  | inr not_up ↦ elim (Bool-cases (text_eq name (46 ∷ []))) [
    | inl here ↦ rw (not_up, here) a
    | inr other ↦ rw (not_up, other) (e, h, a)
  ]
]

-- What washing a path with the names `ws`, on top of `st`, comes to.
abbrev pub washed : List (List ℕ) → List (List ℕ) → Outcome (List ℕ)
washed st ws = if all_fit ws then done (path_of (resolve st ws)) else panic

wash_loop-resolve :
    (fuel : ℕ) (name : List ℕ) (p : Option (List ℕ)) (st : List (List ℕ))
    → need name p ≤ fuel
    → AreNames st
    → AreNames (names_left name p)
    → wash_loop fuel name p (path_of st) ≡ washed st (names_left name p)
unfolding wash_loop
wash_loop-resolve zero name p st room a b = absurd (ground arith)
wash_loop-resolve (suc fuel) name p st room a b = elim (Bool-cases (is_empty name)) [
  | inl nothing ↦ rw nothing refl
  | inr word ↦
      let c : AreNames (name ∷ names_on p) =
        subst (λ e. AreNames (if e then [] else name ∷ names_on p)) word b in
      let left = names_left-parse_on p in
      elim (Bool-cases (fits name)) [
        | inr long ↦ rw (word, long) refl
        | inl short ↦
            rw (word, short, wash_name-enter st name a)
              (wash_loop-resolve fuel (parse_on p).0 (parse_on p).1 (enter st name)
                  (need-parse_on name p fuel word room) (enter-AreNames st name a c.0 c.1)
                  (subst AreNames (sym left) c.2)
                ∙ ap (washed (enter st name)) left)
      ]
]

no_names : (p : List ℕ) → is_empty (path_parse p).0 ≡ true → [] ≡ names p
no_names p nothing =
    subst (λ b. (if b then [] else (path_parse p).0 ∷ names_on (path_parse p).1) ≡ names p) nothing
      (names_left-path_parse p)

-- For every path that starts with a slash: if its names have at most 15 characters, `wash_path`
-- ends, and gives the absolute path of the names, in their order, with "." left out and each ".."
-- taking the last name away, if there is one; if some name is longer, `wash_path` runs over the
-- buffer of 16 characters that it has for a name.
pub wash_path-resolve :
    (p : List ℕ) → starts_with_slash p ≡ true → wash_path p ≡ washed [] (names p)
unfolding wash_path
wash_path-resolve p h =
    let whole = names_left-path_parse p in
    let fuel = need-path_parse p in
    elim (Bool-cases (is_empty (path_parse p).0)) [
      | inl nothing ↦ rw (h, nothing) (ap (washed []) (no_names p nothing))
      | inr name ↦
          rw (h, name)
            (wash_loop-resolve (suc (length p)) (path_parse p).0 (path_parse p).1 [] fuel tt
                (subst AreNames (sym whole) (names-AreNames p))
              ∙ ap (washed []) whole)
    ]
