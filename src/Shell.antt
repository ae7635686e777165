-- ===== src/Shell.antt =====
-- sparrow/shell/shell.c: how `cmd_parse` cuts a command line into words. A text is its characters
-- up to the NUL; an entry of `argv` is the text that begins there, which ends where the separator
-- behind it is overwritten by NUL. The array has room for 16 entries; a write behind it is seen in
-- the model as an entry with a larger number.
pub mod Words
pub mod Parse
pub mod Tests
use sparrow_os.Common.{
  ℕ, zero, suc, ◌+◌, ◌-◌, ◌*◌, ◌/◌, ◌%◌, ◌^◌, ◌<◌, ◌≤◌, ◌≡◌, ◌≢◌, ◌⊎◌, inl, inr, refl, sym, ap,
  subst, ◌∙◌, Bool, true, false, not, ◌&&◌, ◌||◌, Option, none, some, List, [], ◌∷◌, ◌++◌, length,
  get_or, set, replicate, arith, leb, ltb, ◌==◌, if◌then◌else◌, add32, sub32, mul32, Outcome, done,
  panic, out_of_fuel, ◌>>=◌, Bool-cases, Option-cases, assert_then, or_panic, ltb→lt, lt→ltb,
  leb→le, eq-true, eq_self, and-split, holds_below, test_of_holds_below, append-nil, length-append,
  length-set, get_or-set_self, get_or-set_ne,
}

abbrev pub max_arg_nr : ℕ
max_arg_nr = 16

-- `while (*next == token) next++;`
pub skip_token : ℕ → List ℕ → List ℕ
skip_token token [] = []
skip_token token (c ∷ s) = if c == token then skip_token token s else c ∷ s

-- The inner loop: the word at `next`, and what stands behind it and its separator.
pub word_at : ℕ → List ℕ → List ℕ
word_at token [] = []
word_at token (c ∷ s) = if c == token then [] else c ∷ word_at token s

pub behind_word : ℕ → List ℕ → List ℕ
behind_word token [] = []
behind_word token (c ∷ s) = if c == token then s else behind_word token s

abbrev pub Argv : Type 0
Argv = ℕ → Option (List ℕ)

abbrev pub set_arg : ℕ → List ℕ → Argv → Argv
set_arg i w argv k = if k == i then some w else argv k

-- The end of a round: a word that is not empty is stored before the number of words is tested.
pub store_word :
    ℕ
    → (List ℕ → ℕ → Argv → Outcome (Option ℕ × Argv))
    → List ℕ
    → ℕ
    → Argv
    → Outcome (Option ℕ × Argv)
store_word token again [] argc argv = done (some argc, argv)
store_word token again (c ∷ s) argc argv =
    let argv' = set_arg argc (word_at token (c ∷ s)) argv in
    if ltb max_arg_nr argc
    then done (none, argv')
    else again (behind_word token (c ∷ s)) (argc + 1) argv'

-- The outer loop, on fuel.
pub parse_from : ℕ → ℕ → List ℕ → ℕ → Argv → Outcome (Option ℕ × Argv)
parse_from token zero s argc argv = out_of_fuel
parse_from token (suc fuel) s argc argv =
    store_word token (parse_from token fuel) (skip_token token s) argc argv

pub cmd_parse : List ℕ → ℕ → Outcome (Option ℕ × Argv)
cmd_parse cmd_str token = parse_from token (length cmd_str + 1) cmd_str 0 (λ k. none)
