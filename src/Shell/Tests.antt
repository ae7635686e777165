-- ===== src/Shell/Tests.antt =====
-- A command line, and the theorem about it.
use sparrow_os.Common.{
  ℕ, ◌≡◌, refl, Option, none, some, List, [], ◌∷◌, Outcome, done, panic, out_of_fuel,
}
use sparrow_os.Shell.{Argv, cmd_parse, parse_from, store_word, skip_token, word_at, behind_word}

-- "ls  a "
abbrev line : List ℕ
line = 108 ∷ 115 ∷ 32 ∷ 32 ∷ 97 ∷ 32 ∷ []

-- Two words, of which the second is "a".
count_of : Outcome (Option ℕ × Argv) → Option (Option ℕ × Option (List ℕ))
count_of (done (r, argv)) = some (r, argv 1)
count_of panic = none
count_of out_of_fuel = none

two_words : count_of (cmd_parse line 32) ≡ some (some 2, some (97 ∷ []))
unfolding count_of cmd_parse parse_from store_word skip_token word_at behind_word
two_words = refl
