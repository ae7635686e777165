-- ===== src/Shell/Parse.antt =====
-- What `cmd_parse` of sparrow/shell/shell.c returns and stores.
use sparrow_os.Common.{
  ℕ, ◌+◌, ◌-◌, ◌≡◌, ◌&&◌, Option, none, some, List, [], length, get_or, leb, ltb, if◌then◌else◌,
  Outcome, done,
}
use sparrow_os.Shell.{Argv}

-- The end of a run that had `argc` words before, with the words `ws` to come.
record Stored (argc : ℕ) (ws : List (List ℕ)) (argv : Argv) (r : Option ℕ) (argv' : Argv)
    : Type 0 where
  pub count : r ≡ (if ltb 17 (argc + length ws) then none else some (argc + length ws))
  pub entry :
      (k : ℕ)
      → argv' k ≡ (
          if leb argc k && ltb k (argc + length ws) && ltb k 18
          then some (get_or ws (k - argc) [])
          else argv k)

abbrev Stores : ℕ → List (List ℕ) → Argv → Outcome (Option ℕ × Argv) → Type 0
Stores argc ws argv o =
    (r : Option ℕ) × (argv' : Argv) × (o ≡ done (r, argv')) × Stored argc ws argv r argv'
