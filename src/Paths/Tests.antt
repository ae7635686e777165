-- ===== src/Paths/Tests.antt =====
-- Paths, and the theorems at them.
use sparrow_os.Common.{ℕ, ◌≡◌, refl, List, [], ◌∷◌, done}
use sparrow_os.Paths.{wash_path}
use sparrow_os.Paths.Words.{names}
use sparrow_os.Paths.Wash.{washed, wash_path-resolve}

-- "/a/../b"
abbrev up_and_down : List ℕ
up_and_down = 47 ∷ 97 ∷ 47 ∷ 46 ∷ 46 ∷ 47 ∷ 98 ∷ []

-- It resolves to "/b".
resolved : washed [] (names up_and_down) ≡ done (47 ∷ 98 ∷ [])
resolved = refl

wash_path-resolve_example : wash_path up_and_down ≡ done (47 ∷ 98 ∷ [])
wash_path-resolve_example = wash_path-resolve up_and_down refl
