-- ===== src/CString/View.antt =====
-- The texts that lie in memory, for sparrow/lib/string.c.
use sparrow_os.Common.{ℕ, suc, ◌+◌, ◌≤◌, ◌<◌, ◌≡◌, ◌≢◌, ◌∙◌, List, [], ◌∷◌, arith, length, ◌⊎◌}
use sparrow_os.CString.{Memory}

-- At `p` lie the characters `s`, none of them 0, and a terminating 0 behind them.
abbrev pub IsString : Memory → ℕ → List ℕ → Type 0
IsString m p [] = m p ≡ 0
IsString m p (c ∷ s) = (m p ≡ c) × (c ≢ 0) × IsString m (p + 1) s

-- The memory is the same outside the `n` bytes at `p`.
abbrev pub SameOutside : ℕ → ℕ → Memory → Memory → Type 0
SameOutside p n m m' = (a : ℕ) → (a < p) ⊎ (p + n ≤ a) → m' a ≡ m a

-- The `n` bytes at `p` and the `k` bytes at `q` do not meet.
abbrev pub Apart : ℕ → ℕ → ℕ → ℕ → Type 0
Apart p n q k = (p + n ≤ q) ⊎ (q + k ≤ p)

-- A text stays while its bytes and its 0 do.
pub IsString-frame :
    (m m' : Memory) (p : ℕ) (s : List ℕ)
    → ((a : ℕ) → p ≤ a → a < p + suc (length s) → m' a ≡ m a)
    → IsString m p s
    → IsString m' p s
IsString-frame m m' p [] same h = same p (omega arith) (omega arith) ∙ h
IsString-frame m m' p (c ∷ s) same h = (
  same p (omega arith) (omega arith) ∙ h.0,
  h.1,
  IsString-frame m m' (p + 1) s (λ a lo hi. same a (omega arith) (omega arith)) h.2,
)
