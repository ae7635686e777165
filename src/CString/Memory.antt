-- ===== src/CString/Memory.antt =====
-- `memset`, `memcpy` and `memcmp` of sparrow/lib/string.c, byte by byte.
use sparrow_os.Common.{
  Bool, ℕ, zero, suc, ◌+◌, ◌≤◌, ◌<◌, ◌≡◌, ◌≢◌, refl, ◌∙◌, ◌⊎◌, inl, inr, arith, ◌==◌, if◌then◌else◌,
  ltb, leb, ◌&&◌, true, false, Bool-cases, done, eq-true, eq_self,
}
use native.Mathlib.Nat.{add-zero}
use sparrow_os.CString.{
  Memory, write, char_lt, set_loop, memset, copy_loop, memcpy, Sign, less, equal, greater,
  compare_loop, memcmp,
}
use sparrow_os.CString.View.{SameOutside}

-- Inside the `n` bytes at `p`.
abbrev inside : ℕ → ℕ → ℕ → Bool
inside p n a = leb p a && ltb a (p + n)

set_loop_lem :
    (n dst value : ℕ) (m : Memory) (a : ℕ)
    → set_loop dst value n m a ≡ (if inside dst n a then value else m a)
unfolding set_loop
set_loop_lem zero dst value m a = ground arith
set_loop_lem (suc n) dst value m a =
    set_loop_lem n (dst + 1) value (write m dst value) a ∙ ground arith

-- `memset` fails its assertion at NULL. Elsewhere every one of the `size` bytes at `dst` is `value`
-- afterwards, and every other byte is as it was.
pub memset_lem :
    (dst value size : ℕ) (m : Memory)
    → dst ≢ 0
    → (m' : Memory) × (memset dst value size m ≡ done m')
      × ((a : ℕ) → dst ≤ a → a < dst + size → m' a ≡ value)
      × SameOutside dst size m m'
unfolding memset
memset_lem dst value size m h = (
  set_loop dst value size m,
  ground arith,
  λ a lo hi. set_loop_lem size dst value m a ∙ ground arith,
  λ a out. set_loop_lem size dst value m a ∙ ground arith,
)

-- The copy goes upwards, so it may overlap its source from below.
copy_loop_outside :
    (n dst src : ℕ) (m : Memory) (a : ℕ) → (a < dst) ⊎ (dst + n ≤ a) → copy_loop dst src n m a ≡ m a
unfolding copy_loop
copy_loop_outside zero dst src m a out = refl
copy_loop_outside (suc n) dst src m a out =
    copy_loop_outside n (dst + 1) (src + 1) (write m dst (m src)) a (omega arith) ∙ ground arith

copy_loop_inside :
    (n dst src : ℕ) (m : Memory) (i : ℕ)
    → (dst ≤ src) ⊎ (src + n ≤ dst)
    → i < n
    → copy_loop dst src n m (dst + i) ≡ m (src + i)
unfolding copy_loop
copy_loop_inside zero dst src m i apart h = absurd (omega arith)
copy_loop_inside (suc n) dst src m zero apart h =
    copy_loop_outside n (dst + 1) (src + 1) (write m dst (m src)) (dst + 0) (omega arith)
    ∙ rw (add-zero, add-zero, eq_self)
copy_loop_inside (suc n) dst src m (suc i) apart h =
    let here : dst + suc i ≡ dst + 1 + i = omega arith in
    let there : src + suc i ≡ src + 1 + i = omega arith in
    rw (here, there)
      (copy_loop_inside n (dst + 1) (src + 1) (write m dst (m src)) i (omega arith) (omega arith)
        ∙ ground arith)

-- `memcpy` fails its assertion at a NULL argument. Elsewhere, where the source does not begin below
-- the destination and reach into it, the `size` bytes at `dst` are afterwards those that were at
-- `src`, and every other byte is as it was.
pub memcpy_lem :
    (dst src size : ℕ) (m : Memory)
    → dst ≢ 0
    → src ≢ 0
    → (dst ≤ src) ⊎ (src + size ≤ dst)
    → (m' : Memory) × (memcpy dst src size m ≡ done m')
      × ((i : ℕ) → i < size → m' (dst + i) ≡ m (src + i))
      × SameOutside dst size m m'
unfolding memcpy
memcpy_lem dst src size m h k apart = (
  copy_loop dst src size m,
  ground arith,
  λ i lt. copy_loop_inside size dst src m i apart lt,
  λ a out. copy_loop_outside size dst src m a out,
)

-- The first `n` bytes agree.
abbrev pub Agree : Memory → ℕ → ℕ → ℕ → Type 0
Agree m a b n = (i : ℕ) → i < n → m (a + i) ≡ m (b + i)

-- What the comparison of `n` bytes says, by the first bytes that differ, read as `char`.
abbrev pub Compares : Memory → ℕ → ℕ → ℕ → Sign → Type 0
Compares m a b n equal = Agree m a b n
Compares m a b n less = (i : ℕ) × (i < n) × Agree m a b i × (char_lt (m (a + i)) (m (b + i)) ≡ true)
Compares m a b n greater =
    (i : ℕ) × (i < n) × Agree m a b i × (char_lt (m (b + i)) (m (a + i)) ≡ true)

char_lt_total : (x y : ℕ) → x < 256 → y < 256 → x ≢ y → char_lt y x ≡ false → char_lt x y ≡ true
char_lt_total x y hx hy ne h = ground arith

Agree-suc : (m : Memory) (a b n : ℕ) → m a ≡ m b → Agree m (a + 1) (b + 1) n → Agree m a b (suc n)
Agree-suc m a b n first rest zero h = rw (add-zero, add-zero) first
Agree-suc m a b n first rest (suc i) h =
    let here : a + suc i ≡ a + 1 + i = omega arith in
    let there : b + suc i ≡ b + 1 + i = omega arith in rw (here, there) (rest i (omega arith))

Compares-suc :
    (m : Memory) (a b n : ℕ) (s : Sign)
    → m a ≡ m b
    → Compares m (a + 1) (b + 1) n s
    → Compares m a b (suc n) s
Compares-suc m a b n equal first rest = Agree-suc m a b n first rest
Compares-suc m a b n less first (i, lt, agree, d) =
    let here : a + suc i ≡ a + 1 + i = omega arith in
    let there : b + suc i ≡ b + 1 + i = omega arith in
    (suc i, omega arith, Agree-suc m a b i first agree, rw (here, there) d)
Compares-suc m a b n greater first (i, lt, agree, d) =
    let here : a + suc i ≡ a + 1 + i = omega arith in
    let there : b + suc i ≡ b + 1 + i = omega arith in
    (suc i, omega arith, Agree-suc m a b i first agree, rw (here, there) d)

compare_loop-Compares :
    (n a b : ℕ) (m : Memory) → ((p : ℕ) → m p < 256) → Compares m a b n (compare_loop a b n m)
unfolding compare_loop
compare_loop-Compares zero a b m bytes = λ i h. absurd (omega arith)
compare_loop-Compares (suc n) a b m bytes = elim (Bool-cases (m a == m b)) [
  | inl same ↦ rw same (
      Compares-suc m a b n (compare_loop (a + 1) (b + 1) n m) (eq-true (m a) (m b) same)
        (compare_loop-Compares n (a + 1) (b + 1) m bytes))
  | inr differ ↦ rw differ (elim (Bool-cases (char_lt (m b) (m a))) [
    | inl gt ↦ rw gt (0, omega arith, λ i h. absurd (omega arith), rw (add-zero, add-zero) gt)
    | inr le ↦ rw le (
      0,
      omega arith,
      λ i h. absurd (omega arith),
      rw (add-zero, add-zero) (char_lt_total (m a) (m b) (bytes a) (bytes b) (ground arith) le),
    )
  ])
]

-- `memcmp` of two pointers, of which one may be NULL, returns 0 exactly where the bytes agree, and
-- else the order of the first bytes that differ, as signed characters.
pub memcmp-Compares :
    (a b size : ℕ) (m : Memory)
    → ((p : ℕ) → m p < 256)
    → (a ≢ 0) ⊎ (b ≢ 0)
    → (s : Sign) × (memcmp a b size m ≡ done s) × Compares m a b size s
unfolding memcmp
memcmp-Compares a b size m bytes h =
    (compare_loop a b size m, ground arith, compare_loop-Compares size a b m bytes)
