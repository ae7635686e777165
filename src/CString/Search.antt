-- ===== src/CString/Search.antt =====
-- `strchr`, `strrchr` and `strchrs` of sparrow/lib/string.c on the texts in memory.
use sparrow_os.Common.{
  ℕ, zero, suc, ◌+◌, ◌<◌, ◌^◌, ◌≡◌, ◌≢◌, ap, List, [], ◌∷◌, arith, ◌==◌, if◌then◌else◌, length,
  done, Option, none, some, add32, Bool-cases, inl, inr, false, ltb,
}
use sparrow_os.CString.{
  Memory, char_eq, strchr_loop, strchr, strrchr_loop, strrchr, strchrs_loop, strchrs,
}
use sparrow_os.CString.View.{IsString}

-- The address of the first `ch` in a text that lies at `p`.
pub first_at : ℕ → List ℕ → ℕ → Option ℕ
first_at p [] ch = none
first_at p (c ∷ s) ch = if c == ch then some p else first_at (p + 1) s ch

-- The address of the last, where `last` is the one found before `p`.
pub last_at : ℕ → List ℕ → ℕ → Option ℕ → Option ℕ
last_at p [] ch last = last
last_at p (c ∷ s) ch last = last_at (p + 1) s ch (if c == ch then some p else last)

pub count : List ℕ → ℕ → ℕ
count [] ch = 0
count (c ∷ s) ch = (if c == ch then 1 else 0) + count s ch

char_eq_ascii : (c ch : ℕ) → ch < 128 → char_eq c ch ≡ (c == ch)
char_eq_ascii c ch h = ground arith

char_eq_high : (c ch : ℕ) → 127 < ch → char_eq c ch ≡ false
char_eq_high c ch h = ground arith

module _ (ch : ℕ) (m : Memory) where
  strchr_loop-first_at :
      (fuel p : ℕ) (s : List ℕ)
      → ch < 128
      → IsString m p s
      → length s < fuel
      → strchr_loop fuel p ch m ≡ done (first_at p s ch)
  unfolding strchr_loop first_at
  strchr_loop-first_at zero p s hc h f = absurd (omega arith)
  strchr_loop-first_at (suc fuel) p [] hc h f = rw h
  strchr_loop-first_at (suc fuel) p (c ∷ s) hc h f =
      let more : (c == 0) ≡ false = ground arith in
      rw
        (h.0, more, char_eq_ascii c ch hc, strchr_loop-first_at fuel (p + 1) s hc h.2 (omega arith))
        (ground arith)

  strchr_loop-none :
      (fuel p : ℕ) (s : List ℕ)
      → 127 < ch
      → IsString m p s
      → length s < fuel
      → strchr_loop fuel p ch m ≡ done none
  unfolding strchr_loop
  strchr_loop-none zero p s hc h f = absurd (omega arith)
  strchr_loop-none (suc fuel) p [] hc h f = rw h
  strchr_loop-none (suc fuel) p (c ∷ s) hc h f =
      let more : (c == 0) ≡ false = ground arith in
      rw (h.0, more, char_eq_high c ch hc, strchr_loop-none fuel (p + 1) s hc h.2 (omega arith))

  strrchr_loop-last_at :
      (fuel p : ℕ) (s : List ℕ) (last : Option ℕ)
      → ch < 128
      → IsString m p s
      → length s < fuel
      → strrchr_loop fuel p ch last m ≡ done (last_at p s ch last)
  unfolding strrchr_loop last_at
  strrchr_loop-last_at zero p s last hc h f = absurd (omega arith)
  strrchr_loop-last_at (suc fuel) p [] last hc h f = rw h
  strrchr_loop-last_at (suc fuel) p (c ∷ s) last hc h f =
      let more : (c == 0) ≡ false = ground arith in
      rw (h.0, more, char_eq_ascii c ch hc)
        (strrchr_loop-last_at fuel (p + 1) s (if c == ch then some p else last) hc h.2
          (omega arith))

  strchrs_loop-count :
      (fuel p n : ℕ) (s : List ℕ)
      → ch < 128
      → IsString m p s
      → length s < fuel
      → n + length s < 2 ^ 32
      → strchrs_loop fuel p ch n m ≡ done (n + count s ch)
  unfolding strchrs_loop count
  strchrs_loop-count zero p n s hc h f b = absurd (omega arith)
  strchrs_loop-count (suc fuel) p n [] hc h f b = rw h (ap done (omega arith))
  strchrs_loop-count (suc fuel) p n (c ∷ s) hc h f b =
      let more : (c == 0) ≡ false = ground arith in
      rw (h.0, more, char_eq_ascii c ch hc)
        (elim (Bool-cases (c == ch)) [
          | inl hit ↦
              rw
                (
                  hit,
                  strchrs_loop-count fuel (p + 1) (add32 n 1) s hc h.2 (omega arith) (omega arith),
                )
                (ap done (omega arith))
          | inr miss ↦
              rw (miss, strchrs_loop-count fuel (p + 1) n s hc h.2 (omega arith) (omega arith))
                (ap done (omega arith))
        ])

module _ (fuel p ch : ℕ) (s : List ℕ) (m : Memory) (pointer : p ≢ 0) (text : IsString m p s)
    (enough : length s < fuel) where
  -- With fuel for the text and its 0 `strchr` ends. It returns the address of the first `ch` in the
  -- text, or NULL where there is none, for a character below 128; any other it never finds.
  pub strchr-first_at : strchr fuel p ch m ≡ done (if ltb ch 128 then first_at p s ch else none)
  unfolding strchr
  strchr-first_at =
      ground (arith, strchr_loop-first_at ch m fuel p s, strchr_loop-none ch m fuel p s)

  -- For a character below 128, and with that fuel, `strrchr` ends and returns the address of the
  -- last one in the text, or NULL where there is none.
  pub strrchr-last_at : ch < 128 → strrchr fuel p ch m ≡ done (last_at p s ch none)
  unfolding strrchr
  strrchr-last_at hc = ground (arith, strrchr_loop-last_at ch m fuel p s none hc)

  -- For a character below 128, with that fuel and for a text shorter than 2 ^ 32, `strchrs` ends
  -- and
  -- returns how often the character stands in the text.
  pub strchrs-count : ch < 128 → length s < 2 ^ 32 → strchrs fuel p ch m ≡ done (count s ch)
  unfolding strchrs
  strchrs-count hc b = ground (arith, strchrs_loop-count ch m fuel p 0 s hc)
