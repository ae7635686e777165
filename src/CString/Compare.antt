-- ===== src/CString/Compare.antt =====
-- `strcmp` of sparrow/lib/string.c on the texts in memory.
use sparrow_os.Common.{
  ℕ, zero, suc, ◌+◌, ◌<◌, ◌≡◌, ◌≢◌, ◌↔◌, refl, List, [], ◌∷◌, arith, ◌==◌, if◌then◌else◌, length,
  done, eq_self, Bool-cases, inl, inr, true, false,
}
use sparrow_os.CString.{
  Memory, char_lt, is_pointer, Sign, less, equal, greater, strcmp_loop, strcmp,
}
use sparrow_os.CString.View.{IsString}

-- The order of two texts: by the first characters that differ, as signed ones, where the end of a
-- text counts as 0.
pub text_compare : List ℕ → List ℕ → Sign
text_compare [] [] = equal
text_compare [] (d ∷ t) = if char_lt 0 d then less else greater
text_compare (c ∷ s) [] = if char_lt 0 c then greater else less
text_compare (c ∷ s) (d ∷ t) =
    if c == d then text_compare s t else if char_lt c d then less else greater

strcmp_loop-text_compare :
    (fuel a b : ℕ) (s t : List ℕ) (m : Memory)
    → ((p : ℕ) → m p < 256)
    → IsString m a s
    → IsString m b t
    → length s < fuel
    → strcmp_loop fuel a b m ≡ done (text_compare s t)
unfolding strcmp_loop text_compare
strcmp_loop-text_compare zero a b s t m bytes hs ht f = absurd (omega arith)
strcmp_loop-text_compare (suc fuel) a b [] [] m bytes hs ht f = rw (hs, ht)
strcmp_loop-text_compare (suc fuel) a b [] (d ∷ t) m bytes hs ht f =
    rw (hs, ht.0) (ground (arith, bytes b, ht))
strcmp_loop-text_compare (suc fuel) a b (c ∷ s) [] m bytes hs ht f =
    rw (hs.0, ht) (ground (arith, bytes a, hs))
strcmp_loop-text_compare (suc fuel) a b (c ∷ s) (d ∷ t) m bytes hs ht f =
    let more : (c == 0) ≡ false = ground arith in
    rw (hs.0, ht.0, more)
      (elim (Bool-cases (c == d)) [
        | inl same ↦
            rw same
              (strcmp_loop-text_compare fuel (a + 1) (b + 1) s t m bytes hs.2 ht.2 (omega arith))
        | inr differ ↦ rw differ (ground (arith, bytes a, bytes b, hs.0, ht.0))
      ])

-- Characters of a text: no 0, and bytes.
abbrev pub IsText : List ℕ → Type 0
IsText [] = Unit
IsText (c ∷ s) = (c ≢ 0) × (c < 256) × IsText s

IsString-IsText :
    (m : Memory) (p : ℕ) (s : List ℕ) → ((q : ℕ) → m q < 256) → IsString m p s → IsText s
IsString-IsText m p [] bytes h = tt
IsString-IsText m p (c ∷ s) bytes h =
    (h.1, rw (← h.0) (bytes p), IsString-IsText m (p + 1) s bytes h.2)

text_compare_self : (s : List ℕ) → text_compare s s ≡ equal
unfolding text_compare
text_compare_self [] = refl
text_compare_self (c ∷ s) = rw eq_self (text_compare_self s)

text_compare-equal : (s t : List ℕ) → IsText s → IsText t → text_compare s t ≡ equal → s ≡ t
unfolding text_compare
text_compare-equal [] [] hs ht e = refl
text_compare-equal [] (d ∷ t) hs ht e = ground arith
text_compare-equal (c ∷ s) [] hs ht e = ground arith
text_compare-equal (c ∷ s) (d ∷ t) hs ht e = ground (arith, text_compare-equal s t hs.2 ht.2)

-- With fuel for the first text and its 0 `strcmp` of two texts in a memory of bytes ends. Its
-- answer
-- is the order of the two by the first characters that differ, as signed ones, and it answers 0
-- exactly where the texts are the same.
pub strcmp-text_compare :
    (fuel a b : ℕ) (s t : List ℕ) (m : Memory)
    → a ≢ 0
    → b ≢ 0
    → ((p : ℕ) → m p < 256)
    → IsString m a s
    → IsString m b t
    → length s < fuel
    → (strcmp fuel a b m ≡ done (text_compare s t)) × ((text_compare s t ≡ equal) ↔ (s ≡ t))
unfolding strcmp
strcmp-text_compare fuel a b s t m ha hb bytes hs ht f =
    let d : is_pointer a ≡ true = ground arith in
    let r : is_pointer b ≡ true = ground arith in
    (
      rw (d, r) (strcmp_loop-text_compare fuel a b s t m bytes hs ht f),
      (
        text_compare-equal s t (IsString-IsText m a s bytes hs) (IsString-IsText m b t bytes ht),
        λ e. rw (← e) (text_compare_self s),
      ),
    )
