-- ===== src/CString/Copy.antt =====
-- `strlen`, `strcpy` and `strcat` of sparrow/lib/string.c on the texts in memory.
use native.Mathlib.Nat.{add-zero}
use sparrow_os.Common.{
  ℕ, zero, suc, ◌+◌, ◌-◌, ◌≤◌, ◌<◌, ◌≡◌, ◌≢◌, ap, ◌∙◌, List, [], ◌∷◌, ◌++◌, arith, ◌==◌, length,
  done, eq_self, true, false,
}
use sparrow_os.CString.{Memory, write, is_pointer, find_end, strlen, copy_string, strcpy, strcat}
use sparrow_os.CString.View.{IsString, SameOutside, Apart, IsString-frame}

find_end_lem :
    (fuel p : ℕ) (s : List ℕ) (m : Memory)
    → IsString m p s
    → length s < fuel
    → find_end fuel p m ≡ done (p + suc (length s))
unfolding find_end
find_end_lem zero p s m h f = absurd (omega arith)
find_end_lem (suc fuel) p [] m h f = rw h (ap done (omega arith))
find_end_lem (suc fuel) p (c ∷ s) m h f =
    let more : (m p == 0) ≡ false = ground arith in
    rw (more, find_end_lem fuel (p + 1) s m h.2 (omega arith)) (ap done (omega arith))

-- With fuel for the text and its 0 `strlen` ends and returns the length of the text.
pub strlen-length :
    (fuel p : ℕ) (s : List ℕ) (m : Memory)
    → p ≢ 0
    → IsString m p s
    → length s < fuel
    → strlen fuel p m ≡ done (length s)
unfolding strlen
strlen-length fuel p s m ne h f =
    let pointer : is_pointer p ≡ true = ground arith in
    rw (pointer, find_end_lem fuel p s m h f) (ap done (omega arith))

-- What a copy of the text `s` to `dst` leaves.
pub record Copied (dst : ℕ) (s : List ℕ) (m m' : Memory) : Type 0 where
  pub text : IsString m' dst s
  pub outside : SameOutside dst (suc (length s)) m m'

copy_string_lem :
    (fuel dst src : ℕ) (s : List ℕ) (m : Memory)
    → IsString m src s
    → Apart dst (suc (length s)) src (suc (length s))
    → length s < fuel
    → (m' : Memory) × (copy_string fuel dst src m ≡ done m') × Copied dst s m m'
unfolding copy_string
copy_string_lem zero dst src s m h apart f = absurd (omega arith)
copy_string_lem (suc fuel) dst src [] m h apart f =
    (write m dst (m src), rw h, record { text = ground arith; outside = λ a out. ground arith })
copy_string_lem (suc fuel) dst src (c ∷ s) m h apart f =
    let more : (m src == 0) ≡ false = ground arith in
    let (m', e, k) =
      copy_string_lem fuel (dst + 1) (src + 1) s (write m dst (m src))
        (IsString-frame m (write m dst (m src)) (src + 1) s (λ a lo hi. ground arith) h.2)
        (omega arith) (omega arith) in
    (
      m',
      rw more e,
      record {
        text = (k.outside dst (omega arith) ∙ rw (eq_self dst) h.0, h.1, k.text);
        outside = λ a out. k.outside a (omega arith) ∙ ground arith;
      },
    )

-- With fuel for the text and its 0, and with the two places apart, `strcpy` ends and returns `dst`;
-- the text lies at `dst` afterwards, and no byte outside its place there has changed.
pub strcpy-Copied :
    (fuel dst src : ℕ) (s : List ℕ) (m : Memory)
    → dst ≢ 0
    → src ≢ 0
    → IsString m src s
    → Apart dst (suc (length s)) src (suc (length s))
    → length s < fuel
    → (m' : Memory) × (strcpy fuel dst src m ≡ done (dst, m')) × Copied dst s m m'
unfolding strcpy
strcpy-Copied fuel dst src s m hd hs h apart f =
    let (m', e, k) = copy_string_lem fuel dst src s m h apart f in
    let d : is_pointer dst ≡ true = ground arith in
    let r : is_pointer src ≡ true = ground arith in (m', rw (d, r, e), k)

-- Two texts, the second in place of the 0 of the first, are one.
IsString-append :
    (m m' : Memory) (p : ℕ) (s t : List ℕ)
    → IsString m p s
    → ((a : ℕ) → p ≤ a → a < p + length s → m' a ≡ m a)
    → IsString m' (p + length s) t
    → IsString m' p (s ++ t)
IsString-append m m' p [] t h same k = rw add-zero at k
IsString-append m m' p (c ∷ s) t h same k =
    let here : p + suc (length s) ≡ p + 1 + length s = omega arith in
    (
      same p (omega arith) (omega arith) ∙ h.0,
      h.1,
      IsString-append m m' (p + 1) s t h.2 (λ a lo hi. same a (omega arith) (omega arith))
          (rw here at k),
    )

-- With fuel for each text and its 0, and with the source apart from the place of the joined text,
-- `strcat` ends and returns `dst`; the two texts lie there afterwards as one, and no byte outside
-- the place of the joined text has changed.
pub strcat-append :
    (fuel dst src : ℕ) (t s : List ℕ) (m : Memory)
    → dst ≢ 0
    → src ≢ 0
    → IsString m dst t
    → IsString m src s
    → Apart dst (suc (length t + length s)) src (suc (length s))
    → length t + length s < fuel
    → (m' : Memory) × (strcat fuel dst src m ≡ done (dst, m'))
      × IsString m' dst (t ++ s)
      × SameOutside dst (suc (length t + length s)) m m'
unfolding strcat
strcat-append fuel dst src t s m hd hs ht h apart f =
    let (m', e, k) = copy_string_lem fuel (dst + length t) src s m h (omega arith) (omega arith) in
    let d : is_pointer dst ≡ true = ground arith in
    let r : is_pointer src ≡ true = ground arith in
    let back : dst + suc (length t) - 1 ≡ dst + length t = omega arith in
    (
      m',
      rw (d, r, find_end_lem fuel dst t m ht (omega arith), back, e),
      IsString-append m m' dst t s ht (λ a lo hi. k.outside a (omega arith)) k.text,
      λ a out. k.outside a (omega arith),
    )
