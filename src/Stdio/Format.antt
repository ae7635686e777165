-- ===== src/Stdio/Format.antt =====
-- `vsprintf` of sparrow/lib/stdio.c on a format with one `%d`.
use sparrow_os.Common.{
  ℕ, ◌≡◌, ◌<◌, refl, ap, ◌+◌, ◌-◌, ◌^◌, Bool, true, false, not, ◌&&◌, List, [], ◌∷◌, ◌++◌, leb,
  ◌==◌, if◌then◌else◌, Outcome, done, inl, inr, Bool-cases, arith,
}
use sparrow_os.Stdio.{Arg, word_arg, print_int, print_arg, is_conversion, vsprintf}
use sparrow_os.Stdio.Digits.{read, itoa-Printed}

-- A text without '%'.
abbrev pub plain : List ℕ → Bool
plain [] = true
plain (c ∷ cs) = not (c == 37) && plain cs

vsprintf-plain : (text : List ℕ) (ap : List Arg) → plain text ≡ true → vsprintf text ap ≡ done text
unfolding vsprintf
vsprintf-plain [] ap h = refl
vsprintf-plain (c ∷ []) ap h = ground arith
vsprintf-plain (c ∷ d ∷ cs) ap h =
    let other : (c == 37) ≡ false = ground arith in
    rw (other, vsprintf-plain (d ∷ cs) ap (ground arith)) refl

-- What a signed number of 32 bits is printed as.
pub record Signed (w : ℕ) (o : Outcome (List ℕ)) : Type 0 where
  pub text : List ℕ
  pub runs : o ≡ done text
  pub reads :
      if leb (2 ^ 31) w
      then ((digits : List ℕ) × (text ≡ 45 ∷ digits) × (read 10 0 digits + w ≡ 2 ^ 32))
      else read 10 0 text ≡ w

print_int-Signed : (w : ℕ) → w < 2 ^ 32 → Signed w (print_int w)
unfolding print_int
print_int-Signed w small = elim (Bool-cases (leb (2 ^ 31) w)) [
  | inl negative ↦
      let p = itoa-Printed (2 ^ 32 - w) 10 (inl refl) (ground arith) in
      record {
        text = 45 ∷ p.text;
        runs = rw (negative, p.runs) refl;
        reads = rw negative (p.text, refl, omega (arith, p.value_of));
      }
  | inr positive ↦
      let p = itoa-Printed w 10 (inl refl) small in
      record { text = p.text; runs = rw (positive, p.runs) refl; reads = rw positive p.value_of }
]

vsprintf-conversion :
    (pre post text : List ℕ) (w : ℕ)
    → plain pre ≡ true
    → plain post ≡ true
    → print_int w ≡ done text
    → vsprintf (pre ++ 37 ∷ 100 ∷ post) (word_arg w ∷ []) ≡ done (pre ++ text ++ post)
unfolding vsprintf is_conversion print_arg
vsprintf-conversion [] post text w h k e = rw (e, vsprintf-plain post [] k) refl
vsprintf-conversion (c ∷ []) post text w h k e =
    let other : (c == 37) ≡ false = ground arith in
    rw (other, vsprintf-conversion [] post text w refl k e) refl
vsprintf-conversion (c ∷ d ∷ pre) post text w h k e =
    let other : (c == 37) ≡ false = ground arith in
    rw (other, vsprintf-conversion (d ∷ pre) post text w (ground arith) k e) refl

-- A format with one `%d` and no other '%' always prints the text around it and, in its place, a
-- text that stands for the word as a signed number: from 2^31 on '-' and the digits of its distance
-- to 2^32, below that its own digits.
pub vsprintf-Signed :
    (pre post : List ℕ) (w : ℕ)
    → plain pre ≡ true
    → plain post ≡ true
    → w < 2 ^ 32
    → (s : Signed w (print_int w)) × (vsprintf (pre ++ 37 ∷ 100 ∷ post) (word_arg w ∷ [])
        ≡ done (pre ++ s.text ++ post))
vsprintf-Signed pre post w h k small =
    let s = print_int-Signed w small in (s, vsprintf-conversion pre post s.text w h k s.runs)
