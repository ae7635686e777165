-- ===== src/Shell/Words.antt =====
-- `cmd_parse` of sparrow/shell/shell.c against the words of a text.
use mathlib.Core.List.{append_assoc}
use sparrow_os.Common.{
  ℕ, ◌≤◌, ◌≡◌, inl, inr, refl, sym, ap, ◌∙◌, false, List, [], ◌∷◌, ◌++◌, length, arith, ◌==◌,
  if◌then◌else◌, Bool-cases, append-nil,
}
use sparrow_os.Shell.{skip_token, word_at, behind_word}

-- A word that has come to its end, in front of the words behind it.
abbrev pub flush : List ℕ → List (List ℕ) → List (List ℕ)
flush [] ws = ws
flush (c ∷ w) ws = (c ∷ w) ∷ ws

-- The words of a text, with the part of a word that was read so far: the runs of other characters
-- than the separator.
unfoldable pub words_from : ℕ → List ℕ → List ℕ → List (List ℕ)
words_from token w [] = flush w []
words_from token w (c ∷ s) =
    let next = words_from token [] s in
    let longer = words_from token (w ++ c ∷ []) s in if c == token then flush w next else longer

abbrev pub words : ℕ → List ℕ → List (List ℕ)
words token s = words_from token [] s

pub words-skip : (token : ℕ) (s : List ℕ) → words token (skip_token token s) ≡ words token s
unfolding skip_token words_from
words-skip token [] = refl
words-skip token (c ∷ s) = elim (Bool-cases (c == token)) [
  | inl same ↦ rw same (words-skip token s)
  | inr other ↦ rw (other, other) refl
]

pub words_from-word :
    (token : ℕ) (w s : List ℕ)
    → words_from token w s ≡ flush (w ++ word_at token s) (words token (behind_word token s))
unfolding words_from word_at behind_word
words_from-word token w [] = ap (λ x. flush x []) (sym (append-nil w))
words_from-word token w (c ∷ s) = elim (Bool-cases (c == token)) [
  | inl same ↦ rw same (ap (λ x. flush x (words token s)) (sym (append-nil w)))
  | inr other ↦ rw other (
      words_from-word token (w ++ c ∷ []) s
      ∙ ap (λ x. flush x (words token (behind_word token s)))
          (append_assoc w (c ∷ []) (word_at token s)))
]

pub skip-head : (token c : ℕ) (s t : List ℕ) → skip_token token s ≡ c ∷ t → (c == token) ≡ false
unfolding skip_token
skip-head token c [] t h = absurd (ground arith)
skip-head token c (x ∷ s) t h = elim (Bool-cases (x == token)) [
  | inl same ↦ skip-head token c s t (rw same at h)
  | inr other ↦ ground (arith, other, head_of (rw other at h))
]
  where
    head_of : (x ∷ s) ≡ (c ∷ t) → x ≡ c
    head_of e = ground arith

pub length-skip : (token : ℕ) (s : List ℕ) → length (skip_token token s) ≤ length s
unfolding skip_token
length-skip token [] = omega arith
length-skip token (c ∷ s) = elim (Bool-cases (c == token)) [
  | inl same ↦ rw same (omega (arith, length-skip token s))
  | inr other ↦ rw other (omega arith)
]

pub length-behind : (token : ℕ) (s : List ℕ) → length (behind_word token s) ≤ length s
unfolding behind_word
length-behind token [] = omega arith
length-behind token (c ∷ s) = elim (Bool-cases (c == token)) [
  | inl same ↦ rw same (omega arith)
  | inr other ↦ rw other (omega (arith, length-behind token s))
]

-- The words of a text that begins with a word.
pub words_split :
    (token c : ℕ) (t : List ℕ)
    → (c == token) ≡ false
    → (words token (c ∷ t) ≡ (c ∷ word_at token t) ∷ words token (behind_word token t))
      × (word_at token (c ∷ t) ≡ c ∷ word_at token t)
      × (behind_word token (c ∷ t) ≡ behind_word token t)
unfolding word_at behind_word words_from
words_split token c t h = (rw h (words_from-word token (c ∷ []) t), rw h refl, rw h refl)
