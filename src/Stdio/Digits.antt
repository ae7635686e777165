-- ===== src/Stdio/Digits.antt =====
-- `itoa` of sparrow/lib/stdio.c prints what a reader of numbers reads back.
use sparrow_os.Common.{
  ℕ, zero, suc, ◌≡◌, ◌<◌, ◌∙◌, sym, refl, ap, subst, ◌+◌, ◌-◌, ◌*◌, ◌/◌, ◌%◌, ◌^◌, true, false,
  List, [], ◌∷◌, ◌++◌, ltb, ◌==◌, if◌then◌else◌, Outcome, done, ◌⊎◌, inl, inr, Bool-cases, arith,
  eq-true,
}
use sparrow_os.Stdio.{digit, itoa_loop, itoa}

-- The value of a digit, 0 to 9 or A to F.
abbrev pub digit_value : ℕ → ℕ
digit_value c = if ltb c 65 then c - 48 else c - 65 + 10

-- The number that a text stands for, from the left; `acc` is what has been read.
abbrev pub read : ℕ → ℕ → List ℕ → ℕ
read base acc [] = acc
read base acc (c ∷ cs) = read base (acc * base + digit_value c) cs

read-snoc :
    (base acc : ℕ) (cs : List ℕ) (c : ℕ)
    → read base acc (cs ++ c ∷ []) ≡ read base acc cs * base + digit_value c
read-snoc base acc [] c = refl
read-snoc base acc (x ∷ cs) c = read-snoc base (acc * base + digit_value x) cs c

digit_value-digit : (m : ℕ) → m < 16 → digit_value (digit m) ≡ m
unfolding digit
digit_value-digit m h = ground arith

-- The bases of the code.
abbrev pub IsBase : ℕ → Type 0
IsBase base = (base ≡ 10) ⊎ (base ≡ 16)

quotient_small : (n value base : ℕ) → IsBase base → value < 2 ^ suc n → value / base < 2 ^ n
quotient_small n value base (inl e) h = rw e (omega arith)
quotient_small n value base (inr e) h = rw e (omega arith)

remainder_small : (value base : ℕ) → IsBase base → value % base < 16
remainder_small value base (inl e) = rw e (omega arith)
remainder_small value base (inr e) = rw e (omega arith)

rebuilt : (value base : ℕ) → IsBase base → value / base * base + value % base ≡ value
rebuilt value base (inl e) = rw e (omega arith)
rebuilt value base (inr e) = rw e (omega arith)

-- The text is the shortest one of the number.
abbrev pub IsShort : List ℕ → Type 0
IsShort text = (text ≡ 48 ∷ []) ⊎ ((c : ℕ) × (cs : List ℕ) × (text ≡ c ∷ cs) × ((c == 48) ≡ false))

digit_ne_zero : (m : ℕ) → (m == 0) ≡ false → m < 16 → (digit m == 48) ≡ false
unfolding digit
digit_ne_zero m n h = ground arith

snoc-IsShort :
    (text : List ℕ) (c : ℕ) → IsShort text → (text ≡ 48 ∷ [] → ⊥) → IsShort (text ++ c ∷ [])
snoc-IsShort text c (inl e) n = absurd (n e)
snoc-IsShort text c (inr (d, ds, e, h)) n = inr (d, ds ++ c ∷ [], ap (λ xs. xs ++ c ∷ []) e, h)

-- What `itoa` prints is read back as the value.
pub record Printed (value base : ℕ) (o : Outcome (List ℕ)) : Type 0 where
  pub text : List ℕ
  pub runs : o ≡ done text
  pub value_of : read base 0 text ≡ value
  pub short : IsShort text

-- A text of a number that is not 0 is not "0".
not_zero_text :
    (base value : ℕ) (text : List ℕ)
    → read base 0 text ≡ value
    → (value == 0) ≡ false
    → text ≡ 48 ∷ []
    → ⊥
not_zero_text base value text r n e =
    let z : value ≡ 0 = sym r ∙ ap (read base 0) e ∙ omega arith in ground arith

last_digit :
    (value base fuel : ℕ)
    → (value / base == 0) ≡ true
    → itoa_loop (suc fuel) value base ≡ done (digit (value % base) ∷ [])
unfolding itoa_loop
last_digit value base fuel h = rw h refl

more_digits :
    (value base fuel : ℕ) (text : List ℕ)
    → (value / base == 0) ≡ false
    → itoa_loop fuel (value / base) base ≡ done text
    → itoa_loop (suc fuel) value base ≡ done (text ++ digit (value % base) ∷ [])
unfolding itoa_loop
more_digits value base fuel text h e = rw (h, e) refl

one-IsShort : (m : ℕ) → m < 16 → IsShort (digit m ∷ [])
unfolding digit
one-IsShort m h = elim (Bool-cases (m == 0)) [
  | inl z ↦ inl (ground arith)
  | inr n ↦ inr (digit m, [], refl, digit_ne_zero m n h)
]

some_fuel :
    (fuel value base : ℕ)
    → IsBase base
    → value < 2 ^ suc fuel
    → (value / base == 0) ≡ false
    → 0 < fuel
some_fuel zero value base b small more =
    let q : value / base < 2 ^ 0 = quotient_small 0 value base b small in absurd (ground arith)
some_fuel (suc fuel) value base b small more = omega arith

itoa_loop-Printed :
    (fuel value base : ℕ)
    → IsBase base
    → value < 2 ^ fuel
    → 0 < fuel
    → Printed value base (itoa_loop fuel value base)
itoa_loop-Printed zero value base b small pos = absurd (omega arith)
itoa_loop-Printed (suc fuel) value base b small pos = elim (Bool-cases (value / base == 0)) [
  | inl one_digit ↦ record {
    text = digit (value % base) ∷ [];
    runs = last_digit value base fuel one_digit;
    value_of =
        let zero_quotient = eq-true (value / base) 0 one_digit in
        rw (digit_value-digit (value % base) (remainder_small value base b))
          (subst (λ q. q * base + value % base ≡ value) zero_quotient (rebuilt value base b));
    short = one-IsShort (value % base) (remainder_small value base b);
  }
  | inr more ↦
      let up =
        itoa_loop-Printed fuel (value / base) base b (quotient_small fuel value base b small)
          (some_fuel fuel value base b small more) in
      record {
        text = up.text ++ digit (value % base) ∷ [];
        runs = more_digits value base fuel up.text more up.runs;
        value_of =
            read-snoc base 0 up.text (digit (value % base))
            ∙ rw (up.value_of, digit_value-digit (value % base) (remainder_small value base b))
                (rebuilt value base b);
        short =
            snoc-IsShort up.text _ up.short
              (not_zero_text base (value / base) up.text up.value_of more);
      }
]

pub itoa-Printed :
    (value base : ℕ) → IsBase base → value < 2 ^ 32 → Printed value base (itoa value base)
unfolding itoa
itoa-Printed value base b small = itoa_loop-Printed 32 value base b small (omega arith)
