-- ===== src/Stdio.antt =====
-- sparrow/lib/stdio.c: formatted output. The result is the text that stands in the buffer. An
-- argument is a string or a word; a format that asks for another one than it is given reads
-- memory that is no argument, which is `panic` here. A word of 32 bits has at most 32 digits, the
-- fuel of `itoa`.
pub mod Digits
pub mod Format
pub mod Tests
use sparrow_os.Common.{
  ℕ, zero, suc, ◌+◌, ◌-◌, ◌/◌, ◌%◌, ◌^◌, Bool, true, false, List, [], ◌∷◌, ◌++◌, ltb, leb, ◌==◌,
  if◌then◌else◌, length, Outcome, done, panic, out_of_fuel, ◌>>=◌,
}

pub data Arg : Type 0 where
  text_arg : List ℕ → Arg
  word_arg : ℕ → Arg

pub digit : ℕ → ℕ
digit m = if ltb m 10 then m + 48 else m - 10 + 65

pub itoa_loop : ℕ → ℕ → ℕ → Outcome (List ℕ)
itoa_loop zero value base = out_of_fuel
itoa_loop (suc fuel) value base =
    let higher = itoa_loop fuel (value / base) base in
    if value / base == 0
    then done (digit (value % base) ∷ [])
    else higher >>= λ (text : List ℕ). done (text ++ digit (value % base) ∷ [])

pub itoa : ℕ → ℕ → Outcome (List ℕ)
itoa value base = itoa_loop 32 value base

-- `%d`: a negative number is printed as '-' and its absolute value.
pub print_int : ℕ → Outcome (List ℕ)
print_int arg_int =
    if leb (2 ^ 31) arg_int
    then (itoa (2 ^ 32 - arg_int) 10 >>= λ (text : List ℕ). done (45 ∷ text))
    else itoa arg_int 10

-- A conversion: what it prints, and the arguments that are left.
pub print_arg : ℕ → List Arg → Outcome (List ℕ × List Arg)
print_arg index_char [] = panic
print_arg index_char (text_arg s ∷ ap) = if index_char == 115 then done (s, ap) else panic
print_arg index_char (word_arg w ∷ ap) =
    if index_char == 99
    then done (w % 256 ∷ [], ap)
    else if index_char == 100
    then (print_int w >>= λ (text : List ℕ). done (text, ap))
    else if index_char == 120
    then (itoa w 16 >>= λ (text : List ℕ). done (text, ap))
    else panic

-- 's', 'c', 'd' and 'x'.
pub is_conversion : ℕ → Bool
is_conversion c =
    if c == 115 then true else if c == 99 then true else if c == 100 then true else c == 120

-- A '%' before another character is left out.
pub vsprintf : List ℕ → List Arg → Outcome (List ℕ)
vsprintf [] ap = done []
vsprintf (c ∷ []) ap = if c == 37 then done [] else done (c ∷ [])
vsprintf (c ∷ d ∷ format) ap =
    let plain = vsprintf (d ∷ format) ap in
    if c == 37
    then if is_conversion d
      then (print_arg d ap >>= λ (text, rest).
          vsprintf format rest >>= λ (more : List ℕ). done (text ++ more))
      else plain
    else (plain >>= λ (more : List ℕ). done (c ∷ more))
