-- ===== src/Stdio/Tests.antt =====
-- Numbers and formats, and the theorems at them.
use sparrow_os.Common.{◌≡◌, ◌^◌, ◌-◌, refl, [], ◌∷◌, done}
use sparrow_os.Stdio.{
  itoa, itoa_loop, digit, print_int, print_arg, is_conversion, vsprintf, word_arg,
}

-- 255 in base 16 is "FF".
hex_255 : itoa 255 16 ≡ done (70 ∷ 70 ∷ [])
unfolding itoa itoa_loop digit
hex_255 = refl

-- "a%d" with -7 is "a-7".
minus_seven : vsprintf (97 ∷ 37 ∷ 100 ∷ []) (word_arg (2 ^ 32 - 7) ∷ []) ≡ done (97 ∷ 45 ∷ 55 ∷ [])
unfolding itoa itoa_loop digit print_int print_arg is_conversion vsprintf
minus_seven = refl
