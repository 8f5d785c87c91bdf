-- ===== src/ParseInt/Tests.antt =====
-- The calls in main.c of the parser.
use sty_linux.Base.{◌≡◌, refl, [], ◌∷◌, pos, negsuc, done}
use sty_linux.ParseInt.{convert_decimal_digit, calculate_loop, parse_int}

converts_0 : convert_decimal_digit 48 ≡ pos 0
unfolding convert_decimal_digit
converts_0 = refl

reads_010 : parse_int (48 ∷ 49 ∷ 48 ∷ []) ≡ done (pos 8)
unfolding parse_int calculate_loop
reads_010 = refl

reads_10 : parse_int (49 ∷ 48 ∷ []) ≡ done (pos 10)
unfolding parse_int calculate_loop
reads_10 = refl

refuses_question_mark : parse_int (63 ∷ []) ≡ done (negsuc 0)
unfolding parse_int calculate_loop
refuses_question_mark = refl
