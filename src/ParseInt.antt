-- ===== src/ParseInt.antt =====
-- The parser of numbers in STY25/assignment01-templates/p2/parseint.c. A string is the list of its
-- characters before the NUL, and an `int` that overflows, which C leaves undefined, is a fault.
pub mod Digits
pub mod Loop
pub mod Laws
mod Tests
mod Witnesses
use sty_linux.Base.{
  ℕ, ◌+◌, ◌-◌, ◌*◌, ◌^◌, ◌==◌, ltb, leb, if◌then◌else◌, Bool, true, false, ◌&&◌, ◌||◌, List, [],
  ◌∷◌, Run, done, fault, ◌>>=◌, ℤ, pos, negsuc,
}

-- '0', '7' and '9'
abbrev pub char_0 : ℕ
char_0 = 48

abbrev pub char_7 : ℕ
char_7 = 55

abbrev pub char_9 : ℕ
char_9 = 57

unfoldable pub convert_decimal_digit : ℕ → ℤ
convert_decimal_digit c = if leb char_0 c && leb c char_9 then pos (c - char_0) else negsuc 0

-- The loops of `calculateOctal` and `calculateDecimal`, with the base and the last digit.
unfoldable pub calculate_loop : (base last result : ℕ) → List ℕ → Run ℤ
calculate_loop base last result [] = done (pos result)
calculate_loop base last result (c ∷ s) =
    let next = result * base + (c - char_0) in
    let rest = calculate_loop base last next s in
    if ltb c char_0 || ltb last c
    then done (negsuc 0)
    else if ltb next (2 ^ 31)
    then rest
    else fault

abbrev pub calculate_octal : List ℕ → Run ℤ
calculate_octal s = calculate_loop 8 char_7 0 s

abbrev pub calculate_decimal : List ℕ → Run ℤ
calculate_decimal s = calculate_loop 10 char_9 0 s

unfoldable pub parse_int : List ℕ → Run ℤ
parse_int [] = done (negsuc 0)
parse_int (c ∷ s) = if c == char_0 then calculate_octal (c ∷ s) else calculate_decimal (c ∷ s)
