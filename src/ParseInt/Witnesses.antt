-- ===== src/ParseInt/Witnesses.antt =====
-- The theorems on parseint.c at concrete strings.
use sty_linux.Base.{ℕ, ◌≡◌, ◌⊎◌, [], ◌∷◌, pos, done, fault, arith}
use sty_linux.ParseInt.{parse_int, char_0}
use sty_linux.ParseInt.Digits.{print}
use sty_linux.ParseInt.Laws.{parse_int-overflow, parse_int-print}

-- 4000000000
parse_int-overflow_example :
    parse_int (52 ∷ 48 ∷ 48 ∷ 48 ∷ 48 ∷ 48 ∷ 48 ∷ 48 ∷ 48 ∷ 48 ∷ []) ≡ fault
parse_int-overflow_example =
    parse_int-overflow 52 (48 ∷ 48 ∷ 48 ∷ 48 ∷ 48 ∷ 48 ∷ 48 ∷ 48 ∷ 48 ∷ []) (omega arith)
      (omega arith)

parse_int-print_example :
    ((◌≡◌ {A = ℕ} 1234 0) ⊎ (parse_int (print 10 1234) ≡ done (pos 1234)))
    × (parse_int (char_0 ∷ print 8 1234) ≡ done (pos 1234))
parse_int-print_example = parse_int-print 1234 (omega arith)
