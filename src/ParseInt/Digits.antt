-- ===== src/ParseInt/Digits.antt =====
-- Numbers as digits in a base, the first digit the highest.
use sty_linux.Base.{
  ℕ, zero, suc, ◌+◌, ◌-◌, ◌*◌, ◌/◌, ◌%◌, ◌^◌, ◌<◌, ◌≤◌, ltb, if◌then◌else◌, List, [], ◌∷◌, All,
  length,
}

-- What the characters stand for in the base.
abbrev pub value : ℕ → List ℕ → ℕ
value base [] = 0
value base (c ∷ s) = (c - 48) * base ^ length s + value base s

-- The characters are digits of the base.
abbrev pub AllDigits : ℕ → List ℕ → Type 0
AllDigits base s = All (λ c. (48 ≤ c) × (c < 48 + base)) s

-- The digits of a number, before those of `s`; a number below 2 ^ rounds needs no more rounds.
unfoldable pub print_before : (rounds base n : ℕ) → List ℕ → List ℕ
print_before zero base n s = s
print_before (suc f) base n s =
    let rest = print_before f base (n / base) ((48 + n % base) ∷ s) in
    if ltb n base then (48 + n) ∷ s else rest

abbrev pub print : ℕ → ℕ → List ℕ
print base n = print_before (suc n) base n []
