-- ===== src/ParseInt/Laws.antt =====
-- What parseInt of parseint.c returns.
use sty_linux.Base.{
  ℕ, zero, suc, ◌+◌, ◌*◌, ◌/◌, ◌%◌, ◌^◌, ◌<◌, ◌≤◌, ◌≡◌, ◌≢◌, refl, sym, ap, ◌∙◌, ltb, if◌then◌else◌,
  List, [], ◌∷◌, ◌++◌, length, arith, Bool-cases, inl, inr, ltb→le, lt→ltb, le→ltb, ne→==, ==→eq,
  ==→ne, append-nil, ◌⊎◌, done, fault, pos, negsuc, ◌==◌,
}
use mathlib.Core.Path.{subst}
use native.Mathlib.Nat.{zero-mul}
use sty_linux.ParseInt.{calculate_loop, parse_int, char_0}
use sty_linux.ParseInt.Digits.{value, AllDigits, print_before, print}
use sty_linux.ParseInt.Loop.{
  calculate_loop-append, calculate_loop-overflow, read_digit, calculate_loop-print,
}

-- The base that parseInt takes: 8 after a leading 0, and 10 otherwise.
abbrev pub radix : List ℕ → ℕ
radix [] = 10
radix (c ∷ s) = if c == char_0 then 8 else 10

-- parseInt reads a string that is not empty in its base.
parse_int-radix :
    (c : ℕ) (s : List ℕ)
    → (b : ℕ) × (2 ≤ b)
      × (b ≤ 10)
      × (radix (c ∷ s) ≡ b)
      × (parse_int (c ∷ s) ≡ calculate_loop b (47 + b) 0 (c ∷ s))
unfolding parse_int
parse_int-radix c s = elim (Bool-cases (c == char_0)) [
  | inl e ↦ (8, omega arith, omega arith, rw e refl, rw e refl)
  | inr e ↦ (10, omega arith, omega arith, rw e refl, rw e refl)
]

zero_first : (b k v : ℕ) → 0 * b ^ k + v ≡ v
zero_first b k v = (let e = zero-mul (b ^ k) in omega (arith, e))

-- If all characters are digits of the base and their value fits an int, parseInt returns it.
pub parse_int-value :
    (c : ℕ) (s : List ℕ)
    → AllDigits (radix (c ∷ s)) (c ∷ s)
    → value (radix (c ∷ s)) (c ∷ s) < 2 ^ 31
    → parse_int (c ∷ s) ≡ done (pos (value (radix (c ∷ s)) (c ∷ s)))
unfolding calculate_loop
parse_int-value c s digits fits =
    let (b, lo, hi, same, runs) = parse_int-radix c s in
    let digits' : AllDigits b (c ∷ s) = subst (λ z. AllDigits z (c ∷ s)) same digits in
    let fits' : value b (c ∷ s) < 2 ^ 31 = subst (λ z. value z (c ∷ s) < 2 ^ 31) same fits in
    let sum = zero_first b (length (c ∷ s)) (value b (c ∷ s)) in
    runs
    ∙ ap (λ z. calculate_loop b (47 + b) 0 z) (sym (append-nil (c ∷ s)))
    ∙ calculate_loop-append b lo hi 0 (c ∷ s) [] digits' (omega (arith, sum))
    ∙ ap (λ z. done (pos z)) sum
    ∙ ap (λ z. done (pos (value z (c ∷ s)))) (sym same)

-- If all characters are digits of the base and their value does not fit an int, parseInt overflows one.
pub parse_int-overflow :
    (c : ℕ) (s : List ℕ)
    → AllDigits (radix (c ∷ s)) (c ∷ s)
    → 2 ^ 31 ≤ value (radix (c ∷ s)) (c ∷ s)
    → parse_int (c ∷ s) ≡ fault
parse_int-overflow c s digits large =
    let (b, lo, hi, same, runs) = parse_int-radix c s in
    let large' : 2 ^ 31 ≤ value b (c ∷ s) = subst (λ z. 2 ^ 31 ≤ value z (c ∷ s)) same large in
    let sum = zero_first b (length (c ∷ s)) (value b (c ∷ s)) in
    runs
    ∙ calculate_loop-overflow b lo hi 0 (c ∷ s) (subst (λ z. AllDigits z (c ∷ s)) same digits)
        (omega arith) (omega (arith, sum))

bad_digit :
    (b x r : ℕ) (s : List ℕ)
    → 2 ≤ b
    → (x < 48) ⊎ (48 + b ≤ x)
    → calculate_loop b (47 + b) r (x ∷ s) ≡ done (negsuc 0)
unfolding calculate_loop
bad_digit b x r s lo (inl low) = rw (lt→ltb x 48 low) refl
bad_digit b x r s lo (inr high) =
    rw (le→ltb x 48 (omega arith), lt→ltb (47 + b) x (omega arith)) refl

-- If the string starts with digits of the base whose value fits an int, at least one, and then comes
-- another character, parseInt returns -1, whatever follows.
pub parse_int-invalid :
    (c x : ℕ) (s rest : List ℕ)
    → AllDigits (radix (c ∷ s)) (c ∷ s)
    → value (radix (c ∷ s)) (c ∷ s) < 2 ^ 31
    → (x < 48) ⊎ (48 + radix (c ∷ s) ≤ x)
    → parse_int (c ∷ s ++ x ∷ rest) ≡ done (negsuc 0)
parse_int-invalid c x s rest digits fits bad =
    let (b, lo, hi, same, runs) = parse_int-radix c (s ++ x ∷ rest) in
    let digits' : AllDigits b (c ∷ s) = subst (λ z. AllDigits z (c ∷ s)) same digits in
    let fits' : value b (c ∷ s) < 2 ^ 31 = subst (λ z. value z (c ∷ s) < 2 ^ 31) same fits in
    let sum = zero_first b (length (c ∷ s)) (value b (c ∷ s)) in
    runs
    ∙ calculate_loop-append b lo hi 0 (c ∷ s) (x ∷ rest) digits' (omega (arith, sum))
    ∙ bad_digit b x (0 * b ^ length (c ∷ s) + value b (c ∷ s)) rest lo
        (subst (λ z. (x < 48) ⊎ (48 + z ≤ x)) same bad)

-- A printed number does not start with 0, except 0 itself.
print_head :
    (f n : ℕ) (rest : List ℕ)
    → n < f
    → 1 ≤ n
    → (c : ℕ) × (s : List ℕ) × (print_before f 10 n rest ≡ c ∷ s) × (c ≢ 48)
unfolding print_before
print_head zero n rest fuel some_n = absurd (omega arith)
print_head (suc f) n rest fuel some_n = elim (Bool-cases (ltb n 10)) [
  | inl e ↦ (48 + n, rest, rw e refl, λ same. omega arith)
  | inr e ↦
      let large = ltb→le n 10 e in
      let (c, s, same, ne) =
        print_head f (n / 10) ((48 + n % 10) ∷ rest) (omega arith) (omega arith) in
      (c, s, rw e same, ne)
]

-- parseInt reads every number from 1 below 2^31 as it is printed in base 10, and every number below
-- 2^31 as it is printed in base 8 after a leading 0.
pub parse_int-print :
    (n : ℕ)
    → n < 2 ^ 31
    → ((n ≡ 0) ⊎ (parse_int (print 10 n) ≡ done (pos n)))
      × (parse_int (char_0 ∷ print 8 n) ≡ done (pos n))
unfolding parse_int calculate_loop
parse_int-print n fits = (
  elim (Bool-cases (n == 0)) [
    | inl e ↦ inl (==→eq n 0 e)
    | inr e ↦
        let some_n : 1 ≤ n = (let ne = ==→ne n 0 e in omega arith) in
        let (c, s, same, ne) = print_head (suc n) n [] (omega arith) some_n in
        let decimal : parse_int (c ∷ s) ≡ calculate_loop 10 57 0 (c ∷ s) =
          rw (ne→== c 48 ne) refl in
        inr (
          ap parse_int same
          ∙ decimal
          ∙ ap (λ z. calculate_loop 10 57 0 z) (sym same)
          ∙ calculate_loop-print 10 (omega arith) (omega arith) (suc n) n [] (omega arith) fits)
  ],
  read_digit 8 (omega arith) (omega arith) 0 0 (print 8 n) (omega arith) (omega arith)
      ∙ calculate_loop-print 8 (omega arith) (omega arith) (suc n) n [] (omega arith) fits,
)
