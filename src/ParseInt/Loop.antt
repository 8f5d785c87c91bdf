-- ===== src/ParseInt/Loop.antt =====
-- The loops of parseint.c over digits.
use sty_linux.Base.{
  ℕ, zero, suc, ◌+◌, ◌-◌, ◌*◌, ◌/◌, ◌%◌, ◌^◌, ◌<◌, ◌≤◌, ◌≡◌, refl, sym, ap, ◌∙◌, ltb, List, [], ◌∷◌,
  ◌++◌, length, arith, Bool-cases, inl, inr, ltb→lt, ltb→le, lt→ltb, le→ltb, fault, false, ◌||◌,
}
use native.Mathlib.Nat.{
  pow-zero, pow-suc, mul_comm, mul_assoc, add-mul, one-le-pow, le-mul_of_pos_right, zero-mul,
  mul-le-mul_left, mod-lt, mod-add-div',
}
use sty_linux.ParseInt.{calculate_loop}
use sty_linux.ParseInt.Digits.{value, AllDigits, print_before}

module _ (base : ℕ) (some_base : 2 ≤ base) (few : base ≤ 10) where
  is_digit : (c : ℕ) → 48 ≤ c → c < 48 + base → (ltb c 48 || ltb (47 + base) c) ≡ false
  is_digit c lo hi = rw (le→ltb c 48 lo, le→ltb (47 + base) c (omega arith)) refl

  step_total : (r d k v : ℕ) → (r * base + d) * base ^ k + v ≡ r * base ^ suc k + (d * base ^ k + v)
  step_total r d k v =
      let pull : r * base ^ suc k ≡ r * base * base ^ k =
        ap (λ z. r * z) (pow-suc base k ∙ mul_comm (base ^ k) base)
        ∙ sym (mul_assoc r base (base ^ k)) in
      omega (arith, pull, add-mul (r * base) d (base ^ k))

  step_small : (n k v : ℕ) → n ≤ n * base ^ k + v
  step_small n k v =
      let pow_pos : 1 ≤ base ^ k = one-le-pow k base (omega arith) in
      let grows : n ≤ n * base ^ k = le-mul_of_pos_right n (omega arith) in omega arith

  -- Digits whose value with what was read before fits an int are read.
  pub calculate_loop-append :
      (r : ℕ) (s rest : List ℕ)
      → AllDigits base s
      → r * base ^ length s + value base s < 2 ^ 31
      → calculate_loop base (47 + base) r (s ++ rest)
        ≡ calculate_loop base (47 + base) (r * base ^ length s + value base s) rest
  unfolding calculate_loop
  calculate_loop-append r [] rest digits fits =
      ap (λ z. calculate_loop base (47 + base) z rest)
        (let e = pow-zero base in omega (arith, ap (λ z. r * z) e))
  calculate_loop-append r (c ∷ s) rest digits fits =
      let next = r * base + (c - 48) in
      let total = step_total r (c - 48) (length s) (value base s) in
      let small : next < 2 ^ 31 =
        (let grows = step_small next (length s) (value base s) in omega (arith, total)) in
      rw (is_digit c digits.0.0 digits.0.1, lt→ltb next (2 ^ 31) small)
        (calculate_loop-append next s rest digits.1 (omega (arith, total))
          ∙ ap (λ z. calculate_loop base (47 + base) z rest) total)

  -- Digits whose value does not fit an int overflow it.
  pub calculate_loop-overflow :
      (r : ℕ) (s : List ℕ)
      → AllDigits base s
      → r < 2 ^ 31
      → 2 ^ 31 ≤ r * base ^ length s + value base s
      → calculate_loop base (47 + base) r s ≡ fault
  unfolding calculate_loop
  calculate_loop-overflow r [] digits fits large =
      absurd (let e = pow-zero base in omega (arith, ap (λ z. r * z) e))
  calculate_loop-overflow r (c ∷ s) digits fits large =
      let next = r * base + (c - 48) in
      let total = step_total r (c - 48) (length s) (value base s) in
      rw (is_digit c digits.0.0 digits.0.1) (elim (Bool-cases (ltb next (2 ^ 31))) [
        | inl e ↦ rw e (
            calculate_loop-overflow next s digits.1 (ltb→lt next (2 ^ 31) e) (omega (arith, total)))
        | inr e ↦ rw e refl
      ])

  pub read_digit :
      (r d : ℕ) (rest : List ℕ)
      → d < base
      → r * base + d < 2 ^ 31
      → calculate_loop base (47 + base) r ((48 + d) ∷ rest)
        ≡ calculate_loop base (47 + base) (r * base + d) rest
  unfolding calculate_loop
  read_digit r d rest small fits =
      let e : r * base + ((48 + d) - 48) ≡ r * base + d = omega arith in
      rw
        (
          is_digit (48 + d) (omega arith) (omega arith),
          lt→ltb (r * base + ((48 + d) - 48)) (2 ^ 31) (omega (arith, e)),
        )
        (ap (λ z. calculate_loop base (47 + base) z rest) e)

  -- Printing a number and reading it puts the number before the rest.
  pub calculate_loop-print :
      (f n : ℕ) (rest : List ℕ)
      → n < f
      → n < 2 ^ 31
      → calculate_loop base (47 + base) 0 (print_before f base n rest)
        ≡ calculate_loop base (47 + base) n rest
  unfolding print_before
  calculate_loop-print zero n rest fuel fits = absurd (omega arith)
  calculate_loop-print (suc f) n rest fuel fits = elim (Bool-cases (ltb n base)) [
    | inl e ↦
        (let small = ltb→lt n base e in
          let zeroed = zero-mul base in
          rw e (
            read_digit 0 n rest small (omega (arith, zeroed))
            ∙ ap (λ z. calculate_loop base (47 + base) z rest) (omega (arith, zeroed))))
    | inr e ↦
        let large = ltb→le n base e in
        let parts : n / base * base + n % base ≡ n =
          sym (sym (mod-add-div' n base) ∙ omega arith) in
        let halves : n / base * 2 ≤ n / base * base = mul-le-mul_left (n / base) some_base in
        rw e (
          calculate_loop-print f (n / base) ((48 + n % base) ∷ rest) (omega arith) (omega arith)
          ∙ read_digit (n / base) (n % base) rest (mod-lt n (omega arith)) (omega arith)
          ∙ ap (λ z. calculate_loop base (47 + base) z rest) parts)
  ]
