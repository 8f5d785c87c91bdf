-- ===== src/Sieve/Primes.antt =====
-- What malloc2.c prints.
use sty_linux.Base.{
  ℕ, zero, suc, ◌+◌, ◌*◌, ◌≡◌, ◌≢◌, ◌≤◌, ◌<◌, ◌⊎◌, refl, sym, ◌∙◌, ◌==◌, ltb, leb, true, false,
  List, [], ◌∷◌, some, done, arith, Bool-cases, ==→eq, ==→ne, inl, inr, lt→ltb, ltb→lt, ltb→le,
  leb→le, leb→lt, ne→==,
}
use mathlib.Core.Path.{subst}
use native.Mathlib.Nat.{mul_comm, mul-le-mul}
use sty_linux.Sieve.{int_max, print_rest, print_primes}
use sty_linux.Sieve.Rows.{fill-numbers, sieve-Sieved}
use sty_linux.Sieve.Marks.{Sieved, Below}

-- At least 2, and not a product of two such numbers.
abbrev pub IsPrime : ℕ → Type 0
IsPrime n = (2 ≤ n) × ((d k : ℕ) → 2 ≤ d → 2 ≤ k → d * k ≢ n)

-- The list is that of the primes from `i` up to `max`, in order, none left out.
abbrev pub PrimesFrom : (i max : ℕ) → List ℕ → Type 0
PrimesFrom i max [] = (n : ℕ) → i ≤ n → n ≤ max → ¬ IsPrime n
PrimesFrom i max (q ∷ qs) =
    (i ≤ q)
    × (q ≤ max)
    × IsPrime q
    × ((n : ℕ) → i ≤ n → n < q → ¬ IsPrime n)
    × PrimesFrom (suc q) max qs

PrimesFrom-lower :
    (i max : ℕ) (qs : List ℕ) → ¬ IsPrime i → PrimesFrom (suc i) max qs → PrimesFrom i max qs
PrimesFrom-lower i max [] composite h = λ n low high prime. elim (Bool-cases (n == i)) [
  | inl e ↦ composite (subst IsPrime (==→eq n i e) prime)
  | inr e ↦ let ne = ==→ne n i e in h n (omega arith) high prime
]
PrimesFrom-lower i max (q ∷ qs) composite (low', high', prime', gap, rest) = (
  omega arith,
  high',
  prime',
  (λ n low high prime. elim (Bool-cases (n == i)) [
    | inl e ↦ composite (subst IsPrime (==→eq n i e) prime)
    | inr e ↦ let ne = ==→ne n i e in gap n (omega arith) high prime
  ]),
  rest,
)

-- What the table says of a number.
Sieved-IsPrime :
    (max j : ℕ) (p : ℕ → ℕ)
    → Sieved max (Below j) p
    → max < j * j
    → (n : ℕ) → 2 ≤ n
    → n ≤ max
    → ((p n ≡ n) × IsPrime n) ⊎ ((p n ≡ 0) × ¬ IsPrime n)
Sieved-IsPrime max j p h far n low high = elim (h n low high) [
  | inr (gone, d, k, c, z) ↦ inr (gone, (λ prime. prime.1 d k c.0 c.2 z))
  | inl (stands, clear) ↦ inl (stands, (low, (λ d k two two' z. prime clear d k two two' z)))
]
  where
    prime : ((d k : ℕ) → Below j d k → d * k ≢ n) → (d k : ℕ) → 2 ≤ d → 2 ≤ k → d * k ≢ n
    prime clear d k two two' z = elim (Bool-cases (ltb d j)) [
      | inl e ↦ clear d k (two, ltb→lt d j e, two') z
      | inr e ↦ elim (Bool-cases (ltb k j)) [
        | inl e' ↦ clear k d (two', ltb→lt k j e', two) (mul_comm k d ∙ z)
        | inr e' ↦ absurd (omega (arith, mul-le-mul (ltb→le d j e) (ltb→le k j e'), z))
      ]
    ]

print_on :
    (f max i : ℕ) (p : ℕ → ℕ) (qs : List ℕ)
    → leb i max ≡ true
    → (p i == 0) ≡ false
    → print_rest f max (suc i) p ≡ done qs
    → print_rest (suc f) max i p ≡ done (p i ∷ qs)
unfolding print_rest
print_on f max i p qs inside stands run = rw (inside, stands, run) refl

print_rest-PrimesFrom :
    (f max i j : ℕ) (p : ℕ → ℕ)
    → Sieved max (Below j) p
    → max < j * j
    → 2 ≤ i
    → max + 2 < i + f
    → i ≤ max + 2
    → (qs : List ℕ) × (print_rest f max i p ≡ done qs) × PrimesFrom i max qs
unfolding print_rest
print_rest-PrimesFrom zero max i j p h far two fuel start = absurd (omega arith)
print_rest-PrimesFrom (suc f) max i j p h far two fuel start = elim (Bool-cases (leb i max)) [
  | inr e ↦ ([], rw e refl, (λ n low high. absurd (omega (arith, leb→lt i max e))))
  | inl e ↦
      let inside = leb→le i max e in
      let (qs, run, rest) =
        print_rest-PrimesFrom f max (suc i) j p h far (omega arith) (omega arith) (omega arith) in
      elim (Sieved-IsPrime max j p h far i two inside) [
        | inr (gone, composite) ↦ (qs, rw (e, gone) run, PrimesFrom-lower i max qs composite rest)
        | inl (stands, prime) ↦ (
          p i ∷ qs,
          print_on f max i p qs e (ne→== (p i) 0 (λ z. omega arith)) run,
          subst (λ q. PrimesFrom i max (q ∷ qs)) (sym stands)
              (omega arith, inside, prime, (λ n low high. absurd (omega arith)), rest),
        )
      ]
]

-- If malloc has memory, and the number is at most INT_MAX - 100000, so that no int overflows, the program ends
-- and prints the primes up to the number, all of them and nothing else, in order.
pub print_primes-PrimesFrom :
    (p : ℕ → ℕ) (max : ℕ)
    → max + 100000 ≤ int_max
    → (qs : List ℕ) × (print_primes (some p) max ≡ done (some qs)) × PrimesFrom 2 max qs
unfolding print_primes
print_primes-PrimesFrom p max small =
    let rounds = max + 1 in
    let (p1, filled, numbers, _) = fill-numbers rounds max 2 p (omega arith) (omega arith) in
    let unmarked : Sieved max (Below 2) p1 =
      λ n low high. inl (numbers n low high, (λ d k c z. omega arith)) in
    let (p2, j, sieved, h, far) =
      sieve-Sieved rounds rounds max 2 p1 (omega arith) small (omega arith) (omega arith)
        (omega arith) (omega arith) unmarked in
    let (qs, printed, primes) =
      print_rest-PrimesFrom rounds max 2 j p2 h far (omega arith) (omega arith) (omega arith) in
    (qs, rw (lt→ltb max int_max (omega arith), filled, sieved, printed) refl, primes)
