-- ===== src/Sieve.antt =====
-- `main` of STY25/vika2/templates-solution-tut02/p1/malloc2.c, a sieve for prime numbers, for a number that is not
-- negative. An `int` that overflows is a fault; the array is a function, read and written at most at `max`.
pub mod Marks
pub mod Rows
pub mod Primes
mod Tests
mod Witnesses
use sty_linux.Base.{
  ℕ, zero, suc, ◌+◌, ◌-◌, ◌*◌, ◌^◌, ◌==◌, ltb, leb, if◌then◌else◌, Bool, true, false, List, [], ◌∷◌,
  Option, none, some, Run, done, fault, out_of_fuel, ◌>>=◌, update,
}

abbrev pub int_max : ℕ
int_max = 2 ^ 31 - 1

-- `for(i = 2; i<=max; i++) primes[i] = i`
unfoldable pub fill : ℕ → (max i : ℕ) → (ℕ → ℕ) → Run (ℕ → ℕ)
fill zero max i p = out_of_fuel
fill (suc f) max i p =
    let rest = fill f max (suc i) (update p i i) in if leb i max then rest else done p

-- The loop over `j`.
unfoldable pub mark : ℕ → (max i j : ℕ) → (ℕ → ℕ) → Run (ℕ → ℕ)
mark zero max i j p = out_of_fuel
mark (suc f) max i j p =
    let rest = mark f max i (suc j) (update p (p i * j) 0) in
    if ltb j max
    then (if ltb int_max (p i * j) then fault else if ltb max (p i * j) then done p else rest)
    else done p

-- The loop over `i`; the inner one gets `rounds` rounds.
unfoldable pub sieve : (rounds : ℕ) → ℕ → (max i : ℕ) → (ℕ → ℕ) → Run (ℕ → ℕ)
sieve rounds zero max i p = out_of_fuel
sieve rounds (suc f) max i p =
    let marked = (mark rounds max i 2 p >>= λ p1. sieve rounds f max (suc i) p1) in
    let next = sieve rounds f max (suc i) p in
    if ltb int_max (i * i)
    then fault
    else if leb (i * i) max
    then (if p i == 0 then next else marked)
    else done p

-- What is printed.
unfoldable pub print_rest : ℕ → (max i : ℕ) → (ℕ → ℕ) → Run (List ℕ)
print_rest zero max i p = out_of_fuel
print_rest (suc f) max i p =
    let rest = print_rest f max (suc i) p in
    if leb i max then (if p i == 0 then rest else (rest >>= λ out. done (p i ∷ out))) else done []

-- `memory` is what malloc gives, none if it has no memory for `max + 1` numbers.
unfoldable pub print_primes : (memory : Option (ℕ → ℕ)) → ℕ → Run (Option (List ℕ))
print_primes none max = if ltb max int_max then done none else fault
print_primes (some p) max =
    let rounds = max + 1 in
    let run =
      (fill rounds max 2 p >>= λ p1. sieve rounds rounds max 2 p1 >>= λ p2.
      print_rest rounds max 2 p2 >>= λ out. done (some out)) in
    if ltb max int_max then run else fault
