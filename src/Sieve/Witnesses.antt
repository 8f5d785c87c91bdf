-- ===== src/Sieve/Witnesses.antt =====
-- The theorem on malloc2.c at a concrete number.
use sty_linux.Base.{ℕ, ◌≡◌, List, some, done, arith}
use sty_linux.Sieve.{print_primes}
use sty_linux.Sieve.Primes.{PrimesFrom, print_primes-PrimesFrom}
use sty_linux.Sieve.Tests.{garbage}

print_primes-PrimesFrom_example :
    (qs : List ℕ) × (print_primes (some garbage) 12 ≡ done (some qs)) × PrimesFrom 2 12 qs
print_primes-PrimesFrom_example = print_primes-PrimesFrom garbage 12 (omega arith)
