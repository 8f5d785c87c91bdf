-- ===== src/Sieve/Tests.antt =====
-- Runs of malloc2.c.
use sty_linux.Base.{ℕ, ◌≡◌, refl, [], ◌∷◌, none, some, done, fault}
use sty_linux.Sieve.{int_max, fill, mark, sieve, print_rest, print_primes}

-- What the memory holds at first.
abbrev pub garbage : ℕ → ℕ
garbage n = 99

to_twelve : print_primes (some garbage) 12 ≡ done (some (2 ∷ 3 ∷ 5 ∷ 7 ∷ 11 ∷ []))
unfolding print_primes fill mark sieve print_rest
to_twelve = refl

to_one : print_primes (some garbage) 1 ≡ done (some [])
unfolding print_primes fill mark sieve print_rest
to_one = refl

no_memory : print_primes none 12 ≡ done none
unfolding print_primes
no_memory = refl

-- `max + 1` overflows.
too_large : print_primes (some garbage) int_max ≡ fault
unfolding print_primes
too_large = refl
