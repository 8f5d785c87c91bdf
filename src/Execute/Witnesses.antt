-- ===== src/Execute/Witnesses.antt =====
-- The theorem on execute.c at a concrete call.
use sty_linux.Base.{◌≡◌, refl, [], ◌∷◌, arith, inr, done}
use sty_linux.Execute.{Array, execute}
use sty_linux.Execute.Arguments.{Argv, exit_of, execute-exit_of}
use sty_linux.Execute.Tests.{two_args, sample}

execute-exit_of_example :
    (v : Array) × Argv v 5 (10 ∷ 20 ∷ [])
    × (execute sample 10 5 7 two_args ≡ done (exit_of (sample.run 5 v)))
execute-exit_of_example =
    execute-exit_of sample (λ n. (refl, refl)) 10 5 7 two_args (10 ∷ 20 ∷ []) refl refl
      (λ e. omega arith)
      (inr (
        (λ e. omega arith),
        (refl, (λ e. omega arith), (refl, (λ e. omega arith), refl)),
        omega arith,
      ))
