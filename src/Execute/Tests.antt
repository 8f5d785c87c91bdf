-- ===== src/Execute/Tests.antt =====
-- Runs of execute.c.
use sty_linux.Base.{ℕ, zero, suc, ◌≡◌, refl, true, false, if◌then◌else◌, done, ◌==◌}
use sty_linux.Pipe.{exited, replaced, refused}
use sty_linux.Execute.{Array, store, count_args, copy_args, Host, build_argv, execute}

-- The arguments 10 and 20, and NULL.
abbrev pub two_args : ℕ → ℕ
two_args zero = 10
two_args (suc zero) = 20
two_args (suc (suc n)) = 0

abbrev pub allocate : ℕ → Array
allocate n = record { exists = true; size = n; cells = λ i. 99 }

-- A program that exits with its second argument.
abbrev pub sample : Host
sample = record {
  allocate = allocate;
  fork_works = true;
  wait_works = true;
  run = λ file v. replaced (exited (v.cells 2));
}

abbrev without_memory : Host
without_memory = record sample {
  allocate = λ n. record { exists = false; size = 0; cells = λ i. 0 };
}

second_argument : execute sample 10 5 7 two_args ≡ done 20
unfolding execute build_argv count_args copy_args store
second_argument = refl

no_arguments :
    build_argv sample 10 5 0 two_args
    ≡ store 1 0 (record (allocate 2) { cells = λ i. if i == 0 then 5 else 99 })
unfolding build_argv store
no_arguments = refl

out_of_memory : execute without_memory 10 5 7 two_args ≡ done 127
unfolding execute build_argv count_args copy_args store
out_of_memory = refl

not_found : execute (record sample { run = λ file v. refused 2 }) 10 5 7 two_args ≡ done 127
unfolding execute build_argv count_args copy_args store
not_found = refl

no_program : execute sample 10 0 7 two_args ≡ done 127
unfolding execute
no_program = refl
