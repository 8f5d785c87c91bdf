-- ===== src/Execute/Arguments.antt =====
-- The arguments that execute.c gives to the program, and what it returns.
use sty_linux.Base.{
  ℕ, zero, suc, ◌+◌, ◌≡◌, ◌≢◌, ◌≤◌, ◌<◌, ◌⊎◌, refl, sym, ap, ◌∙◌, ◌==◌, true, List, [], ◌∷◌, length,
  done, ◌>>=◌, update, update_self, update_other, arith, ne→==, lt→ltb, Bool-cases, ==→eq, inl, inr,
}
use sty_linux.Memory.{null}
use sty_linux.Pipe.{exited, signaled, Exec, replaced, refused}
use sty_linux.Execute.{
  error_code, Array, store, count_args, copy_args, Host, build_argv, after_exec, wait_result,
  execute,
}

-- From `i` on the array has the pointers `xs`, and then NULL.
abbrev pub Listed : (ℕ → ℕ) → ℕ → List ℕ → Type 0
Listed v i [] = v i ≡ null
Listed v i (x ∷ xs) = (v i ≡ x) × (x ≢ null) × Listed v (suc i) xs

store-done :
    (i x : ℕ) (v : Array)
    → v.exists ≡ true
    → i < v.size
    → store i x v ≡ done (record v { cells = update v.cells i x })
unfolding store
store-done i x v e inside = rw (e, lt→ltb i v.size inside)

count_args-length :
    (f : ℕ) (argv : ℕ → ℕ) (i : ℕ) (xs : List ℕ)
    → Listed argv i xs
    → length xs < f
    → count_args f argv i ≡ done (i + length xs)
unfolding count_args
count_args-length zero argv i xs h fuel = absurd (omega arith)
count_args-length (suc f) argv i [] h fuel =
    let here : i ≡ i + 0 = omega arith in rw h (ap done here)
count_args-length (suc f) argv i (x ∷ xs) h fuel =
    let there : suc i + length xs ≡ i + length (x ∷ xs) = omega arith in
    rw (h.0, ne→== x null h.1)
      (count_args-length f argv (suc i) xs h.2 (omega arith) ∙ ap done there)

-- What the loop leaves.
record Copied (argv : ℕ → ℕ) (i n : ℕ) (v v' : Array) : Type 0 where
  exists : v'.exists ≡ true
  size : v'.size ≡ v.size
  taken : (k : ℕ) → i ≤ k → k < i + n → v'.cells (suc k) ≡ argv k
  others : (k : ℕ) → k ≤ i → v'.cells k ≡ v.cells k

copy_args-Copied :
    (n : ℕ) (argv : ℕ → ℕ) (i : ℕ) (v : Array)
    → v.exists ≡ true
    → i + n < v.size
    → (v' : Array) × (copy_args n argv i v ≡ done v') × Copied argv i n v v'
unfolding copy_args
copy_args-Copied zero argv i v e room = (
  v,
  refl,
  record {
    exists = e;
    size = refl;
    taken = λ k low high. absurd (omega arith);
    others = λ k low. refl;
  },
)
copy_args-Copied (suc n) argv i v e room =
    let v1 : Array = record v { cells = update v.cells (i + 1) (argv i) } in
    let (v', runs, copied) = copy_args-Copied n argv (suc i) v1 e (omega arith) in
    (
      v',
      rw (store-done (i + 1) (argv i) v e (omega arith)) runs,
      record {
        exists = copied.exists;
        size = copied.size;
        taken = λ k low high. elim (Bool-cases (k == i)) [
          | inl z ↦
              let here : suc k ≡ i + 1 = omega (arith, ==→eq k i z) in
              copied.others (suc k) (omega (arith, here))
              ∙ ap (update v.cells (i + 1) (argv i)) here
              ∙ update_self v.cells (i + 1) (argv i)
              ∙ ap argv (sym (==→eq k i z))
          | inr z ↦ copied.taken k (ground arith) (omega arith)
        ];
        others = λ k low.
            copied.others k (omega arith)
            ∙ update_other v.cells (i + 1) (argv i) k (λ z. omega arith);
      },
    )

-- Where the cells behind `i` are those from `i` on of the other array, both list the same.
Listed-shift :
    (argv cells : ℕ → ℕ) (i : ℕ) (xs : List ℕ)
    → ((k : ℕ) → i ≤ k → k < i + length xs → cells (suc k) ≡ argv k)
    → cells (suc (i + length xs)) ≡ null
    → Listed argv i xs
    → Listed cells (suc i) xs
Listed-shift argv cells i [] same end h =
    let here : suc i ≡ suc (i + 0) = omega arith in ap cells here ∙ end
Listed-shift argv cells i (x ∷ xs) same end h =
    let there : suc (suc i + length xs) ≡ suc (i + length (x ∷ xs)) = omega arith in
    (
      same i (omega arith) (omega arith) ∙ h.0,
      h.1,
      Listed-shift argv cells (suc i) xs (λ k low high. same k (omega arith) (omega arith))
          (ap cells there ∙ end) h.2,
    )

-- The arguments `xs` that a caller gives: NULL for none, or an array with NULL behind them.
abbrev pub Given : (limit args : ℕ) → (ℕ → ℕ) → List ℕ → Type 0
Given limit args argv xs =
    ((args ≡ null) × (xs ≡ [])) ⊎ ((args ≢ null) × Listed argv 0 xs × (length xs < limit))

-- What the caller hears of the program: its exit status, and 127 if it was killed or never ran.
abbrev pub exit_of : Exec → ℕ
exit_of (replaced (exited c)) = c
exit_of (replaced signaled) = 127
exit_of (refused e) = 127

-- An array of the program and its arguments, with NULL behind them at its end.
abbrev pub Argv : Array → ℕ → List ℕ → Type 0
Argv v file xs = (v.size ≡ length xs + 2) × Listed v.cells 0 (file ∷ xs)

module _ (sys : Host)
    (memory : (n : ℕ) → ((sys.allocate n).exists ≡ true) × ((sys.allocate n).size ≡ n)) where
  alone-Argv :
      (file : ℕ)
      → file ≢ null
      → (v : Array) × ((store 0 file (sys.allocate 2) >>= store 1 null) ≡ done v) × Argv v file []
  alone-Argv file given =
      let v0 = sys.allocate 2 in
      let (exists, size) = memory 2 in
      let v1 : Array = record v0 { cells = update v0.cells 0 file } in
      (
        record v1 { cells = update v1.cells 1 null },
        rw
            (
              store-done 0 file v0 exists (omega (arith, size)),
              store-done 1 null v1 exists (omega (arith, size)),
            )
            refl,
        (size, (refl, given, refl)),
      )

  copied-Argv :
      (limit file : ℕ) (argv : ℕ → ℕ) (xs : List ℕ)
      → file ≢ null
      → Listed argv 0 xs
      → length xs < limit
      → (v : Array) × ((count_args limit argv 0 >>= λ argc.
            store 0 file (sys.allocate (argc + 2)) >>= λ v1.
            copy_args argc argv 0 v1 >>= λ v2. store (argc + 1) null v2)
          ≡ done v)
        × Argv v file xs
  copied-Argv limit file argv xs given listed fuel =
      let n = length xs in
      let v0 = sys.allocate (n + 2) in
      let (exists, size) = memory (n + 2) in
      let v1 : Array = record v0 { cells = update v0.cells 0 file } in
      let (v2, runs, copied) = copy_args-Copied n argv 0 v1 exists (omega (arith, size)) in
      let counted : count_args limit argv 0 ≡ done n =
        count_args-length limit argv 0 xs listed fuel
        ∙ ap done (let here : 0 + n ≡ n = omega arith in here) in
      let cells = update v2.cells (n + 1) null in
      (
        record v2 { cells = cells },
        rw
            (
              counted,
              store-done 0 file v0 exists (omega (arith, size)),
              runs,
              store-done (n + 1) null v2 copied.exists (omega (arith, size, copied.size)),
            )
            refl,
        (
          copied.size ∙ size,
          (
            update_other v2.cells (n + 1) null 0 (λ e. omega arith)
                ∙ copied.others 0 (omega arith)
                ∙ update_self v0.cells 0 file,
            given,
            Listed-shift argv cells 0 xs
                (λ k low high.
                  update_other v2.cells (n + 1) null (suc k) (λ e. omega arith)
                  ∙ copied.taken k low high)
                (ap cells (let there : suc (0 + n) ≡ n + 1 = omega arith in there)
                  ∙ update_self v2.cells (n + 1) null)
                listed,
          ),
        ),
      )

  build_argv-Argv :
      (limit file args : ℕ) (argv : ℕ → ℕ) (xs : List ℕ)
      → file ≢ null
      → Given limit args argv xs
      → (v : Array) × (build_argv sys limit file args argv ≡ done v) × Argv v file xs
  unfolding build_argv
  build_argv-Argv limit file args argv xs named (inl (none_given, empty)) =
      let (v, runs, good) = alone-Argv file named in rw (none_given, empty) (v, runs, good)
  build_argv-Argv limit file args argv xs named (inr (some_given, listed, fuel)) =
      let (v, runs, good) = copied-Argv limit file argv xs named listed fuel in
      rw (ne→== args null some_given) (v, runs, good)

  result-exit_of : (x : Exec) → wait_result (after_exec x) ≡ exit_of x
  result-exit_of (replaced (exited c)) = elim (Bool-cases (c == error_code)) [
    | inl e ↦ rw e (sym (==→eq c error_code e))
    | inr e ↦ rw e refl
  ]
  result-exit_of (replaced signaled) = refl
  result-exit_of (refused e) = refl

  execute-run :
      (limit file args : ℕ) (argv : ℕ → ℕ) (v : Array)
      → sys.fork_works ≡ true
      → sys.wait_works ≡ true
      → file ≢ null
      → build_argv sys limit file args argv ≡ done v
      → execute sys limit file args argv ≡ done (exit_of (sys.run file v))
  unfolding execute
  execute-run limit file args argv v forks waits named runs =
      rw (ne→== file null named, runs, forks, waits) (ap done (result-exit_of (sys.run file v)))

  -- If the program is named, fork and waitpid work, malloc has memory, and the arguments are none or end with
  -- NULL below the limit, the child writes only inside its array, which then lists the program, the
  -- arguments and NULL at its end, and execute returns the exit status of what execvp makes of it, and 127
  -- if the program is killed or does not run.
  pub execute-exit_of :
      (limit file args : ℕ) (argv : ℕ → ℕ) (xs : List ℕ)
      → sys.fork_works ≡ true
      → sys.wait_works ≡ true
      → file ≢ null
      → Given limit args argv xs
      → (v : Array) × Argv v file xs
        × (execute sys limit file args argv ≡ done (exit_of (sys.run file v)))
  execute-exit_of limit file args argv xs forks waits named given =
      let (v, runs, good) = build_argv-Argv limit file args argv xs named given in
      (v, good, execute-run limit file args argv v forks waits named runs)
