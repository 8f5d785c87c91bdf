-- ===== src/Execute.antt =====
-- `execute` of STY25/vika2/assignment02-templates/p2/execute.c: a child builds the arguments of a program and
-- becomes it, and the parent waits. What malloc, fork, execvp and waitpid do is an argument. A write through
-- NULL or outside the array is a fault, of which the child dies.
pub mod Arguments
mod Tests
mod Witnesses
use sty_linux.Base.{
  ℕ, zero, suc, ◌+◌, ◌==◌, ltb, if◌then◌else◌, Bool, true, false, Run, done, fault, out_of_fuel,
  ◌>>=◌, update,
}
use sty_linux.Memory.{null}
use sty_linux.Pipe.{Status, exited, signaled, Exec, replaced, refused}

-- `ERROR_CODE`
abbrev pub error_code : ℕ
error_code = 127

-- `new_argv`, with its number of pointers; `exists` is false if malloc has returned NULL.
pub record Array : Type 0 where
  pub exists : Bool
  pub size : ℕ
  pub cells : ℕ → ℕ

unfoldable pub store : ℕ → ℕ → Array → Run Array
store i x v =
    if v.exists
    then (if ltb i v.size then done (record v { cells = update v.cells i x }) else fault)
    else fault

-- `while (argv[argc] != NULL) argc++`
unfoldable pub count_args : ℕ → (ℕ → ℕ) → ℕ → Run ℕ
count_args zero argv argc = out_of_fuel
count_args (suc f) argv argc =
    let rest = count_args f argv (suc argc) in if argv argc == null then done argc else rest

-- The loop over the arguments from `i` on, so many.
unfoldable pub copy_args : ℕ → (ℕ → ℕ) → ℕ → Array → Run Array
copy_args zero argv i v = done v
copy_args (suc n) argv i v = store (i + 1) (argv i) v >>= λ v1. copy_args n argv (suc i) v1

-- What the system does: `allocate` is malloc for so many pointers, `run` is `execvp`.
pub record Host : Type 0 where
  pub allocate : ℕ → Array
  pub fork_works : Bool
  pub wait_works : Bool
  pub run : (file : ℕ) → Array → Exec

-- How the child ends. Where `execvp` fails it exits.
abbrev pub after_exec : Exec → Status
after_exec (replaced st) = st
after_exec (refused e) = exited error_code

abbrev pub wait_result : Status → ℕ
wait_result (exited c) = if c == error_code then error_code else c
wait_result signaled = error_code

module _ (sys : Host) where
  -- `argv` is at `args`; an argument list has fewer than `limit` entries.
  unfoldable pub build_argv : (limit file args : ℕ) → (ℕ → ℕ) → Run Array
  build_argv limit file args argv =
      let alone = (store 0 file (sys.allocate 2) >>= λ v1. store 1 null v1) in
      let copied =
        (count_args limit argv 0 >>= λ argc. store 0 file (sys.allocate (argc + 2)) >>= λ v1.
        copy_args argc argv 0 v1 >>= λ v2. store (argc + 1) null v2) in
      if args == null then alone else copied

  abbrev pub child_end : ℕ → Run Array → Run Status
  child_end file (done v) = done (after_exec (sys.run file v))
  child_end file fault = done signaled
  child_end file out_of_fuel = out_of_fuel

  unfoldable pub execute : (limit file args : ℕ) → (ℕ → ℕ) → Run ℕ
  execute limit file args argv =
      let parent =
        (child_end file (build_argv limit file args argv) >>= λ st.
        done (if sys.wait_works then wait_result st else error_code)) in
      if file == null then done error_code else if sys.fork_works then parent else done error_code
