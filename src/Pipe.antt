-- ===== src/Pipe.antt =====
-- `execute` of STY25/vika8/assignment08-templates/p1/pipe.c: a child that is to become another program, and
-- the parent that waits for it, with a pipe between them. Any of the two that can go on makes the next step,
-- and the child may be killed at any time. What the system calls answer is an argument.
pub mod Invariant
pub mod Outcome
mod Tests
mod Witnesses
use sty_linux.Base.{
  ℕ, zero, suc, ◌+◌, ◌≡◌, if◌then◌else◌, Bool, true, false, ◌||◌, List, [], ◌∷◌, ◌++◌, Option, none,
  some, ℤ, pos, negsuc,
}

-- How a process ends: with an exit status, or by a signal.
pub data Status : Type 0 where
  exited : ℕ → Status
  signaled : Status

-- What `execvp` does: the process becomes a program that ends so, or `errno` is set.
pub data Exec : Type 0 where
  replaced : Status → Exec
  refused : ℕ → Exec

-- What the calls answer: `wait` is the `errno` of a `waitpid` that fails. `canceled` is
-- ECANCELED.
pub record Answers : Type 0 where
  pub exec : Exec
  pub wait : Option ℕ
  pub read_works : Bool
  pub canceled : ℕ

-- Where the child is: before its next call, running the program, or at its end.
pub data Child : Type 0 where
  closing_read : Child
  executing : Child
  running : Status → Child
  writing : ℕ → Child
  closing_write : Child
  exiting : Child
  over : Status → Child

-- Where the parent is: `reading` with WEXITSTATUS, and then with what it returns.
pub data Parent : Type 0 where
  closing : Parent
  waiting : Parent
  reading : ℕ → Parent
  finishing : ℤ → Parent
  returned : ℤ → Parent

-- Both processes, the pipe with the numbers in it, whether its ends are open, and the parent's `errno`.
pub record Fork : Type 0 where
  pub child : Child
  pub parent : Parent
  pub buffer : List ℕ
  pub parent_read : Bool
  pub parent_write : Bool
  pub child_read : Bool
  pub child_write : Bool
  pub errno : ℕ

-- At its end a process has no descriptors.
abbrev pub end_child : Status → Fork → Fork
end_child st s = record s { child = over st; child_read = false; child_write = false }

-- `execvp`, where both ends are closed by O_CLOEXEC.
abbrev pub become : Exec → Fork → Option Fork
become (replaced st) s =
    some (record s { child = running st; child_read = false; child_write = false })
become (refused e) s = some (record s { child = writing e })

-- The child's next step, none at its end. Who writes to a pipe that
-- nobody can read is killed.
unfoldable pub child_step : Answers → Child → Fork → Option Fork
child_step a closing_read s = some (record s { child = executing; child_read = false })
child_step a executing s = become a.exec s
child_step a (running st) s = some (end_child st s)
child_step a (writing e) s =
    if s.parent_read || s.child_read
    then some (record s { child = closing_write; buffer = s.buffer ++ e ∷ [] })
    else some (end_child signaled s)
child_step a closing_write s = some (record s { child = exiting; child_write = false })
child_step a exiting s = some (end_child (exited 0) s)
child_step a (over st) s = none

-- `waitpid` where it works: it blocks while the child is not at its end.
abbrev pub wait_child : Answers → Child → Fork → Option Fork
wait_child a (over (exited c)) s = some (record s { parent = reading c })
wait_child a (over signaled) s =
    some (record s { parent = finishing (negsuc 0); errno = a.canceled })
wait_child a closing_read s = none
wait_child a executing s = none
wait_child a (running st) s = none
wait_child a (writing e) s = none
wait_child a closing_write s = none
wait_child a exiting s = none

abbrev pub waitpid : Option ℕ → Answers → Fork → Option Fork
waitpid (some e) a s = some (record s { parent = finishing (negsuc 0); errno = e })
waitpid none a s = wait_child a s.child s

-- `read`, which blocks while the pipe is empty and may still be written to.
abbrev pub read_pipe : ℕ → List ℕ → Fork → Option Fork
read_pipe c (e ∷ es) s = some (record s { parent = finishing (negsuc 0); errno = e; buffer = es })
read_pipe c [] s =
    if s.parent_write || s.child_write then none else some (record s { parent = finishing (pos c) })

unfoldable pub parent_step : Answers → Parent → Fork → Option Fork
parent_step a closing s = some (record s { parent = waiting; parent_write = false })
parent_step a waiting s = waitpid a.wait a s
parent_step a (reading c) s =
    if a.read_works
    then read_pipe c s.buffer s
    else some (record s { parent = finishing (negsuc 0); errno = a.canceled })
parent_step a (finishing r) s = some (record s { parent = returned r; parent_read = false })
parent_step a (returned r) s = none

-- The child is killed, if it has not ended.
unfoldable pub kill_child : Child → Fork → Option Fork
kill_child (over st) s = none
kill_child c s = some (end_child signaled s)

pub data ForkStep (a : Answers) (s : Fork) : Fork → Type 0 where
  child_moves : {s' : Fork} → child_step a s.child s ≡ some s' → ForkStep a s s'
  parent_moves : {s' : Fork} → parent_step a s.parent s ≡ some s' → ForkStep a s s'
  child_dies : {s' : Fork} → kill_child s.child s ≡ some s' → ForkStep a s s'

-- So many steps.
pub data ForkSteps (a : Answers) (s : Fork) : ℕ → Fork → Type 0 where
  stay : ForkSteps a s 0 s
  more : {n : ℕ} {u v : Fork} → ForkSteps a s n u → ForkStep a u v → ForkSteps a s (suc n) v

-- After `fork`.
abbrev pub forked : ℕ → Fork
forked errno = record {
  child = closing_read;
  parent = closing;
  buffer = [];
  parent_read = true;
  parent_write = true;
  child_read = true;
  child_write = true;
  errno = errno;
}

-- How `execute` begins: it returns at once, with so many descriptors still open, or there are two processes.
pub data Begin : Type 0 where
  gives_up : ℤ → (left_open : ℕ) → Begin
  goes_on : Fork → Begin

unfoldable pub execute_begin : (argv_null pipe_works fork_works : Bool) → ℕ → Begin
execute_begin true pipe_works fork_works errno = gives_up (negsuc 0) 0
execute_begin false false fork_works errno = gives_up (negsuc 0) 0
execute_begin false true false errno = gives_up (negsuc 0) 2
execute_begin false true true errno = goes_on (forked errno)
