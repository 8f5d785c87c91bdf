-- ===== src/BoundedBuffer.antt =====
-- The bounded buffer of STY25/vika9/Lab/Producer-ConsumerProblem3.c: threads that each call `produce` or
-- `consume` once, in any interleaving. The semaphores and the mutex are those of POSIX: a wait or a lock
-- that cannot go on blocks. What stands between the lock and the unlock is one step.
pub mod Counts
pub mod Invariant
pub mod Safety
pub mod Progress
mod Tests
mod Witnesses
use sty_linux.Base.{
  ℕ, zero, suc, ◌+◌, ◌-◌, ◌==◌, ◌≡◌, if◌then◌else◌, Bool, true, false, List, [], ◌∷◌, ◌++◌, Option,
  none, some, update,
}

abbrev pub buffer_size : ℕ
buffer_size = 10

-- The semaphores, the mutex, the buffer and its index, and the items put and taken, the latest
-- first.
pub record Shared : Type 0 where
  pub empty : ℕ
  pub full : ℕ
  pub mutex : Bool
  pub buffer : ℕ → ℕ
  pub buffer_index : ℕ
  pub produced : List ℕ
  pub consumed : List ℕ

abbrev pub init : (ℕ → ℕ) → Shared
init buffer = record {
  empty = buffer_size;
  full = 0;
  mutex = false;
  buffer = buffer;
  buffer_index = 0;
  produced = [];
  consumed = [];
}

-- How far a call is: before the wait, the lock, the access, the unlock and the post, or at its end.
pub data Stage : Type 0 where
  waits : Stage
  locks : Stage
  accesses : Stage
  unlocks : Stage
  posts : Stage
  returns : Stage

-- A call of `produce`, or of `consume` with its local `item`.
pub data Thread : Type 0 where
  produce : ℕ → Stage → Thread
  consume : ℕ → Stage → Thread

-- The next step of a thread; none where it blocks or is at its end.
unfoldable pub step : Thread → Shared → Option (Thread × Shared)
step (produce v waits) s =
    if s.empty == 0 then none else some (produce v locks, record s { empty = s.empty - 1 })
step (produce v locks) s =
    if s.mutex then none else some (produce v accesses, record s { mutex = true })
step (produce v accesses) s = some (
  produce v unlocks,
  record s {
    buffer = update s.buffer s.buffer_index v;
    buffer_index = suc s.buffer_index;
    produced = v ∷ s.produced;
  },
)
step (produce v unlocks) s = some (produce v posts, record s { mutex = false })
step (produce v posts) s = some (produce v returns, record s { full = s.full + 1 })
step (produce v returns) s = none
step (consume v waits) s =
    if s.full == 0 then none else some (consume v locks, record s { full = s.full - 1 })
step (consume v locks) s =
    if s.mutex then none else some (consume v accesses, record s { mutex = true })
step (consume v accesses) s =
    let item = s.buffer (s.buffer_index - 1) in
    some (
      consume item unlocks,
      record s { buffer_index = s.buffer_index - 1; consumed = item ∷ s.consumed },
    )
step (consume v unlocks) s = some (consume v posts, record s { mutex = false })
step (consume v posts) s = some (consume v returns, record s { empty = s.empty + 1 })
step (consume v returns) s = none

-- A thread, with those on its two sides, makes a step.
pub data Move (s : Shared) (ts : List Thread) (s' : Shared) (ts' : List Thread) : Type 0 where
  moves :
      (xs : List Thread) (t t' : Thread) (ys : List Thread)
      → ts ≡ xs ++ t ∷ ys
      → step t s ≡ some (t', s')
      → ts' ≡ xs ++ t' ∷ ys
      → Move s ts s' ts'

abbrev pub stage : Thread → Stage
stage (produce v x) = x
stage (consume v x) = x

abbrev pub AllStart : List Thread → Type 0
AllStart [] = Unit
AllStart (t ∷ ts) = (stage t ≡ waits) × AllStart ts

-- What the threads reach from the start.
pub data Reachable : Shared → List Thread → Type 0 where
  starts :
      (buffer : ℕ → ℕ) {s : Shared} {ts : List Thread}
      → s ≡ init buffer
      → AllStart ts
      → Reachable s ts
  goes_on :
      (s : Shared) (ts : List Thread) {s' : Shared} {ts' : List Thread}
      → Reachable s ts
      → Move s ts s' ts'
      → Reachable s' ts'
