-- ===== src/TaskQueue.antt =====
-- The ready queues of STY25/vika3/Passignment03-templates/p1/scheduler.c: linked lists with a head and
-- a tail. `malloc` is not modelled: the address that it returns, NULL on failure, is an argument.
pub mod Laws
use sty_linux.Base.{ℕ, ◌==◌, if◌then◌else◌, Option, none, some, Run, done, fault}
use sty_linux.Memory.{null}

-- `struct QueueItem`
pub record Item : Type 0 where
  pub content : ℕ
  pub next : ℕ

abbrev pub item : ℕ → ℕ → Item
item d q = record { content = d; next = q }

-- What `malloc` has given out and `free` not taken back.
abbrev pub Items : Type 0
Items = ℕ → Option Item

abbrev pub write : Items → ℕ → Option Item → Items
write m a c x = if x == a then c else m x

-- `struct Queue`
pub record Queue : Type 0 where
  pub head : ℕ
  pub tail : ℕ

abbrev pub queue : ℕ → ℕ → Queue
queue h t = record { head = h; tail = t }

-- An access through a pointer that holds no item faults.
unfoldable pub append_item : (fresh : ℕ) → Queue → ℕ → Items → Run (Queue × Items)
append_item fresh q d m =
    let m1 = write m fresh (some (item d null)) in
    if fresh == null
    then done (q, m)
    else if q.tail == null
    then done (queue fresh fresh, m1)
    else elim (m1 q.tail) [
      | none ↦ fault
      | some last ↦ done (queue q.head fresh, write m1 q.tail (some (item last.content fresh)))
    ]

unfoldable pub remove_first_item : Queue → Items → Run (ℕ × Queue × Items)
remove_first_item q m = if q.head == null then done (null, q, m) else elim (m q.head) [
  | none ↦ fault
  | some first ↦ done (
    first.content,
    (if first.next == null then queue null null else queue first.next q.tail),
    write m q.head none,
  )
]
