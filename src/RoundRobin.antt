-- ===== src/RoundRobin.antt =====
-- The round-robin scheduler of STY25/vika3/LABtutorial-03/roundrobin.c with scheduler.h, whose list
-- functions are those of list.c. Items are as in TaskQueue. The loops over the list take `rounds` at most.
-- `malloc` is a parameter: it answers from the items in use.
pub mod Laws
pub mod Turns
mod Tests
mod Witnesses
use sty_linux.Base.{
  ℕ, zero, suc, ◌==◌, if◌then◌else◌, Bool, true, false, Option, none, some, List, [], ◌∷◌, Run,
  done, fault, out_of_fuel, ◌>>=◌, update,
}
use sty_linux.Memory.{null}
use sty_linux.TaskQueue.{Items, item, write}

-- `TaskState`
pub data State : Type 0 where
  state_new : State
  state_ready : State
  state_running : State
  state_waiting : State
  state_terminated : State

-- `listHead`, the items, and the states of the tasks.
pub record Ring : Type 0 where
  pub list_head : ℕ
  pub items : Items
  pub states : ℕ → State

-- The loop of `appendItem`, to the last item.
unfoldable pub last_item : (rounds temp : ℕ) → Items → Run ℕ
last_item zero temp m = out_of_fuel
last_item (suc n) temp m = elim (m temp) [
  | none ↦ fault
  | some x ↦ let rest = last_item n x.next m in if x.next == null then done temp else rest
]

-- `tempItem->next = q`
unfoldable pub set_next_item : ℕ → ℕ → Items → Run Items
set_next_item p q m = elim (m p) [
  | none ↦ fault
  | some x ↦ done (write m p (some (item x.content q)))
]

unfoldable pub list_append_item : (rounds fresh t : ℕ) → Ring → Run Ring
list_append_item rounds fresh t s =
    let m1 = write s.items fresh (some (item t null)) in
    if fresh == null
    then done s
    else if s.list_head == null
    then done (record s { list_head = fresh; items = m1 })
    else (last_item rounds s.list_head m1 >>= λ last.
        set_next_item last fresh m1 >>= λ m2. done (record s { items = m2 }))

unfoldable pub list_remove_first_item : Ring → Run (ℕ × Ring)
list_remove_first_item s =
    if s.list_head == null then done (null, s) else elim (s.items s.list_head) [
      | none ↦ fault
      | some x ↦
          done (x.content, record s { list_head = x.next; items = write s.items s.list_head none })
    ]

unfoldable pub contains_item : (rounds temp t : ℕ) → Items → Run Bool
contains_item zero temp t m = out_of_fuel
contains_item (suc n) temp t m = if temp == null then done false else elim (m temp) [
  | none ↦ fault
  | some x ↦ let rest = contains_item n x.next t m in if x.content == t then done true else rest
]

abbrev pub is_empty : Ring → Bool
is_empty s = s.list_head == null

unfoldable pub next_task : Ring → Run (ℕ × Ring)
next_task s = if is_empty s then done (null, s) else list_remove_first_item s

-- `task->state` of NULL faults.
unfoldable pub task_ready : (rounds fresh t : ℕ) → Ring → Run Ring
task_ready rounds fresh t s =
    let s1 = record s { states = update s.states t state_ready } in
    let queued =
      (contains_item rounds s1.list_head t s1.items >>= λ found.
      if found then done s1 else list_append_item rounds fresh t s1) in
    if t == null then fault else queued

module _ (malloc : Items → ℕ) where
  -- `n` rounds of the loop of `main`, and the tasks that they ran.
  unfoldable pub turns : (rounds n : ℕ) → Ring → Run (List ℕ × Ring)
  turns rounds zero s = done ([], s)
  turns rounds (suc n) s = next_task s >>= λ (t, s1).
      task_ready rounds (malloc s1.items) t s1 >>= λ s2.
      turns rounds n s2 >>= λ (ts, s3). done (t ∷ ts, s3)
