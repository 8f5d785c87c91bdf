-- ===== src/RoundRobin/Tests.antt =====
-- `main` of roundrobin.c, with a `malloc` over the addresses below a capacity.
use sty_linux.Base.{
  ℕ, zero, suc, ◌≡◌, refl, List, [], ◌∷◌, Option, none, some, Run, done, ◌>>=◌, if◌then◌else◌, Bool,
  true, false,
}
use sty_linux.TaskQueue.{Items, Item}
use sty_linux.RoundRobin.{
  Ring, state_new, last_item, set_next_item, list_append_item, list_remove_first_item,
  contains_item, next_task, task_ready, turns,
}

abbrev pub is_free : Option Item → Bool
is_free none = true
is_free (some x) = false

-- The highest free address below `n`, NULL if there is none.
abbrev pub search_free : ℕ → Items → ℕ
search_free zero m = 0
search_free (suc n) m = let rest = search_free n m in if is_free (m n) then n else rest

abbrev pub blank : Ring
blank = record { list_head = 0; items = λ _. none; states = λ _. state_new }

abbrev malloc : Items → ℕ
malloc = search_free 8

main_turns : Run (List ℕ)
main_turns = task_ready 4 (malloc blank.items) 10 blank >>= λ s1.
    task_ready 4 (malloc s1.items) 11 s1 >>= λ s2. task_ready 4 (malloc s2.items) 12 s2 >>= λ s3.
    task_ready 4 (malloc s3.items) 13 s3 >>= λ s4. turns malloc 4 10 s4 >>= λ (ts, s5). done ts

main_turns_lem : main_turns ≡ done (10 ∷ 11 ∷ 12 ∷ 13 ∷ 10 ∷ 11 ∷ 12 ∷ 13 ∷ 10 ∷ 11 ∷ [])
unfolding main_turns last_item set_next_item list_append_item list_remove_first_item contains_item
    next_task task_ready turns
main_turns_lem = refl
