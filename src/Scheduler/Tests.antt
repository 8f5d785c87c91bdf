-- ===== src/Scheduler/Tests.antt =====
-- Runs of scheduler.c with two and with three tasks.
use sty_linux.Base.{
  ℕ, zero, suc, ◌+◌, ◌-◌, ◌≡◌, refl, List, [], ◌∷◌, ◌++◌, Run, done, ◌>>=◌, none, ◌==◌,
  if◌then◌else◌, pos, negsuc, update, some,
}
use sty_linux.Memory.{null}
use sty_linux.TaskQueue.{queue, append_item, remove_first_item, item, write}
use sty_linux.Scheduler.{
  Scheduler, state_unused, state_ready, state_running, init_loop, init_scheduler, enqueue,
  on_task_ready, on_task_preempted, take_ready, switch_to, count_run, highest_ready,
  schedule_next_task,
}

-- Task 1 has priority 3, and every other one -5.
abbrev pub blank : Scheduler
blank = record {
  priority_queues = λ p. queue 7 7;
  current_priority = 4;
  same_prio_counter = λ p. 9;
  items = λ a. none;
  tasks =
      λ t. record { state = state_unused; pid = t; priority = if t == 1 then pos 3 else negsuc 4 };
}

abbrev pub begin : Scheduler
begin = init_scheduler blank

-- Schedules, preempts what runs, and again, `n` times; the tasks that ran.
rounds : ℕ → Scheduler → Run (List ℕ)
rounds zero s = done []
rounds (suc n) s = schedule_next_task s >>= λ (t, s1).
    on_task_preempted (99 + t) t s1 >>= λ s2. rounds n s2 >>= λ ts. done (t ∷ ts)

both_ready : Run Scheduler
both_ready = on_task_ready 100 1 begin >>= λ s1. on_task_ready 101 2 s1

-- Task 2 runs four times before task 1 has its turn.
turns : (both_ready >>= λ s. rounds 7 s) ≡ done (2 ∷ 2 ∷ 2 ∷ 2 ∷ 1 ∷ 2 ∷ 2 ∷ [])
unfolding both_ready rounds init_loop init_scheduler enqueue on_task_ready on_task_preempted
    take_ready switch_to count_run highest_ready schedule_next_task append_item remove_first_item
turns = refl

-- The last loop of main.c, where tasks of priority 0, 1 and 5 are always ready: those of priority 0 and
-- 1 take turns, and the one of priority 5 does not run, also where main.c:83 expects it.
abbrev three : Scheduler
three = init_scheduler (record blank {
  tasks = λ t. record {
    state = state_unused;
    pid = t - 1;
    priority = pos (if t == 1 then 0 else if t == 2 then 1 else 5);
  };
})

three_ready : Run Scheduler
three_ready =
    on_task_ready 100 1 three >>= λ s1. on_task_ready 101 2 s1 >>= λ s2. on_task_ready 107 8 s2

abbrev five : List ℕ
five = 1 ∷ 1 ∷ 1 ∷ 1 ∷ 2 ∷ []

main_turns : (three_ready >>= λ s. rounds 20 s) ≡ done (five ++ five ++ five ++ five)
unfolding three_ready rounds init_loop init_scheduler enqueue on_task_ready on_task_preempted
    take_ready switch_to count_run highest_ready schedule_next_task append_item remove_first_item
main_turns = refl

-- The state with task 1 in its queue, and with both.
abbrev pub one : Scheduler
one = record begin {
  priority_queues = update begin.priority_queues 3 (queue 100 100);
  items = write begin.items 100 (some (item 1 null));
  tasks = update begin.tasks 1 (record { state = state_ready; pid = 1; priority = pos 3 });
}

abbrev pub two : Scheduler
two = record one {
  priority_queues = update one.priority_queues 0 (queue 101 101);
  items = write one.items 101 (some (item 2 null));
  tasks = update one.tasks 2 (record { state = state_ready; pid = 2; priority = pos 0 });
}

pub one_lem : on_task_ready 100 1 begin ≡ done one
unfolding init_loop init_scheduler enqueue on_task_ready append_item
one_lem = refl

pub two_lem : on_task_ready 101 2 one ≡ done two
unfolding init_loop init_scheduler enqueue on_task_ready append_item
two_lem = refl

-- Task 2 runs first.
abbrev pub picked : Scheduler
picked = record two {
  priority_queues = update two.priority_queues 0 (queue null null);
  items = write two.items 101 none;
  tasks = update two.tasks 2 (record { state = state_running; pid = 2; priority = pos 0 });
  same_prio_counter = update two.same_prio_counter 0 1;
}

pub picked_lem : schedule_next_task two ≡ done (2, picked)
unfolding init_loop init_scheduler take_ready switch_to count_run highest_ready schedule_next_task
    remove_first_item
picked_lem = refl
