-- ===== src/Scheduler.antt =====
-- The priority scheduler of STY25/vika3/Passignment03-templates/p1/scheduler.c with scheduler.h.
-- Task pointers are addresses of tasks that exist. `malloc` is not modelled: the address that it
-- returns is the argument `fresh`. An index outside an array faults.
pub mod Invariant
pub mod Enqueue
pub mod Ready
pub mod Pick
pub mod Counts
pub mod Next
pub mod Events
pub mod Reach
pub mod Fair
pub mod Init
mod Tests
mod Witnesses
use sty_linux.Base.{
  ℕ, zero, suc, ◌+◌, ◌-◌, ◌==◌, ltb, leb, if◌then◌else◌, Bool, true, false, Run, done, fault, ◌>>=◌,
  update, ℤ, pos, negsuc,
}
use sty_linux.Memory.{null}
use sty_linux.TaskQueue.{Queue, queue, Items, append_item, remove_first_item}

-- `MAX_PRIORITY` and `MAX_SAMEPRIO_LENGTH`
abbrev pub max_priority : ℕ
max_priority = 10

abbrev pub max_sameprio_length : ℕ
max_sameprio_length = 4

pub data TaskState : Type 0 where
  state_unused : TaskState
  state_ready : TaskState
  state_running : TaskState
  state_waiting : TaskState
  state_terminated : TaskState

-- `struct Task`, less the name.
pub record Task : Type 0 where
  pub state : TaskState
  pub pid : ℕ
  pub priority : ℤ

-- The queues and counters of the priorities, the items of the queues, and the tasks.
pub record Scheduler : Type 0 where
  pub priority_queues : ℕ → Queue
  pub current_priority : ℕ
  pub same_prio_counter : ℕ → ℕ
  pub items : Items
  pub tasks : ℕ → Task

-- `task->state == STATE_READY` and `task->state == STATE_RUNNING`
abbrev pub is_ready : TaskState → Bool
is_ready state_ready = true
is_ready state_unused = false
is_ready state_running = false
is_ready state_waiting = false
is_ready state_terminated = false

abbrev pub is_running : TaskState → Bool
is_running state_running = true
is_running state_unused = false
is_running state_ready = false
is_running state_waiting = false
is_running state_terminated = false

-- `task->state = x`
abbrev pub set_state : ℕ → TaskState → Scheduler → Scheduler
set_state t x s = record s { tasks = update s.tasks t (record (s.tasks t) { state = x }) }

-- The loop of `initScheduler`, from index `i`.
unfoldable pub init_loop : (rounds i : ℕ) → Scheduler → Scheduler
init_loop zero i s = s
init_loop (suc n) i s = init_loop n (suc i) (record s {
  priority_queues = update s.priority_queues i (queue null null);
  same_prio_counter = update s.same_prio_counter i 0;
})

unfoldable pub init_scheduler : Scheduler → Scheduler
init_scheduler s = record (init_loop (max_priority + 1) 0 s) { current_priority = 0 }

-- `appendItem(&priorityQueues[priority], task)`
unfoldable pub enqueue : ℤ → (fresh t : ℕ) → Scheduler → Run Scheduler
enqueue (negsuc n) fresh t s = fault
enqueue (pos p) fresh t s =
    if ltb max_priority p
    then fault
    else (append_item fresh (s.priority_queues p) t s.items >>= λ (q, m).
        done (record s { priority_queues = update s.priority_queues p q; items = m }))

abbrev pub clamp : ℤ → ℤ
clamp (negsuc n) = pos 0
clamp (pos p) = if ltb max_priority p then pos max_priority else pos p

unfoldable pub on_task_ready : (fresh t : ℕ) → Scheduler → Run Scheduler
on_task_ready fresh t s =
    let x = s.tasks t in
    let y = record x { priority = clamp x.priority; state = state_ready } in
    if is_ready x.state
    then done s
    else enqueue (clamp x.priority) fresh t (record s { tasks = update s.tasks t y })

unfoldable pub on_task_preempted : (fresh t : ℕ) → Scheduler → Run Scheduler
on_task_preempted fresh t s =
    if is_running (s.tasks t).state
    then enqueue (s.tasks t).priority fresh t (set_state t state_ready s)
    else done s

unfoldable pub on_task_waiting : ℕ → Scheduler → Scheduler
on_task_waiting t s = if is_running (s.tasks t).state then set_state t state_waiting s else s

-- A loop of `scheduleNextTask` over the priorities from `p`: the first task and its priority. Where it
-- finds none, it ends with NULL.
unfoldable pub take_ready : (rounds p : ℕ) → Scheduler → Run (ℕ × ℕ × Scheduler)
take_ready zero p s = done (null, p, s)
take_ready (suc n) p s =
    let skip = take_ready n (suc p) s in
    if (s.priority_queues p).head == null
    then skip
    else (remove_first_item (s.priority_queues p) s.items >>= λ (t, q, m).
        let s1 = record s { priority_queues = update s.priority_queues p q; items = m } in
        if t == null then take_ready n (suc p) s1 else done (t, p, s1))

-- The body of the first loop for a task of priority `p`.
unfoldable pub switch_to : (p : ℕ) → Scheduler → Scheduler
switch_to p s = record s {
  same_prio_counter = update (update s.same_prio_counter s.current_priority 0) p 1;
  current_priority = p;
}

-- The body of the second loop.
unfoldable pub count_run : (p : ℕ) → Scheduler → Scheduler
count_run p s =
    if p == s.current_priority
    then record s { same_prio_counter = update s.same_prio_counter p (s.same_prio_counter p + 1) }
    else switch_to p s

-- The second loop.
unfoldable pub highest_ready : Scheduler → Run (ℕ × Scheduler)
highest_ready s = take_ready (max_priority + 1) 0 s >>= λ (t, p, s1).
    done (if t == null then (null, s1) else (t, set_state t state_running (count_run p s1)))

unfoldable pub schedule_next_task : Scheduler → Run (ℕ × Scheduler)
schedule_next_task s =
    let lower = suc s.current_priority in
    let reset = λ (s1 : Scheduler). record s1 {
      same_prio_counter = update s1.same_prio_counter s1.current_priority 0;
    } in
    if leb max_sameprio_length (s.same_prio_counter s.current_priority)
    then (take_ready (max_priority + 1 - lower) lower s >>= λ (t, p, s1).
        if t == null
        then highest_ready (reset s1)
        else done (t, set_state t state_running (switch_to p s1)))
    else highest_ready s
