-- ===== src/Scheduler/Ready.antt =====
-- The functions of scheduler.c that put a task into the queue of its priority.
use sty_linux.Base.{
  ℕ, ◌≤◌, ◌≡◌, ◌≢◌, refl, ap, ◌∙◌, arith, none, inl, inr, Bool-cases, ltb, le→ltb, ltb→le, ◌⊎◌,
  if◌then◌else◌, update, update_self, update-All, ℤ, pos, negsuc, true, false, done,
}
use sty_linux.Memory.{null}
use sty_linux.TaskQueue.Laws.{Cells, append_item-null}
use sty_linux.Scheduler.{
  Task, TaskState, state_unused, state_ready, state_running, state_waiting, state_terminated,
  Scheduler, max_priority, enqueue, on_task_ready, on_task_preempted, on_task_waiting, clamp,
  is_ready, is_running, set_state,
}
use sty_linux.Scheduler.Invariant.{IsScheduler, Listed-update}
use sty_linux.Scheduler.Enqueue.{unlisted, Enqueued, enqueue-Queued}

-- The priority in range that is nearest.
abbrev pub level : ℤ → ℕ
level (negsuc n) = 0
level (pos p) = if ltb max_priority p then max_priority else p

pub clamp_lem : (z : ℤ) → (clamp z ≡ pos (level z)) × (level z ≤ max_priority)
clamp_lem (negsuc n) = (refl, omega arith)
clamp_lem (pos p) = elim (Bool-cases (ltb max_priority p)) [
  | inl e ↦ rw e (refl, omega arith)
  | inr e ↦ rw e (refl, ltb→le max_priority p e)
]

pub ne_ready : (x : TaskState) → x ≢ state_ready → is_ready x ≡ false
ne_ready state_unused ne = refl
ne_ready state_ready ne = absurd (ne refl)
ne_ready state_running ne = refl
ne_ready state_waiting ne = refl
ne_ready state_terminated ne = refl

pub running_ne : (x : TaskState) → x ≡ state_running → x ≢ state_ready
running_ne x e f = cc

-- If the task is not ready and `malloc` gives an address that is not in use, onTaskReady sets its
-- priority to the nearest in range and its state to ready, puts it at the end of the queue of that
-- priority, leaves every other task and the counts as they are, and keeps the scheduler well formed.
pub on_task_ready-Queued :
    (fresh t : ℕ) (s : Scheduler) (ready : ℕ → Cells)
    → IsScheduler s ready
    → t ≢ null
    → (s.tasks t).state ≢ state_ready
    → fresh ≢ null
    → s.items fresh ≡ none
    → let p = level (s.tasks t).priority in
      Enqueued fresh t p
        (record { state = state_ready; pid = (s.tasks t).pid; priority = pos p })
        s
        ready
        (on_task_ready fresh t s)
unfolding on_task_ready
on_task_ready-Queued fresh t s ready is t_ne state ne free =
    let p = level (s.tasks t).priority in
    let range = clamp_lem (s.tasks t).priority in
    let y : Task = record { state = state_ready; pid = (s.tasks t).pid; priority = pos p } in
    let (s', runs, is', tasks, counts) =
      enqueue-Queued fresh t p y s ready is range.1 t_ne state refl refl ne free in
    (s', rw (ne_ready (s.tasks t).state state, range.0) runs, is', tasks, counts)

-- A running task that is preempted is put, in state ready, at the end of the queue of its priority, if
-- `malloc` gives an address that is not in use. Every other task and the counts stay as they are, and
-- the scheduler stays well formed.
pub on_task_preempted-Queued :
    (fresh t p : ℕ) (s : Scheduler) (ready : ℕ → Cells)
    → IsScheduler s ready
    → t ≢ null
    → (s.tasks t).state ≡ state_running
    → (s.tasks t).priority ≡ pos p
    → p ≤ max_priority
    → fresh ≢ null
    → s.items fresh ≡ none
    → Enqueued fresh t p
        (record (s.tasks t) { state = state_ready })
        s
        ready
        (on_task_preempted fresh t s)
unfolding on_task_preempted
on_task_preempted-Queued fresh t p s ready is t_ne state priority bound ne free =
    let (s', runs, is', tasks, counts) =
      enqueue-Queued fresh t p (record (s.tasks t) { state = state_ready }) s ready is bound t_ne
        (running_ne (s.tasks t).state state) refl priority ne free in
    let running : is_running (s.tasks t).state ≡ true = ap is_running state in
    (
      s',
      rw running (ap (λ z. enqueue z fresh t (set_state t state_ready s)) priority ∙ runs),
      is',
      tasks,
      counts,
    )

-- onTaskWaiting keeps the scheduler well formed, with the same lists of ready tasks.
pub on_task_waiting-IsScheduler :
    (t : ℕ) (s : Scheduler) (ready : ℕ → Cells)
    → IsScheduler s ready
    → IsScheduler (on_task_waiting t s) ready
unfolding on_task_waiting
on_task_waiting-IsScheduler t s ready is = elim (running-cases (s.tasks t).state) [
  | inl e ↦ rw (ap is_running e) (record {
    queued = record {
      queue_at = is.queued.queue_at;
      apart = is.queued.apart;
      listed = λ p b.
          Listed-update s.tasks t (record (s.tasks t) { state = state_waiting }) p (ready p)
            (unlisted s.tasks t p (ready p) (running_ne (s.tasks t).state e) (is.queued.listed p b))
            (is.queued.listed p b);
      once = is.queued.once;
    };
    counted = is.counted;
  })
  | inr e ↦ rw e is
]
  where
    running-cases : (x : TaskState) → (x ≡ state_running) ⊎ (is_running x ≡ false)
    running-cases state_unused = inr refl
    running-cases state_ready = inr refl
    running-cases state_running = inl refl
    running-cases state_waiting = inr refl
    running-cases state_terminated = inr refl

-- If `malloc` fails for a task that is not ready, onTaskReady makes the task ready and puts it into no
-- queue, and no later call of onTaskReady for the task changes anything.
pub on_task_ready-lost :
    (t : ℕ) (s : Scheduler)
    → (s.tasks t).state ≢ state_ready
    → (s' : Scheduler) × (on_task_ready null t s ≡ done s')
      × ((s'.tasks t).state ≡ state_ready)
      × (s'.items ≡ s.items)
      × ((p : ℕ) → s'.priority_queues p ≡ s.priority_queues p)
      × ((fresh : ℕ) → on_task_ready fresh t s' ≡ done s')
unfolding on_task_ready enqueue
on_task_ready-lost t s state =
    let p = level (s.tasks t).priority in
    let range = clamp_lem (s.tasks t).priority in
    let y : Task = record { state = state_ready; pid = (s.tasks t).pid; priority = pos p } in
    let s' : Scheduler = record s {
      tasks = update s.tasks t y;
      priority_queues = update s.priority_queues p (s.priority_queues p);
    } in
    let now : (s'.tasks t).state ≡ state_ready = ap (λ z. z.state) (update_self s.tasks t y) in
    (
      s',
      rw
          (
            ne_ready (s.tasks t).state state,
            range.0,
            le→ltb max_priority p range.1,
            append_item-null t (s.priority_queues p) s.items,
          )
          refl,
      now,
      refl,
      update-All (λ q x. x ≡ s.priority_queues q) s.priority_queues p (s.priority_queues p) refl
          (λ q ne. refl),
      λ fresh.
          let already : is_ready (s'.tasks t).state ≡ true = ap is_ready now in rw already refl,
    )
