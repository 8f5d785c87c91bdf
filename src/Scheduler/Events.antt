-- ===== src/Scheduler/Events.antt =====
-- The calls that a kernel makes of scheduler.c, and what holds after any of them.
use sty_linux.Base.{
  ℕ, ◌≤◌, ◌≡◌, ◌≢◌, refl, sym, ap, ◌∙◌, ◌⊎◌, inl, inr, none, done, Bool-cases, ==→eq, ==→ne, ◌==◌,
  if◌then◌else◌, true, false, update, update-All, pos, ℤ,
}
use mathlib.Core.Path.{subst}
use sty_linux.Memory.{null}
use sty_linux.TaskQueue.Laws.{Cells}
use sty_linux.Scheduler.{
  Task, TaskState, state_unused, state_ready, state_running, state_waiting, state_terminated,
  Scheduler, max_priority, on_task_ready, on_task_preempted, on_task_waiting, is_ready, is_running,
  set_state, enqueue,
}
use sty_linux.Scheduler.Invariant.{IsScheduler, SameCounts}
use sty_linux.Scheduler.Ready.{on_task_waiting-IsScheduler, clamp_lem, level, ne_ready, running_ne}
use sty_linux.Scheduler.Enqueue.{enqueue-Queued, enqueue-null}

abbrev pub InRange : ℤ → Type 0
InRange z = (p : ℕ) × (z ≡ pos p) × (p ≤ max_priority)

-- The scheduler is well formed, and the tasks that run have priorities in range.
pub record Sound (s : Scheduler) : Type 0 where
  pub ready : ℕ → Cells
  pub is : IsScheduler s ready
  pub in_range : (t : ℕ) → (s.tasks t).state ≡ state_running → InRange (s.tasks t).priority

-- `malloc` returns NULL, or an address that is not in use.
abbrev pub Fresh : ℕ → Scheduler → Type 0
Fresh fresh s = fresh ≢ null → s.items fresh ≡ none

-- A call for a task that is not NULL.
pub data Event (s s' : Scheduler) : Type 0 where
  ready_call :
      (fresh t : ℕ) → t ≢ null → Fresh fresh s → on_task_ready fresh t s ≡ done s' → Event s s'
  preempted_call :
      (fresh t : ℕ) → t ≢ null → Fresh fresh s → on_task_preempted fresh t s ≡ done s' → Event s s'
  waiting_call : (t : ℕ) → on_task_waiting t s ≡ s' → Event s s'

pub update-InRange :
    (tasks : ℕ → Task) (t : ℕ) (y : Task)
    → (y.state ≡ state_running → InRange y.priority)
    → ((u : ℕ) → (tasks u).state ≡ state_running → InRange (tasks u).priority)
    → (u : ℕ) → (update tasks t y u).state ≡ state_running
    → InRange (update tasks t y u).priority
update-InRange tasks t y new old =
    update-All (λ u x. x.state ≡ state_running → InRange x.priority) tasks t y new (λ u ne. old u)

-- A task that is not ready is queued, or lost if there is no memory.
enqueue-Sound :
    (fresh t p : ℕ) (y : Task) (s : Scheduler)
    → Sound s
    → p ≤ max_priority
    → t ≢ null
    → Fresh fresh s
    → (s.tasks t).state ≢ state_ready
    → y.state ≡ state_ready
    → y.priority ≡ pos p
    → (s' : Scheduler) × (enqueue (pos p) fresh t (record s { tasks = update s.tasks t y })
        ≡ done s')
      × Sound s'
      × SameCounts s s'
enqueue-Sound fresh t p y s sound bound t_ne free state y_state y_priority =
    let range = update-InRange s.tasks t y (λ running. (p, y_priority, bound)) sound.in_range in
    elim (Bool-cases (fresh == null)) [
      | inl e ↦
          let (s', runs, is', tasks, counts) =
            enqueue-null t p y s sound.ready sound.is bound state in
          (
            s',
            subst (λ z. enqueue (pos p) z t (record s { tasks = update s.tasks t y }) ≡ done s')
                (sym (==→eq fresh null e)) runs,
            record {
              ready = _;
              is = is';
              in_range =
                  subst (λ z. (u : ℕ) → (z u).state ≡ state_running → InRange (z u).priority)
                    (sym tasks) range;
            },
            counts,
          )
      | inr e ↦
          let ne : fresh ≢ null = ==→ne fresh null e in
          let (s', runs, is', tasks, counts) =
            enqueue-Queued fresh t p y s sound.ready sound.is bound t_ne state y_state y_priority ne
              (free ne) in
          (
            s',
            runs,
            record {
              ready = _;
              is = is';
              in_range =
                  subst (λ z. (u : ℕ) → (z u).state ≡ state_running → InRange (z u).priority)
                    (sym tasks) range;
            },
            counts,
          )
    ]

ready-cases : (x : TaskState) → (x ≡ state_ready) ⊎ (x ≢ state_ready)
ready-cases state_ready = inl refl
ready-cases state_unused = inr (λ e. cc)
ready-cases state_running = inr (λ e. cc)
ready-cases state_waiting = inr (λ e. cc)
ready-cases state_terminated = inr (λ e. cc)

running-cases : (x : TaskState) → (x ≡ state_running) ⊎ (is_running x ≡ false)
running-cases state_unused = inr refl
running-cases state_ready = inr refl
running-cases state_running = inl refl
running-cases state_waiting = inr refl
running-cases state_terminated = inr refl

-- onTaskReady ends for every task that is not NULL, whether `malloc` fails or not, and keeps the
-- scheduler well formed and the counts.
pub on_task_ready-kept :
    (fresh t : ℕ) (s : Scheduler)
    → Sound s
    → t ≢ null
    → Fresh fresh s
    → (s' : Scheduler) × (on_task_ready fresh t s ≡ done s') × Sound s' × SameCounts s s'
unfolding on_task_ready
on_task_ready-kept fresh t s sound t_ne free = elim (ready-cases (s.tasks t).state) [
  | inl e ↦ (s, rw (ap is_ready e) refl, sound, (refl, refl))
  | inr ne ↦
      let p = level (s.tasks t).priority in
      let range = clamp_lem (s.tasks t).priority in
      let y : Task = record { state = state_ready; pid = (s.tasks t).pid; priority = pos p } in
      let (s', runs, sound', counts) =
        enqueue-Sound fresh t p y s sound range.1 t_ne free ne refl refl in
      (s', rw (ne_ready (s.tasks t).state ne, range.0) runs, sound', counts)
]

-- onTaskPreempted ends in a well-formed scheduler in the same way.
pub on_task_preempted-kept :
    (fresh t : ℕ) (s : Scheduler)
    → Sound s
    → t ≢ null
    → Fresh fresh s
    → (s' : Scheduler) × (on_task_preempted fresh t s ≡ done s') × Sound s' × SameCounts s s'
unfolding on_task_preempted
on_task_preempted-kept fresh t s sound t_ne free = elim (running-cases (s.tasks t).state) [
  | inl e ↦
      let (p, priority, bound) = sound.in_range t e in
      let (s', runs, sound', counts) =
        enqueue-Sound fresh t p (record (s.tasks t) { state = state_ready }) s sound bound t_ne free
          (running_ne (s.tasks t).state e) refl priority in
      let running : is_running (s.tasks t).state ≡ true = ap is_running e in
      (
        s',
        rw running (ap (λ z. enqueue z fresh t (set_state t state_ready s)) priority ∙ runs),
        sound',
        counts,
      )
  | inr e ↦ (s, rw e refl, sound, (refl, refl))
]

pub on_task_waiting-Sound :
    (t : ℕ) (s : Scheduler)
    → Sound s
    → Sound (on_task_waiting t s) × SameCounts s (on_task_waiting t s)
unfolding on_task_waiting
on_task_waiting-Sound t s sound = elim (running-cases (s.tasks t).state) [
  | inl e ↦
      let running : is_running (s.tasks t).state ≡ true = ap is_running e in
      rw running (
        record {
          ready = sound.ready;
          is =
              subst (λ b. IsScheduler (if b then set_state t state_waiting s else s) sound.ready)
                running (on_task_waiting-IsScheduler t s sound.ready sound.is);
          in_range =
              update-InRange s.tasks t (record (s.tasks t) { state = state_waiting }) (λ f. cc)
                sound.in_range;
        },
        (refl, refl),
      )
  | inr e ↦ rw e (sound, (refl, refl))
]
