-- ===== src/Scheduler/Reach.antt =====
-- Sequences of calls of scheduler.c.
use sty_linux.Base.{
  ℕ, ◌≤◌, ◌≡◌, ◌≢◌, refl, sym, ap, ◌∙◌, arith, done, update, All, suc, zero, ◌+◌, [],
}
use mathlib.Core.Path.{subst}
use sty_linux.Memory.{null}
use sty_linux.TaskQueue.{queue}
use sty_linux.Scheduler.{
  state_running, Scheduler, max_priority, schedule_next_task, init_loop, init_scheduler,
}
use sty_linux.Scheduler.Invariant.{SameCounts, Listed}
use sty_linux.Scheduler.Pick.{First}
use sty_linux.Scheduler.Next.{idle, within_limit, yielded, none_lower, schedule_next_task-Scheduled}
use sty_linux.Scheduler.Counts.{Ran}
use sty_linux.Scheduler.Init.{init_scheduler-IsScheduler}
use sty_linux.Scheduler.Events.{
  InRange, Sound, Event, ready_call, preempted_call, waiting_call, update-InRange,
  on_task_ready-kept, on_task_preempted-kept, on_task_waiting-Sound,
}

pub done_inj : {A : Type 0} (a b : A) → done a ≡ done b → a ≡ b
done_inj a b e = cc

-- Every call for a task keeps the scheduler well formed and the counts.
pub Event-Sound : (s s' : Scheduler) → Sound s → Event s s' → Sound s' × SameCounts s s'
Event-Sound s s' sound (ready_call fresh t t_ne free ends) =
    let (s1, runs, sound', counts) = on_task_ready-kept fresh t s sound t_ne free in
    subst (λ z. Sound z × SameCounts s z) (done_inj s1 s' (sym runs ∙ ends)) (sound', counts)
Event-Sound s s' sound (preempted_call fresh t t_ne free ends) =
    let (s1, runs, sound', counts) = on_task_preempted-kept fresh t s sound t_ne free in
    subst (λ z. Sound z × SameCounts s z) (done_inj s1 s' (sym runs ∙ ends)) (sound', counts)
Event-Sound s s' sound (waiting_call t ends) =
    subst (λ z. Sound z × SameCounts s z) ends (on_task_waiting-Sound t s sound)

-- A task that runs next had a priority in range.
Ran-Sound :
    {lo hi : ℕ} (s s' : Scheduler) (sound : Sound s) (f : First sound.ready lo hi) (runs : ℕ)
    → hi ≤ suc max_priority
    → Ran f runs s s'
    → Sound s'
Ran-Sound s s' sound f runs bound ran =
    let b : f.priority ≤ max_priority = (let h = f.below in omega arith) in
    let at =
      subst (λ z. All (λ c. Listed s.tasks f.priority c.1) z) f.parts
        (sound.is.queued.listed f.priority b) in
    record {
      ready = update sound.ready f.priority f.rest;
      is = ran.is;
      in_range =
          subst (λ z. (u : ℕ) → (z u).state ≡ state_running → InRange (z u).priority) (sym ran.now)
            (update-InRange s.tasks f.task (record (s.tasks f.task) { state = state_running })
              (λ e. (f.priority, at.0.2, b)) sound.in_range);
    }

-- scheduleNextTask ends in a well-formed scheduler.
pub schedule_next_task-Sound :
    (s : Scheduler)
    → Sound s
    → (t : ℕ) × (s' : Scheduler) × (schedule_next_task s ≡ done (t, s')) × Sound s'
schedule_next_task-Sound s sound = elim (schedule_next_task-Scheduled s sound.ready sound.is) [
  | idle s' all runs is tasks ↦ (
    null,
    s',
    runs,
    record {
      ready = sound.ready;
      is = is;
      in_range =
          subst (λ z. (u : ℕ) → (z u).state ≡ state_running → InRange (z u).priority) (sym tasks)
            sound.in_range;
    },
  )
  | within_limit s' f low runs ran ↦ (f.task, s', runs, Ran-Sound s s' sound f _ (omega arith) ran)
  | yielded s' f full runs ran ↦ (f.task, s', runs, Ran-Sound s s' sound f 1 (omega arith) ran)
  | none_lower s' f full empty runs ran ↦
      (f.task, s', runs, Ran-Sound s s' sound f 1 (omega arith) ran)
]

init_loop-tasks : (n i : ℕ) (s : Scheduler) → (init_loop n i s).tasks ≡ s.tasks
unfolding init_loop
init_loop-tasks zero i s = refl
init_loop-tasks (suc n) i s = init_loop-tasks n (suc i) (record s {
  priority_queues = update s.priority_queues i (queue null null);
  same_prio_counter = update s.same_prio_counter i 0;
})

init_scheduler-Sound :
    (s : Scheduler) → ((t : ℕ) → (s.tasks t).state ≢ state_running) → Sound (init_scheduler s)
unfolding init_scheduler
init_scheduler-Sound s none_runs = record {
  ready = λ p. [];
  is = init_scheduler-IsScheduler s;
  in_range = λ t e.
      absurd
        (none_runs t (ap (λ z. (z t).state) (sym (init_loop-tasks (max_priority + 1) 0 s)) ∙ e));
}

-- What any sequence of calls leads to.
pub data Reachable : Scheduler → Type 0 where
  started :
      (s : Scheduler) {s' : Scheduler}
      → ((t : ℕ) → (s.tasks t).state ≢ state_running)
      → init_scheduler s ≡ s'
      → Reachable s'
  called : {s s' : Scheduler} → Reachable s → Event s s' → Reachable s'
  scheduled :
      {s s' : Scheduler} (t : ℕ) → Reachable s → schedule_next_task s ≡ done (t, s') → Reachable s'

-- Every state that calls lead to from initScheduler, where no task ran, is sound: each queue stands for
-- a list, a task stands in at most one queue and once, it is ready and has the queue's priority, at most
-- four runs in a row are counted, for the current priority alone, and it is in range.
pub Reachable-Sound : (s : Scheduler) → Reachable s → Sound s
Reachable-Sound s (started s0 none_runs e) = subst Sound e (init_scheduler-Sound s0 none_runs)
Reachable-Sound s (called {s = s0} before event) =
    (Event-Sound s0 s (Reachable-Sound s0 before) event).0
Reachable-Sound s (scheduled {s = s0} t before runs) =
    let (t1, s1, runs1, sound) = schedule_next_task-Sound s0 (Reachable-Sound s0 before) in
    subst Sound (ap (λ z. z.1) (done_inj (t1, s1) (t, s) (sym runs1 ∙ runs))) sound
