-- ===== src/Scheduler/Next.antt =====
-- `scheduleNextTask` of scheduler.c: which task runs next.
use sty_linux.Base.{
  ℕ, suc, ◌+◌, ◌-◌, ◌<◌, ◌≡◌, refl, sym, ◌∙◌, arith, inl, inr, ◌⊎◌, Bool-cases, ne→==, leb, leb→le,
  update, update_self, Run, done,
}
use mathlib.Core.Path.{subst}
use sty_linux.Memory.{null}
use sty_linux.TaskQueue.Laws.{Cells}
use sty_linux.Scheduler.{
  state_running, Scheduler, max_priority, max_sameprio_length, set_state, switch_to, count_run,
  highest_ready, schedule_next_task,
}
use sty_linux.Scheduler.Invariant.{IsScheduler}
use sty_linux.Scheduler.Pick.{AllEmpty, First, taken, take_ready_lem}
use sty_linux.Scheduler.Counts.{
  Ran, reset-Counted, switch_to-Ran, next_count, count_run-Ran, task_ne, once_of_zero, leb→lt,
}

-- The second loop, where the current priority has runs left.
highest_ready_lem :
    (s : Scheduler) (ready : ℕ → Cells)
    → IsScheduler s ready
    → s.same_prio_counter s.current_priority < max_sameprio_length
    → AllEmpty ready 0 (suc max_priority) × (highest_ready s ≡ done (null, s))
      ⊎ ((f : First ready 0 (suc max_priority)) × (s' : Scheduler) × (highest_ready s
            ≡ done (f.task, s'))
          × Ran f (next_count f.priority s) s s')
unfolding highest_ready
highest_ready_lem s ready is low =
    elim (take_ready_lem (max_priority + 1) 0 s ready is.queued (omega arith)) [
      | inl (all, runs) ↦ inl (all, rw runs refl)
      | inr (f, q, rest, runs) ↦ inr (
        f,
        set_state f.task state_running (count_run f.priority (taken f.priority f.address q s)),
        rw (runs, ne→== f.task null (task_ne s ready f is (omega arith))) refl,
        count_run-Ran f q s is low (omega arith) rest,
      )
    ]

-- What `scheduleNextTask` does, by case.
pub data Scheduled (s : Scheduler) (ready : ℕ → Cells) (r : Run (ℕ × Scheduler)) : Type 0 where
  idle :
      (s' : Scheduler)
      → AllEmpty ready 0 (suc max_priority)
      → r ≡ done (null, s')
      → IsScheduler s' ready
      → s'.tasks ≡ s.tasks
      → Scheduled s ready r
  within_limit :
      (s' : Scheduler) (f : First ready 0 (suc max_priority))
      → s.same_prio_counter s.current_priority < max_sameprio_length
      → r ≡ done (f.task, s')
      → Ran f (next_count f.priority s) s s'
      → Scheduled s ready r
  yielded :
      (s' : Scheduler) (f : First ready (suc s.current_priority) (suc max_priority))
      → s.same_prio_counter s.current_priority ≡ max_sameprio_length
      → r ≡ done (f.task, s')
      → Ran f 1 s s'
      → Scheduled s ready r
  none_lower :
      (s' : Scheduler) (f : First ready 0 (suc max_priority))
      → s.same_prio_counter s.current_priority ≡ max_sameprio_length
      → AllEmpty ready (suc s.current_priority) (suc max_priority)
      → r ≡ done (f.task, s')
      → Ran f 1 s s'
      → Scheduled s ready r

-- In a well-formed scheduler scheduleNextTask ends. If all queues are empty it returns NULL and changes
-- no task. If the current priority has had fewer than four runs in a row, the task at the front of the
-- first queue that is not empty leaves its queue and runs. If it has had four, the first queue that is
-- not empty among the lower priorities is taken in its place, and all queues if those are empty. The
-- scheduler stays well formed, and the count of runs in a row is kept.
pub schedule_next_task-Scheduled :
    (s : Scheduler) (ready : ℕ → Cells)
    → IsScheduler s ready
    → Scheduled s ready (schedule_next_task s)
unfolding schedule_next_task
schedule_next_task-Scheduled s ready is =
    let current = s.current_priority in
    elim (Bool-cases (leb max_sameprio_length (s.same_prio_counter current))) [
      | inr e ↦
          let low : s.same_prio_counter current < max_sameprio_length =
            leb→lt max_sameprio_length (s.same_prio_counter current) e in
          elim (highest_ready_lem s ready is low) [
            | inl (all, runs) ↦ idle s all (rw e runs) is refl
            | inr (f, s', runs, ran) ↦ within_limit s' f low (rw e runs) ran
          ]
      | inl e ↦
          let full : s.same_prio_counter current ≡ max_sameprio_length =
            (let h = leb→le max_sameprio_length (s.same_prio_counter current) e in
              let k = is.counted.at_most in omega arith) in
          let top : suc current + (max_priority + 1 - suc current) ≡ suc max_priority =
            (let k = is.counted.in_range in omega arith) in
          elim (take_ready_lem (max_priority + 1 - suc current) (suc current) s ready is.queued
            (omega arith)) [
              | inl (all, runs) ↦
                  let s1 : Scheduler = record s {
                    same_prio_counter = update s.same_prio_counter s.current_priority 0;
                  } in
                  let is1 : IsScheduler s1 ready = record {
                    queued = is.queued;
                    counted = reset-Counted s.same_prio_counter current is.counted;
                  } in
                  let zeroed : s1.same_prio_counter current ≡ 0 =
                    update_self s.same_prio_counter current 0 in
                  let below : AllEmpty ready (suc current) (suc max_priority) =
                    subst (λ z. AllEmpty ready (suc current) z) top all in
                  elim (highest_ready_lem s1 ready is1
                    (subst (λ z. z < max_sameprio_length) (sym zeroed) (omega arith))) [
                      | inl (all1, runs1) ↦ idle s1 all1 (rw (e, runs) runs1) is1 refl
                      | inr (f, s', runs1, ran) ↦
                          none_lower s' f full below (rw (e, runs) runs1) (record {
                            is = ran.is;
                            current = ran.current;
                            count = ran.count ∙ once_of_zero f.priority s1 zeroed;
                            now = ran.now;
                          })
                    ]
              | inr (f, q, rest, runs) ↦
                  let f' : First ready (suc current) (suc max_priority) = record {
                    priority = f.priority;
                    from = f.from;
                    below = subst (λ z. f.priority < z) top f.below;
                    before = f.before;
                    address = f.address;
                    task = f.task;
                    rest = f.rest;
                    parts = f.parts;
                  } in
                  yielded
                    (set_state f.task state_running
                      (switch_to f.priority (taken f.priority f.address q s)))
                    f' full
                    (rw (e, runs, ne→== f.task null (task_ne s ready f is (omega arith))) refl)
                    (switch_to-Ran f' q s is (omega arith) rest)
            ]
    ]
