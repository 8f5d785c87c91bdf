-- ===== src/Scheduler/Witnesses.antt =====
-- The theorems on scheduler.c at concrete states.
use sty_linux.Base.{ℕ, ◌≤◌, refl, sym, ◌∙◌, arith, [], ◌∷◌, pos, update}
use mathlib.Core.Path.{subst}
use sty_linux.TaskQueue.Laws.{Cells}
use sty_linux.Scheduler.{
  state_ready, init_loop, init_scheduler, on_task_ready, on_task_waiting, schedule_next_task,
}
use sty_linux.Scheduler.Tests.{blank, begin, one, two, picked, one_lem, two_lem, picked_lem}
use sty_linux.Scheduler.Invariant.{IsScheduler}
use sty_linux.Scheduler.Ready.{on_task_ready-Queued, on_task_waiting-IsScheduler}
use sty_linux.Scheduler.Enqueue.{Enqueued}
use sty_linux.Scheduler.Init.{init_scheduler-IsScheduler}
use sty_linux.Scheduler.Next.{Scheduled, schedule_next_task-Scheduled}
use sty_linux.Scheduler.Events.{Sound, ready_call}
use sty_linux.Scheduler.Reach.{Reachable, started, called, scheduled, Reachable-Sound, done_inj}
use sty_linux.Scheduler.Fair.{pick, start, Picks-bounded}

abbrev empty : ℕ → Cells
empty p = []

abbrev with_one : ℕ → Cells
with_one = update empty 3 ((100, 1) ∷ [])

on_task_ready-Queued_example :
    Enqueued 100 1 3
      (record { state = state_ready; pid = 1; priority = pos 3 })
      begin
      empty
      (on_task_ready 100 1 begin)
unfolding init_scheduler init_loop
on_task_ready-Queued_example =
    on_task_ready-Queued 100 1 begin empty (init_scheduler-IsScheduler blank) (λ e. omega arith)
      (λ e. cc) (λ e. omega arith) refl

one-IsScheduler : IsScheduler one with_one
one-IsScheduler =
    let (s', runs, is, rest, counts) = on_task_ready-Queued_example in
    subst (λ z. IsScheduler z with_one) (done_inj s' one (sym runs ∙ one_lem)) is

schedule_next_task-Scheduled_example : Scheduled one with_one (schedule_next_task one)
schedule_next_task-Scheduled_example = schedule_next_task-Scheduled one with_one one-IsScheduler

begin-Reachable : Reachable begin
begin-Reachable = started blank (λ t e. cc) refl

two-Reachable : Reachable two
unfolding init_scheduler init_loop
two-Reachable =
    called (called begin-Reachable (ready_call 100 1 (λ e. omega arith) (λ ne. refl) one_lem))
      (ready_call 101 2 (λ e. omega arith) (λ ne. refl) two_lem)

Reachable-Sound_example : Sound picked
Reachable-Sound_example = Reachable-Sound picked (scheduled 2 two-Reachable picked_lem)

Picks-bounded_example : 1 ≤ 4
unfolding init_scheduler init_loop
Picks-bounded_example = Picks-bounded 0 1 two picked (Reachable-Sound two two-Reachable) (
    pick 2 (start refl refl) refl (3, omega arith, omega arith, (λ e. omega arith)) picked_lem
      (λ e. omega arith) refl)

picked_sound : Sound picked
picked_sound = Reachable-Sound picked (scheduled 2 two-Reachable picked_lem)

on_task_waiting-IsScheduler_example : IsScheduler (on_task_waiting 2 picked) picked_sound.ready
on_task_waiting-IsScheduler_example =
    on_task_waiting-IsScheduler 2 picked picked_sound.ready picked_sound.is
