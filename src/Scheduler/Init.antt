-- ===== src/Scheduler/Init.antt =====
-- `initScheduler` of scheduler.c.
use sty_linux.Base.{
  ℕ, zero, suc, ◌+◌, ◌≤◌, ◌<◌, ◌≡◌, ◌≢◌, refl, sym, [], arith, inl, inr, Bool-cases, ==→ne, ◌==◌,
  update,
}
use mathlib.Core.Path.{subst}
use sty_linux.Memory.{null}
use sty_linux.TaskQueue.{queue}
use sty_linux.TaskQueue.Laws.{IsQueue}
use sty_linux.Scheduler.{Scheduler, max_priority, init_loop, init_scheduler}
use sty_linux.Scheduler.Invariant.{IsScheduler}

abbrev Cleared : ℕ → Scheduler → Type 0
Cleared p s = (s.priority_queues p ≡ queue null null) × (s.same_prio_counter p ≡ 0)

init_loop-Cleared :
    (n i : ℕ) (s : Scheduler)
    → ((p : ℕ) → p < i → Cleared p s)
    → (p : ℕ) → p < i + n
    → Cleared p (init_loop n i s)
unfolding init_loop
init_loop-Cleared zero i s before p bound = before p (omega arith)
init_loop-Cleared (suc n) i s before p bound =
    init_loop-Cleared n (suc i)
      (record s {
        priority_queues = update s.priority_queues i (queue null null);
        same_prio_counter = update s.same_prio_counter i 0;
      })
      (λ q below. elim (Bool-cases (q == i)) [
        | inl e ↦ rw e (refl, refl)
        | inr e ↦ rw e (before q (let ne : q ≢ i = ==→ne q i e in omega arith))
      ])
      p (omega arith)

-- After initScheduler, whatever was there before, the scheduler is well formed and every queue empty.
pub init_scheduler-IsScheduler : (s : Scheduler) → IsScheduler (init_scheduler s) (λ p. [])
unfolding init_scheduler
init_scheduler-IsScheduler s =
    let cleared = init_loop-Cleared (max_priority + 1) 0 s (λ p below. absurd (omega arith)) in
    let s1 = init_loop (max_priority + 1) 0 s in
    record {
      queued = record {
        queue_at = λ p b.
            subst (λ q. IsQueue s1.items q []) (sym (cleared p (omega arith)).0)
              (record { held = tt; distinct = tt; front = refl; back = refl });
        apart = λ p q pb qb ne. tt;
        listed = λ p b. tt;
        once = λ p b. tt;
      };
      counted = record {
        in_range = omega arith;
        at_most = subst (λ z. z ≤ 4) (sym (cleared 0 (omega arith)).1) (omega arith);
        others = λ p b ne. (cleared p (omega arith)).1;
      };
    }
