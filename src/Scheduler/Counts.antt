-- ===== src/Scheduler/Counts.antt =====
-- The counts of runs in a row in scheduler.c.
use sty_linux.Base.{
  ℕ, suc, ◌+◌, ◌≤◌, ◌<◌, ◌≡◌, ◌≢◌, refl, sym, ap, ◌∙◌, arith, ◌==◌, inl, inr, Bool-cases, ==→eq,
  ==_self, leb, if◌then◌else◌, All, update, update_self, update_other, update-All, false,
}
use mathlib.Core.Path.{subst}
use sty_linux.Memory.{null}
use sty_linux.TaskQueue.{Queue}
use sty_linux.TaskQueue.Laws.{Cells, IsQueue}
use sty_linux.Scheduler.{
  state_running, Scheduler, max_priority, max_sameprio_length, set_state, switch_to, count_run,
}
use sty_linux.Scheduler.Invariant.{Listed, Counted, IsScheduler}
use sty_linux.Scheduler.Pick.{First, taken, taken-Queued}

-- The task of `f` runs: it has left its queue, and it is the `runs`th in a row of its priority.
pub record Ran {ready : ℕ → Cells} {lo hi : ℕ} (f : First ready lo hi) (runs : ℕ) (s s' : Scheduler)
    : Type 0 where
  pub is : IsScheduler s' (update ready f.priority f.rest)
  pub current : s'.current_priority ≡ f.priority
  pub count : s'.same_prio_counter f.priority ≡ runs
  pub now : s'.tasks ≡ update s.tasks f.task (record (s.tasks f.task) { state = state_running })

switch_to-Counted :
    (counter : ℕ → ℕ) (current p : ℕ)
    → Counted counter current
    → p ≤ max_priority
    → Counted (update (update counter current 0) p 1) p
switch_to-Counted counter current p is bound = record {
  in_range = bound;
  at_most = rw (==_self p) (omega arith);
  others = λ q b ne.
      update_other (update counter current 0) p 1 q ne
      ∙ update-All (λ r x. r ≤ max_priority → x ≡ 0) counter current 0 (λ bound. refl)
          (λ r r_ne r_b. is.others r r_b r_ne) q b;
}

-- A count for a run of the current priority.
count_on-Counted :
    (counter : ℕ → ℕ) (current : ℕ)
    → Counted counter current
    → counter current < max_sameprio_length
    → Counted (update counter current (counter current + 1)) current
count_on-Counted counter current is low = record {
  in_range = is.in_range;
  at_most =
      subst (λ z. z ≤ max_sameprio_length) (sym (update_self counter current (counter current + 1)))
        (omega arith);
  others = λ q b ne. update_other counter current (counter current + 1) q ne ∙ is.others q b ne;
}

pub reset-Counted :
    (counter : ℕ → ℕ) (current : ℕ)
    → Counted counter current
    → Counted (update counter current 0) current
reset-Counted counter current is = record {
  in_range = is.in_range;
  at_most =
      subst (λ z. z ≤ max_sameprio_length) (sym (update_self counter current 0)) (omega arith);
  others = λ q b ne. update_other counter current 0 q ne ∙ is.others q b ne;
}

-- The first loop runs the task that it finds.
pub switch_to-Ran :
    {ready : ℕ → Cells} {lo hi : ℕ} (f : First ready lo hi) (q : Queue) (s : Scheduler)
    → IsScheduler s ready
    → hi ≤ suc max_priority
    → IsQueue (taken f.priority f.address q s).items q f.rest
    → Ran f 1 s
        (set_state f.task state_running (switch_to f.priority (taken f.priority f.address q s)))
unfolding switch_to
switch_to-Ran {ready} f q s is bound rest =
    let b : f.priority ≤ max_priority = (let h = f.below in omega arith) in
    record {
      is = record {
        queued = taken-Queued f.priority f.address f.task f.rest q s ready is.queued b f.parts rest;
        counted = switch_to-Counted s.same_prio_counter s.current_priority f.priority is.counted b;
      };
      current = refl;
      count = update_self (update s.same_prio_counter s.current_priority 0) f.priority 1;
      now = refl;
    }

-- The count that follows when a task of priority `p` runs.
abbrev pub next_count : ℕ → Scheduler → ℕ
next_count p s = if p == s.current_priority then s.same_prio_counter s.current_priority + 1 else 1

pub count_run-Ran :
    {ready : ℕ → Cells} {lo hi : ℕ} (f : First ready lo hi) (q : Queue) (s : Scheduler)
    → IsScheduler s ready
    → s.same_prio_counter s.current_priority < max_sameprio_length
    → hi ≤ suc max_priority
    → IsQueue (taken f.priority f.address q s).items q f.rest
    → Ran f
        (next_count f.priority s)
        s
        (set_state f.task state_running (count_run f.priority (taken f.priority f.address q s)))
unfolding count_run
count_run-Ran {ready} f q s is low bound rest =
    let b : f.priority ≤ max_priority = (let h = f.below in omega arith) in
    elim (Bool-cases (f.priority == s.current_priority)) [
      | inl e ↦
          let same : f.priority ≡ s.current_priority = ==→eq f.priority s.current_priority e in
          rw e (record {
            is = record {
              queued =
                  taken-Queued f.priority f.address f.task f.rest q s ready is.queued b f.parts
                    rest;
              counted =
                  subst
                    (λ z.
                      Counted (update s.same_prio_counter z (s.same_prio_counter z + 1))
                        s.current_priority)
                    (sym same)
                    (count_on-Counted s.same_prio_counter s.current_priority is.counted low);
            };
            current = sym same;
            count =
                update_self s.same_prio_counter f.priority (s.same_prio_counter f.priority + 1)
                ∙ ap (λ z. s.same_prio_counter z + 1) same;
            now = refl;
          })
      | inr e ↦ rw e (switch_to-Ran f q s is bound rest)
    ]

-- A task that stands in a queue is not NULL.
pub task_ne :
    (s : Scheduler) (ready : ℕ → Cells) {lo hi : ℕ} (f : First ready lo hi)
    → IsScheduler s ready
    → hi ≤ suc max_priority
    → f.task ≢ null
task_ne s ready f is bound =
    let b : f.priority ≤ max_priority = (let h = f.below in omega arith) in
    (subst (λ z. All (λ c. Listed s.tasks f.priority c.1) z) f.parts
      (is.queued.listed f.priority b)).0.0

pub once_of_zero :
    (p : ℕ) (s : Scheduler) → s.same_prio_counter s.current_priority ≡ 0 → next_count p s ≡ 1
once_of_zero p s zeroed = elim (Bool-cases (p == s.current_priority)) [
  | inl e ↦ rw e (omega (arith, zeroed))
  | inr e ↦ rw e refl
]

pub leb→lt : (a b : ℕ) → leb a b ≡ false → b < a
leb→lt a b h = ground arith
