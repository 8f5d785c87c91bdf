-- ===== src/Scheduler/Fair.antt =====
-- How often in a row scheduler.c runs tasks of one priority while a task of a lower one waits.
use sty_linux.Base.{
  ℕ, suc, ◌+◌, ◌≤◌, ◌<◌, ◌≡◌, ◌≢◌, sym, ap, ◌∙◌, ◌⊎◌, inl, inr, arith, [], done, Bool-cases,
  ==_self, ◌==◌, true,
}
use mathlib.Core.Path.{subst}
use sty_linux.Memory.{null}
use sty_linux.TaskQueue.Laws.{IsQueue}
use sty_linux.Scheduler.{Scheduler, max_priority, max_sameprio_length, schedule_next_task}
use sty_linux.Scheduler.Next.{
  Scheduled, idle, within_limit, yielded, none_lower, schedule_next_task-Scheduled,
}
use sty_linux.Scheduler.Counts.{next_count}
use sty_linux.Scheduler.Events.{Sound, Event}
use sty_linux.Scheduler.Reach.{Event-Sound, schedule_next_task-Sound, done_inj}

-- A task of a priority below `p` is in its queue.
abbrev pub LowerWaits : ℕ → Scheduler → Type 0
LowerWaits p s = (q : ℕ) × (p < q) × (q ≤ max_priority) × ((s.priority_queues q).head ≢ null)

-- Calls in any order, among them `n` of scheduleNextTask: each ran a task of priority `p` while one
-- of a lower priority waited.
pub data Picks (p : ℕ) (s : Scheduler) : ℕ → Scheduler → Type 0 where
  start : {n : ℕ} {s' : Scheduler} → n ≡ 0 → s ≡ s' → Picks p s n s'
  call : {n : ℕ} {s1 s2 : Scheduler} → Picks p s n s1 → Event s1 s2 → Picks p s n s2
  pick :
      {n m : ℕ} {s1 s2 : Scheduler} (t : ℕ)
      → Picks p s n s1
      → m ≡ suc n
      → LowerWaits p s1
      → schedule_next_task s1 ≡ done (t, s2)
      → t ≢ null
      → s2.current_priority ≡ p
      → Picks p s m s2

-- The runs in a row have been counted.
abbrev Tallied : ℕ → ℕ → Scheduler → Type 0
Tallied p n s = (n ≡ 0) ⊎ ((s.current_priority ≡ p) × (n ≤ s.same_prio_counter p))

next_count_pos : (p : ℕ) (s : Scheduler) → 1 ≤ next_count p s
next_count_pos p s = elim (Bool-cases (p == s.current_priority)) [
  | inl e ↦ rw e (omega arith)
  | inr e ↦ rw e (omega arith)
]

next_count_same :
    (p n : ℕ) (s : Scheduler)
    → s.current_priority ≡ p
    → n ≤ s.same_prio_counter p
    → suc n ≤ next_count p s
next_count_same p n s e le =
    let here : (p == s.current_priority) ≡ true =
      subst (λ z. (p == z) ≡ true) (sym e) (==_self p) in
    rw here (subst (λ z. suc n ≤ s.same_prio_counter z + 1) (sym e) (omega arith))

head_of_empty :
    (s : Scheduler) (sound : Sound s) (q : ℕ)
    → q ≤ max_priority
    → sound.ready q ≡ []
    → (s.priority_queues q).head ≡ null
head_of_empty s sound q b e =
    (subst (λ z. IsQueue s.items (s.priority_queues q) z) e (sound.is.queued.queue_at q b)).front

pick-Tallied :
    (p n t : ℕ) (s s' : Scheduler) (sound : Sound s)
    → Tallied p n s
    → LowerWaits p s
    → schedule_next_task s ≡ done (t, s')
    → t ≢ null
    → s'.current_priority ≡ p
    → Scheduled s sound.ready (schedule_next_task s)
    → suc n ≤ s'.same_prio_counter p
pick-Tallied p n t s s' sound before lower runs ne here (idle s1 all runs1 is tasks) =
    absurd (ne (ap (λ z. z.0) (done_inj (t, s') (null, s1) (sym runs ∙ runs1))))
pick-Tallied p n t s s' sound before lower runs ne here (within_limit s1 f low runs1 ran) =
    let same : s1 ≡ s' = ap (λ z. z.1) (done_inj (f.task, s1) (t, s') (sym runs1 ∙ runs)) in
    let at : f.priority ≡ p = sym ran.current ∙ ap (λ z. z.current_priority) same ∙ here in
    let count : s'.same_prio_counter p ≡ next_count p s =
      subst (λ z. s'.same_prio_counter z ≡ next_count z s) at
        (subst (λ z. z.same_prio_counter f.priority ≡ next_count f.priority s) same ran.count) in
    subst (λ z. suc n ≤ z) (sym count)
      (elim before [
        | inl e ↦ subst (λ z. suc z ≤ next_count p s) (sym e) (next_count_pos p s)
        | inr (e, le) ↦ next_count_same p n s e le
      ])
pick-Tallied p n t s s' sound before lower runs ne here (yielded s1 f full runs1 ran) =
    let same : s1 ≡ s' = ap (λ z. z.1) (done_inj (f.task, s1) (t, s') (sym runs1 ∙ runs)) in
    let at : f.priority ≡ p = sym ran.current ∙ ap (λ z. z.current_priority) same ∙ here in
    let count : s'.same_prio_counter p ≡ 1 =
      subst (λ z. s'.same_prio_counter z ≡ 1) at
        (subst (λ z. z.same_prio_counter f.priority ≡ 1) same ran.count) in
    elim before [
      | inl e ↦ omega (arith, count, e)
      | inr (e, le) ↦ (let h = f.from in omega (arith, at, e))
    ]
pick-Tallied p n t s s' sound before lower runs ne here (none_lower s1 f full empty runs1 ran) =
    let same : s1 ≡ s' = ap (λ z. z.1) (done_inj (f.task, s1) (t, s') (sym runs1 ∙ runs)) in
    let at : f.priority ≡ p = sym ran.current ∙ ap (λ z. z.current_priority) same ∙ here in
    let count : s'.same_prio_counter p ≡ 1 =
      subst (λ z. s'.same_prio_counter z ≡ 1) at
        (subst (λ z. z.same_prio_counter f.priority ≡ 1) same ran.count) in
    elim before [
      | inl e ↦ omega (arith, count, e)
      | inr (e, le) ↦
          let (q, above, bound, waits) = lower in
          absurd (waits (head_of_empty s sound q bound (empty q (omega (arith, e)) (omega arith))))
    ]

Picks-Tallied :
    (p : ℕ) (s : Scheduler)
    → Sound s
    → (n : ℕ) (s' : Scheduler) → Picks p s n s'
    → Sound s' × Tallied p n s'
Picks-Tallied p s sound n s' (start zeroed same) = (subst Sound same sound, inl zeroed)
Picks-Tallied p s sound n s' (call {s1 = s1} before event) =
    let (sound1, tally) = Picks-Tallied p s sound n s1 before in
    let (sound', counts) = Event-Sound s1 s' sound1 event in
    (
      sound',
      elim tally [
        | inl e ↦ inl e
        | inr (e, le) ↦ inr (counts.0 ∙ e, subst (λ z. n ≤ z p) (sym counts.1) le)
      ],
    )
Picks-Tallied p s sound n s' (pick {n = k} {s1 = s1} t before one_more lower runs ne here) =
    let (sound1, tally) = Picks-Tallied p s sound k s1 before in
    let more =
      pick-Tallied p k t s1 s' sound1 tally lower runs ne here
        (schedule_next_task-Scheduled s1 sound1.ready sound1.is) in
    let (t1, s2, runs1, sound2) = schedule_next_task-Sound s1 sound1 in
    let same : s2 ≡ s' = ap (λ z. z.1) (done_inj (t1, s2) (t, s') (sym runs1 ∙ runs)) in
    (
      subst Sound same sound2,
      inr (here, subst (λ z. z ≤ s'.same_prio_counter p) (sym one_more) more),
    )

-- In any sequence of calls from a sound state, scheduleNextTask runs at most four tasks of one priority
-- in a row while a task of a lower priority waits, whatever else is called in between.
pub Picks-bounded :
    (p n : ℕ) (s s' : Scheduler) → Sound s → Picks p s n s' → n ≤ max_sameprio_length
Picks-bounded p n s s' sound picks =
    let (sound', tally) = Picks-Tallied p s sound n s' picks in
    elim tally [
      | inl e ↦ omega (arith, e)
      | inr (e, le) ↦
          (let h =
              subst (λ z. s'.same_prio_counter z ≤ max_sameprio_length) e
                sound'.is.counted.at_most in
            omega arith)
    ]
