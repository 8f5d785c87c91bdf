-- ===== src/Scheduler/Invariant.antt =====
-- What holds between the calls of scheduler.c: each queue stands for a list, each task in it is ready,
-- has the queue's priority and stands there once, and only the current priority has been counted.
use sty_linux.Base.{
  ℕ, ◌≤◌, ◌≡◌, ◌≢◌, sym, ◌∙◌, [], ◌∷◌, ◌==◌, inl, inr, Bool-cases, ==→eq, ==→ne, All, All-mono,
  update, update_other, update-All, pos,
}
use mathlib.Core.Path.{subst}
use sty_linux.Memory.{null}
use sty_linux.TaskQueue.{Queue, Items}
use sty_linux.TaskQueue.Laws.{Cells, Outside, IsQueue, IsQueue-frame}
use sty_linux.Scheduler.{Task, state_ready, Scheduler, max_priority, max_sameprio_length}

abbrev pub Listed : (ℕ → Task) → ℕ → ℕ → Type 0
Listed tasks p t = (t ≢ null) × ((tasks t).state ≡ state_ready) × ((tasks t).priority ≡ pos p)

-- No task stands twice in a queue.
abbrev pub Once : Cells → Type 0
Once [] = Unit
Once ((a, t) ∷ xs) = All (λ c. t ≢ c.1) xs × Once xs

-- The items of two queues are apart.
abbrev pub Apart : Cells → Cells → Type 0
Apart xs ys = All (λ x. Outside x.0 ys) xs

pub record Queued (m : Items) (queues : ℕ → Queue) (tasks : ℕ → Task) (ready : ℕ → Cells)
    : Type 0 where
  pub queue_at : (p : ℕ) → p ≤ max_priority → IsQueue m (queues p) (ready p)
  pub apart : (p q : ℕ) → p ≤ max_priority → q ≤ max_priority → p ≢ q → Apart (ready p) (ready q)
  pub listed : (p : ℕ) → p ≤ max_priority → All (λ c. Listed tasks p c.1) (ready p)
  pub once : (p : ℕ) → p ≤ max_priority → Once (ready p)

pub record Counted (counter : ℕ → ℕ) (current : ℕ) : Type 0 where
  pub in_range : current ≤ max_priority
  pub at_most : counter current ≤ max_sameprio_length
  pub others : (p : ℕ) → p ≤ max_priority → p ≢ current → counter p ≡ 0

pub record IsScheduler (s : Scheduler) (ready : ℕ → Cells) : Type 0 where
  pub queued : Queued s.items s.priority_queues s.tasks ready
  pub counted : Counted s.same_prio_counter s.current_priority

Outside-drop : (b t : ℕ) (ys : Cells) (xs : Cells) → Apart xs ((b, t) ∷ ys) → Apart xs ys
Outside-drop b t ys xs =
    All-mono (λ x. Outside x.0 ((b, t) ∷ ys)) (λ x. Outside x.0 ys) (λ c h. h.1) xs

Outside-sym : (b : ℕ) (xs : Cells) → All (λ x. x.0 ≢ b) xs → Outside b xs
Outside-sym b xs = All-mono (λ x. x.0 ≢ b) (λ x. b ≢ x.0) (λ c h e. h (sym e)) xs

pub Apart-sym : (xs ys : Cells) → Apart xs ys → Apart ys xs
Apart-sym xs [] h = tt
Apart-sym xs ((b, t) ∷ ys) h = (
  Outside-sym b xs (All-mono (λ x. Outside x.0 ((b, t) ∷ ys)) (λ x. x.0 ≢ b) (λ c h. h.0) xs h),
  Apart-sym xs ys (Outside-drop b t ys xs h),
)

-- A change of a task that is not in state ready leaves the listed tasks as they are.
pub Listed-update :
    (tasks : ℕ → Task) (t : ℕ) (y : Task) (p : ℕ) (xs : Cells)
    → All (λ c. c.1 ≢ t) xs
    → All (λ c. Listed tasks p c.1) xs
    → All (λ c. Listed (update tasks t y) p c.1) xs
Listed-update tasks t y p [] out h = tt
Listed-update tasks t y p ((a, u) ∷ xs) out h = (
  subst (λ z. (u ≢ null) × (z.state ≡ state_ready) × (z.priority ≡ pos p))
      (sym (update_other tasks t y u out.0)) h.0,
  Listed-update tasks t y p xs out.1 h.1,
)

-- One queue is replaced: what holds of the new one and of its neighbours makes the whole hold.
pub Queued-update :
    (m m' : Items) (queues : ℕ → Queue) (tasks tasks' : ℕ → Task) (ready : ℕ → Cells) (p : ℕ)
    (q' : Queue) (xs' : Cells)
    → Queued m queues tasks ready
    → IsQueue m' q' xs'
    → All (λ c. Listed tasks' p c.1) xs'
    → Once xs'
    → ((r : ℕ)
        → r ≤ max_priority
        → r ≢ p
        → All (λ c. m' c.0 ≡ m c.0) (ready r)
          × Apart (ready r) xs'
          × All (λ c. Listed tasks' r c.1) (ready r))
    → Queued m' (update queues p q') tasks' (update ready p xs')
Queued-update m m' queues tasks tasks' ready p q' xs' is new listed once beside = record {
  queue_at = λ r. elim (Bool-cases (r == p)) [
    | inl e ↦ rw e (λ bound. new)
    | inr e ↦ rw e (λ bound.
        IsQueue-frame m m' (queues r) (ready r) (beside r bound (==→ne r p e)).0
          (is.queue_at r bound))
  ];
  apart = λ r1 r2. elim (Bool-cases (r1 == p)) [
    | inl e1 ↦ elim (Bool-cases (r2 == p)) [
      | inl e2 ↦ λ b1 b2 ne. absurd (ne (==→eq r1 p e1 ∙ sym (==→eq r2 p e2)))
      | inr e2 ↦ rw (e1, e2) (λ b1 b2 ne. Apart-sym (ready r2) xs' (beside r2 b2 (==→ne r2 p e2)).1)
    ]
    | inr e1 ↦ elim (Bool-cases (r2 == p)) [
      | inl e2 ↦ rw (e1, e2) (λ b1 b2 ne. (beside r1 b1 (==→ne r1 p e1)).1)
      | inr e2 ↦ rw (e1, e2) (λ b1 b2 ne. is.apart r1 r2 b1 b2 ne)
    ]
  ];
  listed =
      update-All (λ r xs. r ≤ max_priority → All (λ c. Listed tasks' r c.1) xs) ready p xs'
        (λ bound. listed) (λ r ne bound. (beside r bound ne).2);
  once =
      update-All (λ r xs. r ≤ max_priority → Once xs) ready p xs' (λ bound. once)
        (λ r ne bound. is.once r bound);
}

-- The priority that runs, and the runs in a row, are as before.
abbrev pub SameCounts : Scheduler → Scheduler → Type 0
SameCounts s s' =
    (s'.current_priority ≡ s.current_priority) × (s'.same_prio_counter ≡ s.same_prio_counter)
