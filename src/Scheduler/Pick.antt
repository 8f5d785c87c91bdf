-- ===== src/Scheduler/Pick.antt =====
-- The loops of `scheduleNextTask` in scheduler.c find the first queue that is not empty.
use sty_linux.Base.{
  ℕ, zero, suc, ◌+◌, ◌≤◌, ◌<◌, ◌≡◌, ◌≢◌, refl, sym, ap, ◌∙◌, [], ◌∷◌, arith, none, ◌==◌, inl, inr,
  ◌⊎◌, Bool-cases, ==→eq, ==→ne, ne→==, All, All-mono, update, pos, false, done,
}
use mathlib.Core.Path.{subst}
use sty_linux.Memory.{null}
use sty_linux.TaskQueue.{Queue, Items, write}
use sty_linux.TaskQueue.Laws.{Cells, IsQueue, remove_first_item-cons}
use sty_linux.Scheduler.{Task, state_running, Scheduler, max_priority, take_ready, set_state}
use sty_linux.Scheduler.Invariant.{Listed, Once, Apart, Queued, Listed-update, Queued-update}

abbrev pub AllEmpty : (ℕ → Cells) → ℕ → ℕ → Type 0
AllEmpty ready lo hi = (r : ℕ) → lo ≤ r → r < hi → ready r ≡ []

-- The first queue with a task among those from `lo` up to `hi`, and its parts.
pub record First (ready : ℕ → Cells) (lo hi : ℕ) : Type 0 where
  pub priority : ℕ
  pub from : lo ≤ priority
  pub below : priority < hi
  pub before : AllEmpty ready lo priority
  pub address : ℕ
  pub task : ℕ
  pub rest : Cells
  pub parts : ready priority ≡ (address, task) ∷ rest

Cells-cases : (xs : Cells) → (xs ≡ []) ⊎ ((a : ℕ) × (t : ℕ) × (rest : Cells) × (xs ≡ (a, t) ∷ rest))
Cells-cases [] = inl refl
Cells-cases ((a, t) ∷ xs) = inr (a, t, xs, refl)

AllEmpty-step :
    (ready : ℕ → Cells) (lo hi : ℕ)
    → ready lo ≡ []
    → AllEmpty ready (suc lo) hi
    → AllEmpty ready lo hi
AllEmpty-step ready lo hi empty above r from below = elim (Bool-cases (r == lo)) [
  | inl e ↦ subst (λ z. ready z ≡ []) (sym (==→eq r lo e)) empty
  | inr e ↦ above r (let ne : r ≢ lo = ==→ne r lo e in omega arith) below
]

-- The state when a task of priority `p` has been taken from the queue's front.
abbrev pub taken : ℕ → ℕ → Queue → Scheduler → Scheduler
taken p a q s = record s {
  priority_queues = update s.priority_queues p q;
  items = write s.items a none;
}

-- A loop either finds all queues empty and changes nothing, or takes the first task of the first queue.
pub take_ready_lem :
    (n p : ℕ) (s : Scheduler) (ready : ℕ → Cells)
    → Queued s.items s.priority_queues s.tasks ready
    → p + n ≤ suc max_priority
    → AllEmpty ready p (p + n) × (take_ready n p s ≡ done (null, p + n, s))
      ⊎ ((f : First ready p (p + n)) × (q : Queue) × IsQueue (write s.items f.address none) q f.rest
          × (take_ready n p s ≡ done (f.task, f.priority, taken f.priority f.address q s)))
unfolding take_ready
take_ready_lem zero p s ready is bound = inl (
  (λ r from below. absurd (omega arith)),
  ap (λ z. let r : ℕ × ℕ × Scheduler = (null, z, s) in done r) (omega arith),
)
take_ready_lem (suc n) p s ready is bound = elim (Cells-cases (ready p)) [
  | inl empty ↦
      let head : (s.priority_queues p).head ≡ null =
        (subst (λ z. IsQueue s.items (s.priority_queues p) z) empty
          (is.queue_at p (omega arith))).front in
      let shift : suc p + n ≡ p + suc n = omega arith in
      elim (take_ready_lem n (suc p) s ready is (omega arith)) [
        | inl (all, runs) ↦ inl (
          AllEmpty-step ready p (p + suc n) empty (subst (λ z. AllEmpty ready (suc p) z) shift all),
          rw head (runs ∙ ap (λ z. let r : ℕ × ℕ × Scheduler = (null, z, s) in done r) shift),
        )
        | inr (f, q, rest, runs) ↦ inr (
          record {
            priority = f.priority;
            from = (let h = f.from in omega arith);
            below = (let h = f.below in omega arith);
            before = AllEmpty-step ready p f.priority empty f.before;
            address = f.address;
            task = f.task;
            rest = f.rest;
            parts = f.parts;
          },
          q,
          rest,
          rw head runs,
        )
      ]
  | inr (a, t, xs, parts) ↦
      let at : IsQueue s.items (s.priority_queues p) ((a, t) ∷ xs) =
        subst (λ z. IsQueue s.items (s.priority_queues p) z) parts (is.queue_at p (omega arith)) in
      let (q, runs, rest) = remove_first_item-cons a t (s.priority_queues p) s.items xs at in
      let full : ((s.priority_queues p).head == null) ≡ false =
        rw at.front (ne→== a null at.held.0) in
      let here : All (λ c. Listed s.tasks p c.1) ((a, t) ∷ xs) =
        subst (λ z. All (λ c. Listed s.tasks p c.1) z) parts (is.listed p (omega arith)) in
      inr (
        record {
          priority = p;
          from = omega arith;
          below = omega arith;
          before = λ r from below. absurd (omega arith);
          address = a;
          task = t;
          rest = xs;
          parts = parts;
        },
        q,
        rest,
        rw (full, runs, ne→== t null here.0.0) refl,
      )
]

-- What a queue keeps when the task at another queue's front is taken.
beside-taken :
    (m : Items) (a t : ℕ) (xs ys : Cells)
    → Apart ys ((a, t) ∷ xs)
    → All (λ c. write m a none c.0 ≡ m c.0) ys × Apart ys xs
beside-taken m a t xs [] apart = (tt, tt)
beside-taken m a t xs ((b, u) ∷ ys) apart =
    let rest = beside-taken m a t xs ys apart.1 in
    ((rw (ne→== b a apart.0.0) refl, rest.0), (apart.0.1, rest.1))

-- A task of another priority is another task.
elsewhere :
    (tasks : ℕ → Task) (p r t : ℕ) (ys : Cells)
    → (tasks t).priority ≡ pos p
    → r ≢ p
    → All (λ c. Listed tasks r c.1) ys
    → All (λ c. c.1 ≢ t) ys
elsewhere tasks p r t ys at ne =
    All-mono (λ c. Listed tasks r c.1) (λ c. c.1 ≢ t)
      (λ c h e.
        let same : pos r ≡ pos p = sym h.2 ∙ ap (λ z. (tasks z).priority) e ∙ at in ne (cc same))
      ys

-- The task that was taken runs, and the rest of the queues is well formed.
pub taken-Queued :
    (p a t : ℕ) (xs : Cells) (q : Queue) (s : Scheduler) (ready : ℕ → Cells)
    → Queued s.items s.priority_queues s.tasks ready
    → p ≤ max_priority
    → ready p ≡ (a, t) ∷ xs
    → IsQueue (write s.items a none) q xs
    → let s' = set_state t state_running (taken p a q s) in
      Queued s'.items s'.priority_queues s'.tasks (update ready p xs)
taken-Queued p a t xs q s ready is bound parts rest =
    let running = record (s.tasks t) { state = state_running } in
    let listed : All (λ c. Listed s.tasks p c.1) ((a, t) ∷ xs) =
      subst (λ z. All (λ c. Listed s.tasks p c.1) z) parts (is.listed p bound) in
    let once : Once ((a, t) ∷ xs) = subst Once parts (is.once p bound) in
    let others : All (λ c. c.1 ≢ t) xs =
      All-mono (λ c. t ≢ c.1) (λ c. c.1 ≢ t) (λ c h e. h (sym e)) xs once.0 in
    Queued-update s.items (write s.items a none) s.priority_queues s.tasks
      (update s.tasks t running) ready p q xs is rest
      (Listed-update s.tasks t running p xs others listed.1) once.1
      (λ r b ne.
        let apart = subst (λ z. Apart (ready r) z) parts (is.apart r p b bound ne) in
        let keep = beside-taken s.items a t xs (ready r) apart in
        (
          keep.0,
          keep.1,
          Listed-update s.tasks t running r (ready r)
              (elsewhere s.tasks p r t (ready r) listed.0.2 ne (is.listed r b)) (is.listed r b),
        ))
