-- ===== src/Scheduler/Enqueue.antt =====
-- How scheduler.c puts a task into the queue of a priority, and what it does without memory.
use sty_linux.Base.{
  ℕ, ◌≤◌, ◌≡◌, ◌≢◌, refl, sym, ap, ◌∙◌, [], ◌∷◌, ◌++◌, none, le→ltb, All, All-append, All-mono,
  update, update_self, pos, Run, done,
}
use mathlib.Core.Path.{subst}
use sty_linux.Memory.{null}
use sty_linux.TaskQueue.{Items}
use sty_linux.TaskQueue.Laws.{Cells, Outside, Outside-none, append_item-IsQueue, append_item-null}
use sty_linux.Scheduler.{Task, state_ready, Scheduler, max_priority, enqueue}
use sty_linux.Scheduler.Invariant.{
  Listed, Once, Apart, IsScheduler, Listed-update, Queued-update, SameCounts,
}

-- A listed task is ready, so a task in another state is not listed.
pub unlisted :
    (tasks : ℕ → Task) (t p : ℕ) (xs : Cells)
    → (tasks t).state ≢ state_ready
    → All (λ c. Listed tasks p c.1) xs
    → All (λ c. c.1 ≢ t) xs
unlisted tasks t p xs ne =
    All-mono (λ c. Listed tasks p c.1) (λ c. c.1 ≢ t)
      (λ c h e. ne (subst (λ z. (tasks z).state ≡ state_ready) e h.1)) xs

Once-append : (a t : ℕ) (xs : Cells) → All (λ c. c.1 ≢ t) xs → Once xs → Once (xs ++ (a, t) ∷ [])
Once-append a t [] ne once = (tt, tt)
Once-append a t ((b, u) ∷ xs) ne once =
    (All-append (λ c. u ≢ c.1) xs ((a, t) ∷ []) once.0 (ne.0, tt), Once-append a t xs ne.1 once.1)

-- What another queue keeps when an item is appended.
beside-append :
    (m m' : Items) (fresh t : ℕ) (xs ys : Cells)
    → ((x : ℕ) → Outside x xs → x ≢ fresh → m' x ≡ m x)
    → Outside fresh ys
    → Apart ys xs
    → All (λ c. m' c.0 ≡ m c.0) ys × Apart ys (xs ++ (fresh, t) ∷ [])
beside-append m m' fresh t xs [] same out apart = (tt, tt)
beside-append m m' fresh t xs ((b, u) ∷ ys) same out apart =
    let rest = beside-append m m' fresh t xs ys same out.1 apart.1 in
    let ne : b ≢ fresh = λ e. out.0 (sym e) in
    (
      (same b apart.0 ne, rest.0),
      (All-append (λ c. b ≢ c.0) xs ((fresh, t) ∷ []) apart.0 (ne, tt), rest.1),
    )

-- The call ends in a well-formed scheduler where the task, now `y`, stands at the end of the queue of
-- `p`, and no other task, queue or count is changed.
abbrev pub Enqueued : (fresh t p : ℕ) → Task → Scheduler → (ℕ → Cells) → Run Scheduler → Type 0
Enqueued fresh t p y s ready r =
    (s' : Scheduler) × (r ≡ done s')
    × IsScheduler s' (update ready p (ready p ++ (fresh, t) ∷ []))
    × (s'.tasks ≡ update s.tasks t y)
    × SameCounts s s'

-- A task that was not ready is put at the end of the queue of its priority.
pub enqueue-Queued :
    (fresh t p : ℕ) (y : Task) (s : Scheduler) (ready : ℕ → Cells)
    → IsScheduler s ready
    → p ≤ max_priority
    → t ≢ null
    → (s.tasks t).state ≢ state_ready
    → y.state ≡ state_ready
    → y.priority ≡ pos p
    → fresh ≢ null
    → s.items fresh ≡ none
    → Enqueued fresh t p y s ready
        (enqueue (pos p) fresh t (record s { tasks = update s.tasks t y }))
unfolding enqueue
enqueue-Queued fresh t p y s ready is bound t_ne state y_state y_priority ne free =
    let tasks' = update s.tasks t y in
    let (r, runs, queue', same) =
      append_item-IsQueue fresh t (s.priority_queues p) s.items (ready p)
        (is.queued.queue_at p bound) ne free in
    let out : (q : ℕ) → q ≤ max_priority → Outside fresh (ready q) =
      λ q b. Outside-none s.items fresh null (ready q) free (is.queued.queue_at q b).held in
    let away : (q : ℕ) → q ≤ max_priority → All (λ c. c.1 ≢ t) (ready q) =
      λ q b. unlisted s.tasks t q (ready q) state (is.queued.listed q b) in
    let listed : (q : ℕ) → q ≤ max_priority → All (λ c. Listed tasks' q c.1) (ready q) =
      λ q b. Listed-update s.tasks t y q (ready q) (away q b) (is.queued.listed q b) in
    let new : Listed tasks' p t = (
      t_ne,
      ap (λ z. z.state) (update_self s.tasks t y) ∙ y_state,
      ap (λ z. z.priority) (update_self s.tasks t y) ∙ y_priority,
    ) in
    let s' : Scheduler = record s {
      priority_queues = update s.priority_queues p r.0;
      items = r.1;
      tasks = tasks';
    } in
    (
      s',
      rw (le→ltb max_priority p bound, runs) refl,
      record {
        queued =
            Queued-update s.items r.1 s.priority_queues s.tasks tasks' ready p r.0
              (ready p ++ (fresh, t) ∷ []) is.queued queue'
              (All-append (λ c. Listed tasks' p c.1) (ready p) ((fresh, t) ∷ []) (listed p bound)
                (new, tt))
              (Once-append fresh t (ready p) (away p bound) (is.queued.once p bound))
              (λ q b ne'.
                let keep =
                  beside-append s.items r.1 fresh t (ready p) (ready q) same (out q b)
                    (is.queued.apart q p b bound ne') in
                (keep.0, keep.1, listed q b));
        counted = is.counted;
      },
      refl,
      (refl, refl),
    )

same_items : (m : Items) (xs : Cells) → All (λ c. m c.0 ≡ m c.0) xs
same_items m [] = tt
same_items m ((a, t) ∷ xs) = (refl, same_items m xs)

-- Without memory the task changes and no queue does.
pub enqueue-null :
    (t p : ℕ) (y : Task) (s : Scheduler) (ready : ℕ → Cells)
    → IsScheduler s ready
    → p ≤ max_priority
    → (s.tasks t).state ≢ state_ready
    → (s' : Scheduler) × (enqueue (pos p) null t (record s { tasks = update s.tasks t y })
        ≡ done s')
      × IsScheduler s' (update ready p (ready p))
      × (s'.tasks ≡ update s.tasks t y)
      × SameCounts s s'
unfolding enqueue
enqueue-null t p y s ready is bound state =
    let tasks' = update s.tasks t y in
    let listed : (q : ℕ) → q ≤ max_priority → All (λ c. Listed tasks' q c.1) (ready q) = λ q b.
      Listed-update s.tasks t y q (ready q)
        (unlisted s.tasks t q (ready q) state (is.queued.listed q b)) (is.queued.listed q b) in
    (
      record s {
        priority_queues = update s.priority_queues p (s.priority_queues p);
        tasks = tasks';
      },
      rw (le→ltb max_priority p bound, append_item-null t (s.priority_queues p) s.items) refl,
      record {
        queued =
            Queued-update s.items s.items s.priority_queues s.tasks tasks' ready p
              (s.priority_queues p) (ready p) is.queued (is.queued.queue_at p bound)
              (listed p bound) (is.queued.once p bound)
              (λ q b ne.
                (same_items s.items (ready q), is.queued.apart q p b bound ne, listed q b));
        counted = is.counted;
      },
      refl,
      (refl, refl),
    )
