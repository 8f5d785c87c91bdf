-- ===== src/BoundedBuffer/Counts.antt =====
-- What is counted in the threads and the buffer of Producer-ConsumerProblem3.c.
use sty_linux.Base.{
  ℕ, zero, suc, ◌+◌, ◌≤◌, ◌≡◌, ◌≢◌, refl, ap, ◌==◌, if◌then◌else◌, Bool, true, false, List, [], ◌∷◌,
  ◌++◌, update, arith, ne→==,
}
use sty_linux.BoundedBuffer.{
  Shared, buffer_size, waits, locks, accesses, unlocks, posts, returns, Thread, produce, consume,
}

-- A thread has taken from a semaphore and not given to the other.
abbrev pub between : Thread → ℕ
between (produce v waits) = 0
between (produce v locks) = 1
between (produce v accesses) = 1
between (produce v unlocks) = 1
between (produce v posts) = 1
between (produce v returns) = 0
between (consume v waits) = 0
between (consume v locks) = 1
between (consume v accesses) = 1
between (consume v unlocks) = 1
between (consume v posts) = 1
between (consume v returns) = 0

-- The item of the thread is in the buffer and not counted by `full`.
abbrev pub uncounted : Thread → ℕ
uncounted (produce v waits) = 0
uncounted (produce v locks) = 0
uncounted (produce v accesses) = 0
uncounted (produce v unlocks) = 1
uncounted (produce v posts) = 1
uncounted (produce v returns) = 0
uncounted (consume v waits) = 0
uncounted (consume v locks) = 1
uncounted (consume v accesses) = 1
uncounted (consume v unlocks) = 0
uncounted (consume v posts) = 0
uncounted (consume v returns) = 0

-- The thread holds the mutex.
abbrev pub inside : Thread → ℕ
inside (produce v waits) = 0
inside (produce v locks) = 0
inside (produce v accesses) = 1
inside (produce v unlocks) = 1
inside (produce v posts) = 0
inside (produce v returns) = 0
inside (consume v waits) = 0
inside (consume v locks) = 0
inside (consume v accesses) = 1
inside (consume v unlocks) = 1
inside (consume v posts) = 0
inside (consume v returns) = 0

abbrev pub total : (Thread → ℕ) → List Thread → ℕ
total f [] = 0
total f (t ∷ ts) = f t + total f ts

pub total-append :
    (f : Thread → ℕ) (xs : List Thread) (t : Thread) (ys : List Thread)
    → total f (xs ++ t ∷ ys) ≡ total f xs + f t + total f ys
total-append f [] t ys = omega arith
total-append f (x ∷ xs) t ys = omega (arith, total-append f xs t ys)

abbrev pub count : ℕ → List ℕ → ℕ
count v [] = 0
count v (x ∷ xs) = (if x == v then 1 else 0) + count v xs

-- The items in the buffer, the latest first.
abbrev pub stored : ℕ → (ℕ → ℕ) → List ℕ
stored zero buffer = []
stored (suc n) buffer = buffer n ∷ stored n buffer

abbrev pub bit : Bool → ℕ
bit true = 1
bit false = 0

abbrev pub Balanced : Shared → Type 0
Balanced s =
    (v : ℕ) → count v s.produced ≡ count v s.consumed + count v (stored s.buffer_index s.buffer)

pub record Inv (s : Shared) (ts : List Thread) : Type 0 where
  pub slots : s.empty + s.full + total between ts ≡ buffer_size
  pub index : s.buffer_index ≡ s.full + total uncounted ts
  pub lock : total inside ts ≡ bit s.mutex
  pub items : Balanced s

pub stored-update :
    (n k v : ℕ) (buffer : ℕ → ℕ) → n ≤ k → stored n (update buffer k v) ≡ stored n buffer
stored-update zero k v buffer le = refl
stored-update (suc n) k v buffer le =
    let ne : n ≢ k = λ e. omega arith in
    rw (ne→== n k ne) (ap (λ x. buffer n ∷ x) (stored-update n k v buffer (omega arith)))
