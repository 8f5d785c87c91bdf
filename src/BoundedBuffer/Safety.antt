-- ===== src/BoundedBuffer/Safety.antt =====
-- What the semaphores and the mutex of the bounded buffer are for.
use sty_linux.Base.{◌≤◌, ◌<◌, ◌≡◌, Bool, true, false, List, [], ◌∷◌, ◌++◌, arith}
use sty_linux.BoundedBuffer.{
  Shared, buffer_size, waits, locks, accesses, unlocks, posts, returns, Thread, produce, consume,
  stage, Reachable,
}
use sty_linux.BoundedBuffer.Invariant.{Reachable-Inv}
use sty_linux.BoundedBuffer.Counts.{between, uncounted, inside, total, total-append, Inv, bit}

-- The access of a thread is inside the buffer.
abbrev pub InBounds : Shared → Thread → Type 0
InBounds s (produce v x) = s.buffer_index < buffer_size
InBounds s (consume v x) = (0 < s.buffer_index) × (s.buffer_index ≤ buffer_size)

-- The counts of a sum of parts: no thread is counted in `uncounted` that is not in `between`.
uncounted-between : (ts : List Thread) → total uncounted ts ≤ total between ts
uncounted-between [] = omega arith
uncounted-between (produce v waits ∷ ts) = (let h = uncounted-between ts in omega arith)
uncounted-between (produce v locks ∷ ts) = (let h = uncounted-between ts in omega arith)
uncounted-between (produce v accesses ∷ ts) = (let h = uncounted-between ts in omega arith)
uncounted-between (produce v unlocks ∷ ts) = (let h = uncounted-between ts in omega arith)
uncounted-between (produce v posts ∷ ts) = (let h = uncounted-between ts in omega arith)
uncounted-between (produce v returns ∷ ts) = (let h = uncounted-between ts in omega arith)
uncounted-between (consume v waits ∷ ts) = (let h = uncounted-between ts in omega arith)
uncounted-between (consume v locks ∷ ts) = (let h = uncounted-between ts in omega arith)
uncounted-between (consume v accesses ∷ ts) = (let h = uncounted-between ts in omega arith)
uncounted-between (consume v unlocks ∷ ts) = (let h = uncounted-between ts in omega arith)
uncounted-between (consume v posts ∷ ts) = (let h = uncounted-between ts in omega arith)
uncounted-between (consume v returns ∷ ts) = (let h = uncounted-between ts in omega arith)

pub at_most_one : (x : Bool) → bit x ≤ 1
at_most_one true = omega arith
at_most_one false = omega arith

-- What the invariant says of a thread that is about to access the buffer.
in_bounds :
    (s : Shared) (xs : List Thread) (t : Thread) (ys : List Thread)
    → Inv s (xs ++ t ∷ ys)
    → stage t ≡ accesses
    → InBounds s t × (total inside xs ≡ 0) × (total inside ys ≡ 0)
in_bounds s xs (produce v accesses) ys inv at =
    let slots = inv.slots in
    let index = inv.index in
    let lock = inv.lock in
    let between_sum = total-append between xs (produce v accesses) ys in
    let uncounted_sum = total-append uncounted xs (produce v accesses) ys in
    let inside_sum = total-append inside xs (produce v accesses) ys in
    let left = uncounted-between xs in
    let right = uncounted-between ys in
    let one = at_most_one s.mutex in (omega arith, omega arith, omega arith)
in_bounds s xs (produce v waits) ys inv at = absurd (cc (at))
in_bounds s xs (produce v locks) ys inv at = absurd (cc (at))
in_bounds s xs (produce v unlocks) ys inv at = absurd (cc (at))
in_bounds s xs (produce v posts) ys inv at = absurd (cc (at))
in_bounds s xs (produce v returns) ys inv at = absurd (cc (at))
in_bounds s xs (consume v accesses) ys inv at =
    let slots = inv.slots in
    let index = inv.index in
    let lock = inv.lock in
    let between_sum = total-append between xs (consume v accesses) ys in
    let uncounted_sum = total-append uncounted xs (consume v accesses) ys in
    let inside_sum = total-append inside xs (consume v accesses) ys in
    let left = uncounted-between xs in
    let right = uncounted-between ys in
    let one = at_most_one s.mutex in ((omega arith, omega arith), omega arith, omega arith)
in_bounds s xs (consume v waits) ys inv at = absurd (cc (at))
in_bounds s xs (consume v locks) ys inv at = absurd (cc (at))
in_bounds s xs (consume v unlocks) ys inv at = absurd (cc (at))
in_bounds s xs (consume v posts) ys inv at = absurd (cc (at))
in_bounds s xs (consume v returns) ys inv at = absurd (cc (at))

-- In every reachable state a producer about to write has room in the buffer, a consumer about to read
-- has an item, and no other thread is inside the critical section.
pub Reachable-InBounds :
    (s : Shared) (xs : List Thread) (t : Thread) (ys : List Thread)
    → Reachable s (xs ++ t ∷ ys)
    → stage t ≡ accesses
    → InBounds s t × (total inside xs ≡ 0) × (total inside ys ≡ 0)
Reachable-InBounds s xs t ys reachable at =
    in_bounds s xs t ys (Reachable-Inv s (xs ++ t ∷ ys) reachable) at
