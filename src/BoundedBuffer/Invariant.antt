-- ===== src/BoundedBuffer/Invariant.antt =====
-- What holds in every interleaving of the bounded buffer.
use sty_linux.Base.{
  ℕ, suc, ◌+◌, ◌-◌, ◌≤◌, ◌≡◌, refl, sym, ap, ◌∙◌, ◌==◌, List, [], ◌∷◌, Option, none, some, update,
  arith, Bool-cases, inl, inr, ==→ne, ==_self,
}
use mathlib.Core.Path.{subst}
use sty_linux.BoundedBuffer.{
  Shared, buffer_size, waits, locks, accesses, unlocks, posts, returns, Thread, produce, consume,
  step, Move, moves, AllStart, Reachable, starts, goes_on,
}
use sty_linux.BoundedBuffer.Counts.{
  between, uncounted, inside, total, total-append, count, stored, bit, Balanced, Inv, stored-update,
}

-- What a step changes, by the counts of its thread before and after.
abbrev pub Effect : Thread → Shared → Option (Thread × Shared) → Type 0
Effect t s none = Unit
Effect t s (some (t', s')) =
    (s'.empty + s'.full + between t' ≡ s.empty + s.full + between t)
    × (s'.buffer_index + s.full + uncounted t ≡ s.buffer_index + s'.full + uncounted t')
    × (bit s'.mutex + inside t ≡ bit s.mutex + inside t')
    × Balanced s'

take_one :
    (n : ℕ) (s : Shared)
    → s.buffer_index ≡ suc n
    → Balanced s
    → (v : ℕ) → count v s.produced ≡ count v (s.buffer n ∷ s.consumed) + count v (stored n s.buffer)
take_one n s e items v =
    let here : count v s.produced ≡ count v s.consumed + count v (stored (suc n) s.buffer) =
      subst (λ z. count v s.produced ≡ count v s.consumed + count v (stored z s.buffer)) e
        (items v) in
    omega (arith, here)

pub step-Effect :
    (t : Thread) (s : Shared)
    → uncounted t ≤ s.buffer_index
    → inside t ≤ bit s.mutex
    → Balanced s
    → Effect t s (step t s)
unfolding step
step-Effect (produce v waits) s counted locked items = elim (Bool-cases (s.empty == 0)) [
  | inl e ↦ rw e tt
  | inr e ↦ (let ne = ==→ne s.empty 0 e in rw e (omega arith, omega arith, omega arith, items))
]
step-Effect (produce v locks) s counted locked items = elim (Bool-cases s.mutex) [
  | inl e ↦ rw e tt
  | inr e ↦ rw e (omega arith, omega arith, omega arith, items)
]
step-Effect (produce v accesses) s counted locked items = (
  omega arith,
  omega arith,
  omega arith,
  λ u.
      let same : count u (stored s.buffer_index (update s.buffer s.buffer_index v))
          ≡ count u (stored s.buffer_index s.buffer) =
        ap (count u) (stored-update s.buffer_index s.buffer_index v s.buffer (omega arith)) in
      rw (==_self s.buffer_index) (omega (arith, items u, same)),
)
step-Effect (produce v unlocks) s counted locked items = elim (Bool-cases s.mutex) [
  | inl e ↦ rw e (omega arith, omega arith, omega arith, items)
  | inr e ↦ absurd (let f = ap bit e in omega (arith, f))
]
step-Effect (produce v posts) s counted locked items =
    (omega arith, omega arith, omega arith, items)
step-Effect (produce v returns) s counted locked items = tt
step-Effect (consume v waits) s counted locked items = elim (Bool-cases (s.full == 0)) [
  | inl e ↦ rw e tt
  | inr e ↦ (let ne = ==→ne s.full 0 e in rw e (omega arith, omega arith, omega arith, items))
]
step-Effect (consume v locks) s counted locked items = elim (Bool-cases s.mutex) [
  | inl e ↦ rw e tt
  | inr e ↦ rw e (omega arith, omega arith, omega arith, items)
]
step-Effect (consume v accesses) s counted locked items =
    (omega arith, omega arith, omega arith, take_one (s.buffer_index - 1) s (omega arith) items)
step-Effect (consume v unlocks) s counted locked items = elim (Bool-cases s.mutex) [
  | inl e ↦ rw e (omega arith, omega arith, omega arith, items)
  | inr e ↦ absurd (let f = ap bit e in omega (arith, f))
]
step-Effect (consume v posts) s counted locked items =
    (omega arith, omega arith, omega arith, items)
step-Effect (consume v returns) s counted locked items = tt

-- A step of one thread keeps what holds of all.
pub Move-Inv :
    (s : Shared) (ts : List Thread) (s' : Shared) (ts' : List Thread)
    → Inv s ts
    → Move s ts s' ts'
    → Inv s' ts'
Move-Inv s ts s' ts' inv (moves xs t t' ys before goes after) =
    let between_sum = ap (total between) before ∙ total-append between xs t ys in
    let uncounted_sum = ap (total uncounted) before ∙ total-append uncounted xs t ys in
    let inside_sum = ap (total inside) before ∙ total-append inside xs t ys in
    let slots = inv.slots in
    let index = inv.index in
    let lock = inv.lock in
    let effect = subst (Effect t s) goes (
      step-Effect t s (omega (arith, index, uncounted_sum)) (omega (arith, lock, inside_sum))
        inv.items) in
    record {
      slots = omega (
        arith,
        slots,
        between_sum,
        effect.0,
        ap (total between) after,
        total-append between xs t' ys,
      );
      index = omega (
        arith,
        index,
        uncounted_sum,
        effect.1,
        ap (total uncounted) after,
        total-append uncounted xs t' ys,
      );
      lock = omega (
        arith,
        lock,
        inside_sum,
        effect.2,
        ap (total inside) after,
        total-append inside xs t' ys,
      );
      items = effect.3;
    }

AllStart-total :
    (ts : List Thread)
    → AllStart ts
    → (total between ts ≡ 0) × (total uncounted ts ≡ 0) × (total inside ts ≡ 0)
AllStart-total [] start = (refl, refl, refl)
AllStart-total (produce v waits ∷ ts) start =
    (let h = AllStart-total ts start.1 in
      (omega (arith, h.0), omega (arith, h.1), omega (arith, h.2)))
AllStart-total (produce v locks ∷ ts) start = absurd (cc (start.0))
AllStart-total (produce v accesses ∷ ts) start = absurd (cc (start.0))
AllStart-total (produce v unlocks ∷ ts) start = absurd (cc (start.0))
AllStart-total (produce v posts ∷ ts) start = absurd (cc (start.0))
AllStart-total (produce v returns ∷ ts) start = absurd (cc (start.0))
AllStart-total (consume v waits ∷ ts) start =
    (let h = AllStart-total ts start.1 in
      (omega (arith, h.0), omega (arith, h.1), omega (arith, h.2)))
AllStart-total (consume v locks ∷ ts) start = absurd (cc (start.0))
AllStart-total (consume v accesses ∷ ts) start = absurd (cc (start.0))
AllStart-total (consume v unlocks ∷ ts) start = absurd (cc (start.0))
AllStart-total (consume v posts ∷ ts) start = absurd (cc (start.0))
AllStart-total (consume v returns ∷ ts) start = absurd (cc (start.0))

-- In every state that the threads reach from init, whatever the interleaving: the two semaphores and the
-- threads between them make ten slots, the index counts the items in the buffer, the mutex is held
-- exactly when one thread is inside, and each value has been put as often as it has been taken and is
-- stored.
pub Reachable-Inv : (s : Shared) (ts : List Thread) → Reachable s ts → Inv s ts
Reachable-Inv s ts (starts buffer e start) =
    let none = AllStart-total ts start in
    record {
      slots =
          subst (λ z. z.empty + z.full + total between ts ≡ buffer_size) (sym e)
            (let n = none.0 in omega arith);
      index =
          subst (λ z. z.buffer_index ≡ z.full + total uncounted ts) (sym e)
            (let n = none.1 in omega arith);
      lock = subst (λ z. total inside ts ≡ bit z.mutex) (sym e) (none.2);
      items = subst Balanced (sym e) (λ v. refl);
    }
Reachable-Inv s ts (goes_on s0 ts0 before move) =
    Move-Inv s0 ts0 s ts (Reachable-Inv s0 ts0 before) move
