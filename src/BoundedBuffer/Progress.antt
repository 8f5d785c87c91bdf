-- ===== src/BoundedBuffer/Progress.antt =====
-- Which threads of the bounded buffer can go on.
use sty_linux.Base.{
  ℕ, ◌+◌, ◌-◌, ◌≡◌, ◌≢◌, refl, sym, ap, ◌∙◌, ◌⊎◌, inl, inr, true, false, List, [], ◌∷◌, some, arith,
  Bool-cases, ne→==, ==→eq, ◌==◌,
}
use mathlib.Core.Path.{subst}
use sty_linux.BoundedBuffer.{
  Shared, buffer_size, Stage, waits, locks, accesses, unlocks, posts, returns, Thread, produce,
  consume, step, Reachable,
}
use sty_linux.BoundedBuffer.Invariant.{Reachable-Inv}
use sty_linux.BoundedBuffer.Counts.{between, inside, total, bit}

-- The thread can make a step.
abbrev pub Goes : Shared → Thread → Type 0
Goes s t = (t' : Thread) × (s' : Shared) × (step t s ≡ some (t', s'))

-- A thread of the list can.
abbrev pub SomeGoes : Shared → List Thread → Type 0
SomeGoes s [] = ⊥
SomeGoes s (t ∷ ts) = Goes s t ⊎ SomeGoes s ts

-- A thread inside the critical section can go on.
inside-Goes : (s : Shared) (t : Thread) → (inside t ≡ 0) ⊎ Goes s t
unfolding step
inside-Goes s (produce v waits) = inl refl
inside-Goes s (produce v locks) = inl refl
inside-Goes s (produce v accesses) = inr (_, _, refl)
inside-Goes s (produce v unlocks) = inr (_, _, refl)
inside-Goes s (produce v posts) = inl refl
inside-Goes s (produce v returns) = inl refl
inside-Goes s (consume v waits) = inl refl
inside-Goes s (consume v locks) = inl refl
inside-Goes s (consume v accesses) = inr (_, _, refl)
inside-Goes s (consume v unlocks) = inr (_, _, refl)
inside-Goes s (consume v posts) = inl refl
inside-Goes s (consume v returns) = inl refl

-- While the mutex is free, so can every thread between the semaphores.
between-Goes : (s : Shared) (t : Thread) → s.mutex ≡ false → (between t ≡ 0) ⊎ Goes s t
unfolding step
between-Goes s (produce v waits) free = inl refl
between-Goes s (produce v locks) free =
    inr (produce v accesses, record s { mutex = true }, rw free refl)
between-Goes s (produce v accesses) free = inr (_, _, refl)
between-Goes s (produce v unlocks) free = inr (_, _, refl)
between-Goes s (produce v posts) free = inr (_, _, refl)
between-Goes s (produce v returns) free = inl refl
between-Goes s (consume v waits) free = inl refl
between-Goes s (consume v locks) free =
    inr (consume v accesses, record s { mutex = true }, rw free refl)
between-Goes s (consume v accesses) free = inr (_, _, refl)
between-Goes s (consume v unlocks) free = inr (_, _, refl)
between-Goes s (consume v posts) free = inr (_, _, refl)
between-Goes s (consume v returns) free = inl refl

total-Goes :
    (f : Thread → ℕ) (s : Shared) (ts : List Thread)
    → ((t : Thread) → (f t ≡ 0) ⊎ Goes s t)
    → (total f ts ≡ 0) ⊎ SomeGoes s ts
total-Goes f s [] each = inl refl
total-Goes f s (t ∷ ts) each = elim (each t) [
  | inr goes ↦ inr (inl goes)
  | inl z ↦ elim (total-Goes f s ts each) [
    | inr goes ↦ inr (inr goes)
    | inl rest ↦ inl (omega arith)
  ]
]

-- A thread of the list is this one.
abbrev pub Has : Thread → List Thread → Type 0
Has t [] = ⊥
Has t (x ∷ xs) = (x ≡ t) ⊎ Has t xs

Has-Goes : (s : Shared) (t : Thread) (ts : List Thread) → Has t ts → Goes s t → SomeGoes s ts
Has-Goes s t [] has goes = absurd has
Has-Goes s t (x ∷ xs) (inl e) goes = inl (subst (Goes s) (sym e) goes)
Has-Goes s t (x ∷ xs) (inr has) goes = inr (Has-Goes s t xs has goes)

some_waits :
    (s : Shared) (v w : ℕ) (ts : List Thread)
    → Has (produce v waits) ts
    → Has (consume w waits) ts
    → s.empty + s.full ≡ buffer_size
    → SomeGoes s ts
unfolding step
some_waits s v w ts producer consumer sum = elim (Bool-cases (s.empty == 0)) [
  | inr e ↦
      Has-Goes s (produce v waits) ts producer
        (produce v locks, record s { empty = s.empty - 1 }, rw e refl)
  | inl e ↦
      let ne : s.full ≢ 0 = (λ z. let y = ==→eq s.empty 0 e in omega arith) in
      Has-Goes s (consume w waits) ts consumer
        (consume w locks, record s { full = s.full - 1 }, rw (ne→== s.full 0 ne) refl)
]

Has-between : (t : Thread) (ts : List Thread) → Has t ts → total between ts ≡ 0 → between t ≡ 0
Has-between t [] has z = absurd has
Has-between t (x ∷ xs) (inl e) z = ap between (sym e) ∙ omega arith
Has-between t (x ∷ xs) (inr has) z = Has-between t xs has (omega arith)

-- A call that is not at its end and not between the semaphores is before its wait.
waits_produce : (v : ℕ) (x : Stage) → x ≢ returns → between (produce v x) ≡ 0 → x ≡ waits
waits_produce v waits ne z = refl
waits_produce v locks ne z = absurd (omega arith)
waits_produce v accesses ne z = absurd (omega arith)
waits_produce v unlocks ne z = absurd (omega arith)
waits_produce v posts ne z = absurd (omega arith)
waits_produce v returns ne z = absurd (ne refl)

waits_consume : (v : ℕ) (x : Stage) → x ≢ returns → between (consume v x) ≡ 0 → x ≡ waits
waits_consume v waits ne z = refl
waits_consume v locks ne z = absurd (omega arith)
waits_consume v accesses ne z = absurd (omega arith)
waits_consume v unlocks ne z = absurd (omega arith)
waits_consume v posts ne z = absurd (omega arith)
waits_consume v returns ne z = absurd (ne refl)

-- In every reachable state where a call of produce and a call of consume are not at their ends, some
-- thread can make a step.
pub Reachable-SomeGoes :
    (s : Shared) (ts : List Thread) (v w : ℕ) (x y : Stage)
    → Reachable s ts
    → Has (produce v x) ts
    → x ≢ returns
    → Has (consume w y) ts
    → y ≢ returns
    → SomeGoes s ts
Reachable-SomeGoes s ts v w x y reachable producer x_ne consumer y_ne =
    let inv = Reachable-Inv s ts reachable in
    let slots = inv.slots in
    let lock = inv.lock in
    elim (total-Goes inside s ts (inside-Goes s)) [
      | inr goes ↦ goes
      | inl out ↦ elim (Bool-cases s.mutex) [
        | inl held ↦ absurd (let h = ap bit held in omega arith)
        | inr free ↦ elim (total-Goes between s ts (λ t. between-Goes s t free)) [
          | inr goes ↦ goes
          | inl idle ↦
              let px = waits_produce v x x_ne (Has-between (produce v x) ts producer idle) in
              let cy = waits_consume w y y_ne (Has-between (consume w y) ts consumer idle) in
              some_waits s v w ts (subst (λ z. Has (produce v z) ts) px producer)
                (subst (λ z. Has (consume w z) ts) cy consumer) (omega arith)
        ]
      ]
    ]
