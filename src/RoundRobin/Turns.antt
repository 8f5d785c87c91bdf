-- ===== src/RoundRobin/Turns.antt =====
-- The loop of `main` in roundrobin.c: every task has its turn.
use sty_linux.Base.{
  ℕ, ◌≤◌, ◌<◌, ◌≡◌, ◌≢◌, refl, sym, ap, [], ◌∷◌, ◌++◌, List, append_assoc, append-nil, arith, none,
  done, ◌==◌, if◌then◌else◌, All, All-append, length, length-append, true, false, Bool-cases, inl,
  inr, ==→ne, ne→==,
}
use mathlib.Core.Path.{subst}
use sty_linux.Memory.{null}
use sty_linux.TaskQueue.{Items}
use sty_linux.TaskQueue.Laws.{Cells}
use sty_linux.RoundRobin.{Ring, turns}
use sty_linux.RoundRobin.Laws.{IsRing, member, next_task-IsRing, task_ready-IsRing}

abbrev pub tasks_of : Cells → List ℕ
tasks_of [] = []
tasks_of ((a, t) ∷ xs) = t ∷ tasks_of xs

-- No task stands in the list twice.
abbrev pub NoRepeat : Cells → Type 0
NoRepeat [] = Unit
NoRepeat ((a, t) ∷ xs) = (member t xs ≡ false) × NoRepeat xs

-- `malloc` has memory while one of its addresses below `capacity` is free.
abbrev pub Supplies : ℕ → (Items → ℕ) → Type 0
Supplies capacity malloc =
    (m : Items) (a : ℕ)
    → a ≢ null
    → a < capacity
    → m a ≡ none
    → (malloc m ≢ null) × (malloc m < capacity) × (m (malloc m) ≡ none)

abbrev pub Within : ℕ → Cells → Type 0
Within capacity xs = All (λ c. (c.0 ≢ null) × (c.0 < capacity)) xs

abbrev pub AreTasks : Cells → Type 0
AreTasks xs = All (λ c. c.1 ≢ null) xs

member-append :
    (u a t : ℕ) (xs : Cells) → member u xs ≡ false → t ≢ u → member u (xs ++ (a, t) ∷ []) ≡ false
member-append u a t [] out ne = rw (ne→== t u ne) refl
member-append u a t ((b, v) ∷ xs) out ne = elim (Bool-cases (v == u)) [
  | inl e ↦ (let inside : member u ((b, v) ∷ xs) ≡ true = rw e refl in absurd (cc))
  | inr e ↦
      rw e
        (member-append u a t xs (subst (λ z. (if z then true else member u xs) ≡ false) e out) ne)
]

member_tail :
    (u b v : ℕ) (xs : Cells) → member u ((b, v) ∷ xs) ≡ false → (u ≢ v) × (member u xs ≡ false)
member_tail u b v xs out = elim (Bool-cases (v == u)) [
  | inl e ↦ (let inside : member u ((b, v) ∷ xs) ≡ true = rw e refl in absurd (cc))
  | inr e ↦ (
    (λ same. ==→ne v u e (sym same)),
    subst (λ z. (if z then true else member u xs) ≡ false) e out,
  )
]

NoRepeat-append :
    (a t : ℕ) (xs : Cells) → member t xs ≡ false → NoRepeat xs → NoRepeat (xs ++ (a, t) ∷ [])
NoRepeat-append a t [] out once = (refl, tt)
NoRepeat-append a t ((b, v) ∷ xs) out once =
    let (ne, rest) = member_tail t b v xs out in
    (member-append v a t xs once.0 ne, NoRepeat-append a t xs rest once.1)

module _ (malloc : Items → ℕ) (capacity : ℕ) (supplies : Supplies capacity malloc) where
  turns_lem :
      (rounds : ℕ) (xs ys : Cells) (s : Ring)
      → IsRing s (xs ++ ys)
      → NoRepeat (xs ++ ys)
      → AreTasks (xs ++ ys)
      → Within capacity (xs ++ ys)
      → length (xs ++ ys) ≤ rounds
      → (s' : Ring) × (zs : Cells) × (turns malloc rounds (length xs) s ≡ done (tasks_of xs, s'))
        × IsRing s' (ys ++ zs)
        × (tasks_of zs ≡ tasks_of xs)
  unfolding turns
  turns_lem rounds [] ys s is once tasks within fuel =
      (s, [], refl, subst (λ z. IsRing s z) (sym (append-nil ys)) is, refl)
  turns_lem rounds ((a, t) ∷ xs) ys s is once tasks within fuel =
      let (s1, runs1, is1, states1, freed) = next_task-IsRing a t s (xs ++ ys) is in
      let (ok, small, free) = supplies s1.items a within.0.0 within.0.1 freed in
      let fresh = malloc s1.items in
      let (s2, runs2, is2, states2) =
        task_ready-IsRing rounds fresh t s1 (xs ++ ys) is1 (omega arith) tasks.0 ok free in
      let assoc = append_assoc xs ys ((fresh, t) ∷ []) in
      let is2' : IsRing s2 ((xs ++ ys) ++ (fresh, t) ∷ []) =
        subst (λ z. IsRing s2 (if z then xs ++ ys else (xs ++ ys) ++ (fresh, t) ∷ [])) once.0 is2 in
      let (s3, zs, runs3, is3, same) =
        turns_lem rounds xs (ys ++ (fresh, t) ∷ []) s2 (subst (λ z. IsRing s2 z) assoc is2')
          (subst NoRepeat assoc (NoRepeat-append fresh t (xs ++ ys) once.0 once.1))
          (subst AreTasks assoc
            (All-append (λ c. c.1 ≢ null) (xs ++ ys) ((fresh, t) ∷ []) tasks.1 (tasks.0, tt)))
          (subst (Within capacity) assoc (
            All-append (λ c. (c.0 ≢ null) × (c.0 < capacity)) (xs ++ ys) ((fresh, t) ∷ []) within.1
              ((ok, small), tt)))
          (subst (λ z. length z ≤ rounds) assoc
            (omega (arith, length-append (xs ++ ys) ((fresh, t) ∷ [])))) in
      (
        s3,
        (fresh, t) ∷ zs,
        rw (runs1, runs2, runs3) refl,
        subst (λ z. IsRing s3 z) (append_assoc ys ((fresh, t) ∷ []) zs) is3,
        ap (λ z. t ∷ z) same,
      )

  -- If no task stands in the list twice and none is NULL, every item is at an address that malloc can give again, malloc
  -- has memory while such an address is free, and the loops get as many rounds as there are tasks, then
  -- as many turns as there are tasks end, run each task once in the order of the list, and leave a list
  -- of the same tasks in the same order.
  pub turns-cycle :
      (rounds : ℕ) (xs : Cells) (s : Ring)
      → IsRing s xs
      → NoRepeat xs
      → AreTasks xs
      → Within capacity xs
      → length xs ≤ rounds
      → (s' : Ring) × (zs : Cells) × (turns malloc rounds (length xs) s ≡ done (tasks_of xs, s'))
        × IsRing s' zs
        × (tasks_of zs ≡ tasks_of xs)
  turns-cycle rounds xs s is once tasks within fuel =
      let nil = sym (append-nil xs) in
      turns_lem rounds xs [] s (subst (λ z. IsRing s z) nil is) (subst NoRepeat nil once)
        (subst AreTasks nil tasks) (subst (Within capacity) nil within)
        (subst (λ z. length z ≤ rounds) nil fuel)
