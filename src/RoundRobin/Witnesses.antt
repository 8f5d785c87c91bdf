-- ===== src/RoundRobin/Witnesses.antt =====
-- The theorems on roundrobin.c at concrete lists.
use sty_linux.Base.{
  ℕ, zero, suc, ◌<◌, ◌≡◌, ◌≢◌, refl, ap, [], ◌∷◌, Option, none, some, done, true, Bool-cases, inl,
  inr, arith,
}
use mathlib.Core.Path.{subst}
use sty_linux.Memory.{null}
use sty_linux.TaskQueue.{Items, Item, item, write}
use sty_linux.TaskQueue.Laws.{Cells}
use sty_linux.RoundRobin.{Ring, state_new, turns}
use sty_linux.RoundRobin.Tests.{is_free, search_free}
use sty_linux.RoundRobin.Laws.{IsRing}
use sty_linux.RoundRobin.Turns.{Supplies, tasks_of, turns-cycle}

free_none : (x : Option Item) → is_free x ≡ true → x ≡ none
free_none none e = refl
free_none (some x) e = absurd (cc)

search_free_lem :
    (n a : ℕ) (m : Items)
    → a ≢ null
    → a < n
    → m a ≡ none
    → (search_free n m ≢ null) × (search_free n m < n) × (m (search_free n m) ≡ none)
search_free_lem zero a m ne below free = absurd (omega arith)
search_free_lem (suc n) a m ne below free = elim (Bool-cases (is_free (m n))) [
  | inl e ↦ rw e ((λ z. omega arith), omega arith, free_none (m n) e)
  | inr e ↦
      let other : a ≢ n = (λ same.
        let taken : is_free (m a) ≡ true = ap is_free free in
        let at = subst (λ z. is_free (m z) ≡ true) same taken in cc) in
      let (pos, small, rest) = search_free_lem n a m ne (omega arith) free in
      rw e (pos, omega arith, rest)
]

eight-Supplies : Supplies 8 (search_free 8)
eight-Supplies m a = search_free_lem 8 a m

abbrev two_items : Items
two_items = write (write (λ _. none) 1 (some (item 11 2))) 2 (some (item 12 0))

abbrev two_tasks : Ring
two_tasks = record { list_head = 1; items = two_items; states = λ _. state_new }

abbrev cells : Cells
cells = (1, 11) ∷ (2, 12) ∷ []

two_tasks-IsRing : IsRing two_tasks cells
two_tasks-IsRing = record {
  held = ((λ e. omega arith), refl, ((λ e. omega arith), refl, tt));
  distinct = (((λ e. omega arith), tt), (tt, tt));
  front = refl;
}

turns-cycle_example :
    (s' : Ring) × (zs : Cells) × (turns (search_free 8) 2 2 two_tasks ≡ done (11 ∷ 12 ∷ [], s'))
    × IsRing s' zs
    × (tasks_of zs ≡ 11 ∷ 12 ∷ [])
turns-cycle_example =
    turns-cycle (search_free 8) 8 eight-Supplies 2 cells two_tasks two_tasks-IsRing
      (refl, (refl, tt)) ((λ e. omega arith), ((λ e. omega arith), tt))
      (((λ e. omega arith), omega arith), (((λ e. omega arith), omega arith), tt)) (omega arith)
