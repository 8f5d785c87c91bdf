-- ===== src/RoundRobin/Laws.antt =====
-- What the calls of roundrobin.c do to the list of waiting tasks.
use sty_linux.Base.{
  ℕ, zero, suc, ◌<◌, ◌≡◌, ◌≢◌, refl, sym, ◌∙◌, [], ◌∷◌, ◌++◌, arith, none, some, done, ne→==, ◌==◌,
  if◌then◌else◌, length, Bool, true, false, Bool-cases, inl, inr, update,
}
use mathlib.Core.Path.{subst}
use sty_linux.Memory.{null}
use sty_linux.TaskQueue.{Item, item, Items, write}
use sty_linux.TaskQueue.Laws.{
  Cells, Outside, Held, Distinct, first_or, last_or, Held-write, Held-append, Distinct-append,
  write_self, write_other, relink, Outside-last, Outside-none,
}
use sty_linux.RoundRobin.{
  Ring, state_ready, last_item, set_next_item, list_append_item, list_remove_first_item,
  contains_item, next_task, task_ready,
}

-- The ring's list has these items, in this order.
pub record IsRing (s : Ring) (xs : Cells) : Type 0 where
  pub held : Held s.items null xs
  pub distinct : Distinct xs
  pub front : s.list_head ≡ first_or null xs

last_item_lem :
    (n a d : ℕ) (m : Items) (xs : Cells)
    → Held m null ((a, d) ∷ xs)
    → length xs < n
    → last_item n a m ≡ done (last_or a xs)
unfolding last_item
last_item_lem zero a d m xs h fuel = absurd (omega arith)
last_item_lem (suc n) a d m [] h fuel = rw (h.1, last_item) refl
last_item_lem (suc n) a d m ((b, e) ∷ xs) h fuel =
    rw (h.1, last_item, ne→== b null h.2.0) (last_item_lem n b e m xs h.2 (omega arith))

abbrev pub member : ℕ → Cells → Bool
member t [] = false
member t ((a, d) ∷ xs) = if d == t then true else member t xs

contains_item_lem :
    (n t : ℕ) (m : Items) (xs : Cells)
    → Held m null xs
    → length xs < n
    → contains_item n (first_or null xs) t m ≡ done (member t xs)
unfolding contains_item
contains_item_lem zero t m xs h fuel = absurd (omega arith)
contains_item_lem (suc n) t m [] h fuel = refl
contains_item_lem (suc n) t m ((a, d) ∷ xs) h fuel = elim (Bool-cases (d == t)) [
  | inl e ↦ rw (ne→== a null h.0, h.1, e) refl
  | inr e ↦ rw (ne→== a null h.0, h.1, e) (contains_item_lem n t m xs h.2 (omega arith))
]

set_next_item_lem :
    (p q : ℕ) (m : Items) (x : Item)
    → m p ≡ some x
    → set_next_item p q m ≡ done (write m p (some (item x.content q)))
unfolding set_next_item
set_next_item_lem p q m x e = rw (e, set_next_item) refl

-- appendItem puts the task at the end.
pub list_append_item-IsRing :
    (rounds fresh t : ℕ) (s : Ring) (xs : Cells)
    → IsRing s xs
    → length xs < rounds
    → fresh ≢ null
    → s.items fresh ≡ none
    → (s' : Ring) × (list_append_item rounds fresh t s ≡ done s')
      × IsRing s' (xs ++ (fresh, t) ∷ [])
      × (s'.states ≡ s.states)
unfolding list_append_item
list_append_item-IsRing rounds fresh t s [] is fuel ne free =
    let empty : (s.list_head == null) ≡ true = rw is.front refl in
    (
      record s { list_head = fresh; items = write s.items fresh (some (item t null)) },
      rw (ne→== fresh null ne, empty) refl,
      record {
        held = (ne, write_self s.items fresh (some (item t null)), tt);
        distinct = (tt, tt);
        front = refl;
      },
      refl,
    )
list_append_item-IsRing rounds fresh t s ((a, d) ∷ xs) is fuel ne free =
    let m1 = write s.items fresh (some (item t null)) in
    let out = Outside-none s.items fresh null ((a, d) ∷ xs) free is.held in
    let held1 = Held-write s.items fresh null (some (item t null)) ((a, d) ∷ xs) out is.held in
    let (last, there, last_ne, relinked) = relink m1 a d null fresh xs held1 is.distinct in
    let tail = last_or a xs in
    let m2 = write m1 tail (some (item last.content fresh)) in
    let new : m2 fresh ≡ some (item t null) =
      write_other m1 tail fresh (some (item last.content fresh)) (Outside-last fresh a d xs out)
      ∙ write_self s.items fresh (some (item t null)) in
    let full : (s.list_head == null) ≡ false = rw is.front (ne→== a null is.held.0) in
    let found : last_item rounds s.list_head m1 ≡ done tail =
      subst (λ z. last_item rounds z m1 ≡ done tail) (sym is.front)
        (last_item_lem rounds a d m1 xs held1 (omega arith)) in
    (
      record s { items = m2 },
      rw (ne→== fresh null ne, full, found, set_next_item_lem tail fresh m1 last there) refl,
      record {
        held = Held-append m2 fresh t ((a, d) ∷ xs) relinked ne new;
        distinct = Distinct-append fresh t ((a, d) ∷ xs) is.distinct out;
        front = is.front;
      },
      refl,
    )

-- scheduleNextTask takes the task at the front.
pub next_task-IsRing :
    (a t : ℕ) (s : Ring) (xs : Cells)
    → IsRing s ((a, t) ∷ xs)
    → (s' : Ring) × (next_task s ≡ done (t, s'))
      × IsRing s' xs
      × (s'.states ≡ s.states)
      × (s'.items a ≡ none)
unfolding next_task list_remove_first_item
next_task-IsRing a t s xs is =
    let full : (s.list_head == null) ≡ false = rw is.front (ne→== a null is.held.0) in
    let at : s.items s.list_head ≡ some (item t (first_or null xs)) =
      subst (λ z. s.items z ≡ some (item t (first_or null xs))) (sym is.front) is.held.1 in
    (
      record s { list_head = first_or null xs; items = write s.items s.list_head none },
      rw (full, at) refl,
      record {
        held =
            Held-write s.items s.list_head null none xs
              (subst (λ z. Outside z xs) (sym is.front) is.distinct.0) is.held.2;
        distinct = is.distinct.1;
        front = refl;
      },
      refl,
      subst (λ z. write s.items z none a ≡ none) (sym is.front) (write_self s.items a none),
    )

-- With a task that is not NULL, an item from malloc and rounds for the whole list, onTaskReady ends with the task in state ready
-- and every other state as it was. If the task is in the list, the list stays; if not, the task is put
-- at its end.
pub task_ready-IsRing :
    (rounds fresh t : ℕ) (s : Ring) (xs : Cells)
    → IsRing s xs
    → length xs < rounds
    → t ≢ null
    → fresh ≢ null
    → s.items fresh ≡ none
    → (s' : Ring) × (task_ready rounds fresh t s ≡ done s')
      × IsRing s' (if member t xs then xs else xs ++ (fresh, t) ∷ [])
      × (s'.states ≡ update s.states t state_ready)
unfolding task_ready
task_ready-IsRing rounds fresh t s xs is fuel exists ne free =
    let s1 : Ring = record s { states = update s.states t state_ready } in
    let is1 : IsRing s1 xs = record { held = is.held; distinct = is.distinct; front = is.front } in
    let looks : contains_item rounds s.list_head t s.items ≡ done (member t xs) =
      subst (λ z. contains_item rounds z t s.items ≡ done (member t xs)) (sym is.front)
        (contains_item_lem rounds t s.items xs is.held fuel) in
    elim (Bool-cases (member t xs)) [
      | inl e ↦ (s1, rw (ne→== t null exists, looks, e) refl, rw e is1, refl)
      | inr e ↦
          let (s', runs, is', states) =
            list_append_item-IsRing rounds fresh t s1 xs is1 fuel ne free in
          (s', rw (ne→== t null exists, looks, e) runs, rw e is', states)
    ]
