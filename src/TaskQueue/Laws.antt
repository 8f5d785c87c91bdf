-- ===== src/TaskQueue/Laws.antt =====
-- A queue of scheduler.c stands for a list: items are added at its end and taken from its front.
use sty_linux.Base.{
  ℕ, ◌≡◌, ◌≢◌, refl, sym, ap, ◌∙◌, [], ◌∷◌, ◌++◌, List, none, some, Option, done, ne→==, ==_self,
  All, All-append,
}
use sty_linux.Memory.{null}
use sty_linux.TaskQueue.{Item, item, Items, write, Queue, queue, append_item, remove_first_item}

-- The address and the content of each item, in order.
abbrev pub Cells : Type 0
Cells = List (ℕ × ℕ)

abbrev pub first_or : ℕ → Cells → ℕ
first_or e [] = e
first_or e ((a, d) ∷ xs) = a

abbrev pub last_or : ℕ → Cells → ℕ
last_or e [] = e
last_or e ((a, d) ∷ xs) = last_or a xs

-- The items hold the contents, and lead from each to the next, and from the last to `e`.
abbrev pub Held : Items → ℕ → Cells → Type 0
Held m e [] = Unit
Held m e ((a, d) ∷ xs) = (a ≢ null) × (m a ≡ some (item d (first_or e xs))) × Held m e xs

abbrev pub Outside : ℕ → Cells → Type 0
Outside a xs = All (λ c. a ≢ c.0) xs

abbrev pub Distinct : Cells → Type 0
Distinct [] = Unit
Distinct ((a, d) ∷ xs) = Outside a xs × Distinct xs

pub record IsQueue (m : Items) (q : Queue) (xs : Cells) : Type 0 where
  pub held : Held m null xs
  pub distinct : Distinct xs
  pub front : q.head ≡ first_or null xs
  pub back : q.tail ≡ last_or null xs

pub write_self : (m : Items) (a : ℕ) (c : Option Item) → write m a c a ≡ c
write_self m a c = rw (==_self a)

pub write_other : (m : Items) (a x : ℕ) (c : Option Item) → x ≢ a → write m a c x ≡ m x
write_other m a x c ne = rw (ne→== x a ne)

pub Held-write :
    (m : Items) (a e : ℕ) (c : Option Item) (xs : Cells)
    → Outside a xs
    → Held m e xs
    → Held (write m a c) e xs
Held-write m a e c [] out h = tt
Held-write m a e c ((b, d) ∷ xs) out h =
    (h.0, write_other m a b c (λ eq. out.0 (sym eq)) ∙ h.1, Held-write m a e c xs out.1 h.2)

-- Cells at addresses that hold no item are outside.
pub Outside-none : (m : Items) (a e : ℕ) (xs : Cells) → m a ≡ none → Held m e xs → Outside a xs
Outside-none m a e [] free h = tt
Outside-none m a e ((b, d) ∷ xs) free h = ((λ eq. cc (h.1)), Outside-none m a e xs free h.2)

pub Outside-last : (x b f : ℕ) (xs : Cells) → Outside x ((b, f) ∷ xs) → x ≢ last_or b xs
Outside-last x b f [] out = out.0
Outside-last x b f ((c, g) ∷ xs) out = Outside-last x c g xs out.1

pub last_or-append : (e a d : ℕ) (xs : Cells) → last_or e (xs ++ (a, d) ∷ []) ≡ a
last_or-append e a d [] = refl
last_or-append e a d ((b, f) ∷ xs) = last_or-append b a d xs

pub Held-append :
    (m : Items) (a d : ℕ) (xs : Cells)
    → Held m a xs
    → a ≢ null
    → m a ≡ some (item d null)
    → Held m null (xs ++ (a, d) ∷ [])
Held-append m a d [] h ne there = (ne, there, tt)
Held-append m a d ((b, f) ∷ []) h ne there = (h.0, h.1, (ne, there, tt))
Held-append m a d ((b, f) ∷ (c, g) ∷ xs) h ne there =
    (h.0, h.1, Held-append m a d ((c, g) ∷ xs) h.2 ne there)

pub Distinct-append :
    (a d : ℕ) (xs : Cells) → Distinct xs → Outside a xs → Distinct (xs ++ (a, d) ∷ [])
Distinct-append a d [] apart out = (tt, tt)
Distinct-append a d ((b, f) ∷ xs) apart out = (
  All-append (λ c. b ≢ c.0) xs ((a, d) ∷ []) apart.0 ((λ e. out.0 (sym e)), tt),
  Distinct-append a d xs apart.1 out.1,
)

-- The last item is led to a new end.
pub relink :
    (m : Items) (a d e e' : ℕ) (xs : Cells)
    → Held m e ((a, d) ∷ xs)
    → Distinct ((a, d) ∷ xs)
    → (last : Item) × (m (last_or a xs) ≡ some last)
      × (last_or a xs ≢ null)
      × Held (write m (last_or a xs) (some (item last.content e'))) e' ((a, d) ∷ xs)
relink m a d e e' [] h apart = (item d e, h.1, h.0, (h.0, write_self m a (some (item d e')), tt))
relink m a d e e' ((b, f) ∷ xs) h apart =
    let (last, there, ne, rest) = relink m b f e e' xs h.2 apart.1 in
    (
      last,
      there,
      ne,
      (
        h.0,
        write_other m (last_or b xs) a (some (item last.content e')) (Outside-last a b f xs apart.0)
            ∙ h.1,
        rest,
      ),
    )

-- `appendItem` with memory puts the task at the end of the list that the queue stands for, and writes
-- only to the new item and the queue's.
pub append_item-IsQueue :
    (fresh d : ℕ) (q : Queue) (m : Items) (xs : Cells)
    → IsQueue m q xs
    → fresh ≢ null
    → m fresh ≡ none
    → (r : Queue × Items) × (append_item fresh q d m ≡ done r)
      × IsQueue r.1 r.0 (xs ++ (fresh, d) ∷ [])
      × ((x : ℕ) → Outside x xs → x ≢ fresh → r.1 x ≡ m x)
unfolding append_item
append_item-IsQueue fresh d q m [] is ne free = (
  (queue fresh fresh, write m fresh (some (item d null))),
  rw (ne→== fresh null ne, is.back),
  record {
    held = (ne, write_self m fresh (some (item d null)), tt);
    distinct = (tt, tt);
    front = refl;
    back = refl;
  },
  λ x out x_ne. write_other m fresh x (some (item d null)) x_ne,
)
append_item-IsQueue fresh d q m ((a, f) ∷ xs) is ne free =
    let m1 = write m fresh (some (item d null)) in
    let out = Outside-none m fresh null ((a, f) ∷ xs) free is.held in
    let (last, there, last_ne, relinked) =
      relink m1 a f null fresh xs
        (Held-write m fresh null (some (item d null)) ((a, f) ∷ xs) out is.held) is.distinct in
    let tail = last_or a xs in
    let m2 = write m1 tail (some (item last.content fresh)) in
    let far : fresh ≢ tail = Outside-last fresh a f xs out in
    let new : m2 fresh ≡ some (item d null) =
      write_other m1 tail fresh (some (item last.content fresh)) far
      ∙ write_self m fresh (some (item d null)) in
    (
      (queue q.head fresh, m2),
      rw (ne→== fresh null ne, is.back, ne→== tail null last_ne, there)
          (ap
            (λ z.
              let r : Queue × Items =
                (queue q.head fresh, write m1 z (some (item last.content fresh))) in
              done r)
            is.back),
      record {
        held = Held-append m2 fresh d ((a, f) ∷ xs) relinked ne new;
        distinct = Distinct-append fresh d ((a, f) ∷ xs) is.distinct out;
        front = is.front;
        back = sym (last_or-append a fresh d xs);
      },
      λ x x_out x_ne.
          write_other m1 tail x (some (item last.content fresh)) (Outside-last x a f xs x_out)
          ∙ write_other m fresh x (some (item d null)) x_ne,
    )

-- Without memory `appendItem` does nothing: the task is in no queue.
pub append_item-null : (d : ℕ) (q : Queue) (m : Items) → append_item null q d m ≡ done (q, m)
unfolding append_item
append_item-null d q m = refl

pub remove_first_item-nil :
    (q : Queue) (m : Items) → IsQueue m q [] → remove_first_item q m ≡ done (null, q, m)
unfolding remove_first_item
remove_first_item-nil q m is = rw is.front

-- `removeFirstItem` of a queue that is not empty returns the task at the front, frees its item, and
-- leaves a queue that stands for the rest of the list.
pub remove_first_item-cons :
    (a d : ℕ) (q : Queue) (m : Items) (xs : Cells)
    → IsQueue m q ((a, d) ∷ xs)
    → (q' : Queue) × (remove_first_item q m ≡ done (d, q', write m a none))
      × IsQueue (write m a none) q' xs
unfolding remove_first_item
remove_first_item-cons a d q m [] is = (
  queue null null,
  rw (is.front, ne→== a null is.held.0, is.held.1)
      (ap (λ z. let r : ℕ × Queue × Items = (d, queue null null, write m z none) in done r)
        is.front),
  record { held = tt; distinct = tt; front = refl; back = refl },
)
remove_first_item-cons a d q m ((b, g) ∷ ys) is = (
  queue b q.tail,
  rw (is.front, ne→== a null is.held.0, is.held.1, ne→== b null is.held.2.0)
      (ap (λ z. let r : ℕ × Queue × Items = (d, queue b q.tail, write m z none) in done r)
        is.front),
  record {
    held = Held-write m a null none ((b, g) ∷ ys) is.distinct.0 is.held.2;
    distinct = is.distinct.1;
    front = refl;
    back = is.back;
  },
)

-- A write elsewhere leaves a queue as it is.
pub IsQueue-frame :
    (m m' : Items) (q : Queue) (xs : Cells)
    → All (λ c. m' c.0 ≡ m c.0) xs
    → IsQueue m q xs
    → IsQueue m' q xs
IsQueue-frame m m' q xs same is = record {
  held = keep xs is.held same;
  distinct = is.distinct;
  front = is.front;
  back = is.back;
}
  where
    keep : (ys : Cells) → Held m null ys → All (λ c. m' c.0 ≡ m c.0) ys → Held m' null ys
    keep [] h same = tt
    keep ((a, d) ∷ ys) h same = (h.0, same.0 ∙ h.1, keep ys h.2 same.1)
