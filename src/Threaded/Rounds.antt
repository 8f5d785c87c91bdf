-- ===== src/Threaded/Rounds.antt =====
-- The loops of the threaded allocator, run by the thread that holds the mutex, give what the loops of
-- BestFit give.
use sty_linux.Base.{
  ℕ, zero, suc, ◌+◌, ◌≡◌, ap, ◌∙◌, ◌==◌, ltb, if◌then◌else◌, Bool, true, false, List, Run, done,
  >>=-done, done-injective,
}
use sty_linux.Memory.{null}
use sty_linux.BestFit.{
  Heap, Link, head, next_of, load_link, loop_fuel, better, link_to, search_best, insert_position,
  locate, add_region, has_region,
}
use sty_linux.Mutex.{act, until_free}
use sty_linux.Threaded.{
  Shared, Next, with_heap, search_rounds, insert_rounds, locate_rounds, insert_region, open_region,
  link_region,
}

-- Two conditionals on one test agree if their branches do.
pub if_both {ℓ κ η} :
    {A : Type ℓ} {B : Type κ} (P : A → B → Type η) (b : Bool) {u v : A} {x y : B}
    → P u x
    → P v y
    → P (if b then u else v) (if b then x else y)
if_both P true p q = p
if_both P false p q = q

module _ (d : ℕ) (s : Shared) where
  -- If the code of BestFit gives `r`, the calls go on as the caller does with `r`.
  abbrev Gives : {A : Type 0} → (A → Next) → A → Run A → Next → Type 0
  Gives k r code calls = code ≡ done r → until_free (suc d) calls s ≡ until_free (suc d) (k r) s

  ends-Gives : {A : Type 0} (k : A → Next) (r a : A) → Gives k r (done a) (k a)
  ends-Gives k r a e = ap (λ z. until_free (suc d) (k z) s) (done-injective a r e)

  pub search_rounds-run :
      (f want prev current best : ℕ) (link : Link) (k : ℕ × Link → Next) (r : ℕ × Link)
      → search_best f s.heap.mem want prev current best link ≡ done r
      → until_free (suc d) (search_rounds f want prev current best link k) s
        ≡ until_free (suc d) (k r) s
  unfolding search_best search_rounds
  search_rounds-run zero want prev current best link k r e = absurd (cc)
  search_rounds-run (suc f) want prev current best link k r e =
      let found = better s.heap.mem want best current in
      if_both (Gives k r) (current == null) (ends-Gives k r (best, link))
        (search_rounds-run f want current (s.heap.mem current).next
          (if found then current else best) (if found then link_to prev else link) k r)
        e

  pub insert_rounds-run :
      (f : ℕ) (pos : Link) (new : ℕ) (k : Link → Next) (r : Link)
      → insert_position f s.heap pos new ≡ done r
      → until_free (suc d) (insert_rounds f pos new k) s ≡ until_free (suc d) (k r) s
  unfolding insert_position insert_rounds
  insert_rounds-run zero pos new k r e = absurd (cc)
  insert_rounds-run (suc f) pos new k r e =
      let cur = load_link s.heap pos in
      if_both (Gives k r) (cur == null) (ends-Gives k r pos)
        (if_both (Gives k r) (ltb cur new) (insert_rounds-run f (next_of cur) new k r)
          (ends-Gives k r pos))
        e

  pub locate_rounds-run :
      (f target prev current : ℕ) (k : ℕ × ℕ → Next) (r : ℕ × ℕ)
      → locate f s.heap.mem target prev current ≡ done r
      → until_free (suc d) (locate_rounds f target prev current k) s ≡ until_free (suc d) (k r) s
  unfolding locate locate_rounds
  locate_rounds-run zero target prev current k r e = absurd (cc)
  locate_rounds-run (suc f) target prev current k r e =
      if_both (Gives k r) (current == null) (ends-Gives k r (prev, current))
        (if_both (Gives k r) (ltb current target)
          (locate_rounds-run f target current (s.heap.mem current).next k r)
          (ends-Gives k r (prev, current)))
        e

pub insert_region-run :
    (sbrk : List ℕ → ℕ) (d : ℕ) (s : Shared) (k : Next) (h : Heap)
    → add_region sbrk s.heap ≡ done h
    → until_free (suc d) (insert_region sbrk k) s ≡ until_free (suc d) k (with_heap s h)
unfolding add_region insert_region
insert_region-run sbrk d s k h e =
    let new = s.heap.heap_start + s.heap.heap_size in
    let opened = with_heap s (open_region s.heap) in
    let RHS = until_free (suc d) k (with_heap s h) in
    if_both (λ (u : Run Heap) (x : Next). u ≡ done h → until_free (suc d) x opened ≡ RHS)
      (has_region sbrk s.heap new)
      (λ e'.
        let (pos, found, rest) =
          >>=-done (insert_position (loop_fuel s.heap) (open_region s.heap) head new)
            (λ p. done (link_region p new (open_region s.heap))) h e' in
        insert_rounds-run d opened (loop_fuel s.heap) head new
          (λ p. act (λ s'. with_heap s' (link_region p new s'.heap)) (λ s'. k)) pos found
        ∙ ap (λ z. until_free (suc d) k (with_heap s z)) (done-injective _ h rest))
      (λ e'. absurd (cc)) e
