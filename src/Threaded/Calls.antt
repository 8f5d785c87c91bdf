-- ===== src/Threaded/Calls.antt =====
-- A call of the threaded allocator that runs alone does what the same call does in BestFit.
use sty_linux.Base.{
  ℕ, zero, suc, ◌-◌, ◌≡◌, ap, ◌∙◌, ◌==◌, ltb, if◌then◌else◌, false, List, Run, done, ◌>>=◌,
  >>=-done, done-injective,
}
use sty_linux.Base.Words.{add64}
use sty_linux.Memory.{null}
use sty_linux.BestFit.{
  Heap, head, loop_fuel, round_up, header_size, heap_cap, search_best, locate, add_region,
  allocate_block, insert_block, my_malloc, my_free,
}
use sty_linux.Mutex.{unlock, until_free}
use sty_linux.Threaded.{Shared, Next, with_heap, grown, merged, malloc_body, malloc_call, free_body}
use sty_linux.Threaded.Rounds.{if_both, search_rounds-run, locate_rounds-run, insert_region-run}

module _ (sbrk : List ℕ → ℕ) where
  -- From a state in which the thread holds the mutex, once more than at the end. The call `again` does
  -- what `more` does.
  pub malloc_body-run :
      (again : (ℕ → Next) → Next) (more : Heap → Run (ℕ × Heap))
      (again-run : (d : ℕ) (k : ℕ → Next) (s : Shared) (r : ℕ) (h : Heap)
        → more s.heap ≡ done (r, h)
        → until_free (suc d) (again k) s ≡ until_free (suc d) (k r) (with_heap s h))
      (want d : ℕ) (k : ℕ → Next) (s : Shared) (r : ℕ) (h : Heap)
      → (search_best (loop_fuel s.heap) s.heap.mem want null s.heap.first_free null head
          >>= λ (best, link).
              if best == null
              then (let (p, h1) = grown sbrk s.heap in
                  if p == null then done (null, h1) else (add_region sbrk h1 >>= more))
              else done (allocate_block link best want s.heap))
        ≡ done (r, h)
      → until_free (suc d) (malloc_body sbrk false again want k) s
        ≡ until_free d (k r) (with_heap s h)
  unfolding malloc_body
  malloc_body-run again more again-run want d k s r h e =
      let RHS = until_free d (k r) (with_heap s h) in
      let Gives = λ (s' : Shared) (u : Run (ℕ × Heap)) (x : Next).
        u ≡ done (r, h) → until_free (suc d) x s' ≡ RHS in
      let answers = λ (p : ℕ) (h' : Heap) (e' : done (p, h') ≡ done (r, h)).
        ap (λ (z : ℕ × Heap). until_free d (k z.0) (with_heap s z.1))
          (done-injective (p, h') (r, h) e') in
      let h1 = (grown sbrk s.heap).1 in
      let k' = λ (ptr : ℕ). unlock (k ptr) in
      let grow =
        if_both (Gives (with_heap s h1)) ((grown sbrk s.heap).0 == null) (answers null h1) (λ e'.
          let (h2, e1, e2) = >>=-done (add_region sbrk h1) more (r, h) e' in
          insert_region-run sbrk d (with_heap s h1) (again k') h2 e1
          ∙ again-run d k' (with_heap s h2) r h e2) in
      let ((best, link), e1, e2) =
        >>=-done (search_best (loop_fuel s.heap) s.heap.mem want null s.heap.first_free null head) _
          (r, h) e in
      let placed = allocate_block link best want s.heap in
      search_rounds-run d s (loop_fuel s.heap) want null s.heap.first_free null head _ (best, link)
        e1
      ∙ if_both (Gives s) (best == null) grow (answers placed.0 placed.1) e2

  pub malloc_call-run :
      (tries size d : ℕ) (k : ℕ → Next) (s : Shared) (r : ℕ) (h : Heap)
      → my_malloc sbrk tries size s.heap ≡ done (r, h)
      → until_free (suc d) (malloc_call sbrk false tries size k) s
        ≡ until_free (suc d) (k r) (with_heap s h)
  unfolding my_malloc malloc_call
  malloc_call-run zero size d k s r h e = absurd (cc)
  malloc_call-run (suc tries) size d k s r h e =
      let want = add64 header_size (round_up size) in
      if_both
        (λ (u : Run (ℕ × Heap)) (x : Next).
          u ≡ done (r, h) → until_free (suc d) x s ≡ until_free (suc d) (k r) (with_heap s h))
        (ltb heap_cap want)
        (λ e'.
          ap (λ (z : ℕ × Heap). until_free (suc d) (k z.0) (with_heap s z.1))
            (done-injective (null, s.heap) (r, h) e'))
        (malloc_body-run (malloc_call sbrk false tries want) (my_malloc sbrk tries want)
          (λ d' k' s' r' h'. malloc_call-run tries want d' k' s' r' h') want (suc d) k s r h)
        e

-- `my_free` past its test for NULL.
pub free_body-run :
    (address d : ℕ) (k : Next) (s : Shared) (h : Heap)
    → (address == null) ≡ false
    → my_free address s.heap ≡ done h
    → until_free (suc d) (free_body (address - header_size) k) s ≡ until_free d k (with_heap s h)
unfolding my_free free_body
free_body-run address d k s h nonnull e =
    let b = address - header_size in
    let start = locate (loop_fuel s.heap) s.heap.mem b null s.heap.first_free in
    let chain : (start >>= λ (prev, current).
    done (merged b prev current (insert_block b prev current s.heap)))
        ≡ done h =
      rw nonnull at e in
    let ((prev, current), e1, e2) = >>=-done start _ h chain in
    locate_rounds-run d s (loop_fuel s.heap) b null s.heap.first_free _ (prev, current) e1
    ∙ ap (λ (z : Heap). until_free d k (with_heap s z)) (done-injective _ h e2)
