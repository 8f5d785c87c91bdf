-- ===== src/Threaded/Guards.antt =====
-- Every call of the threaded allocator touches the heap under the mutex only, and unlocks as often as
-- it locks on every path, however deep it is called.
use sty_linux.Base.{
  ℕ, zero, suc, ◌-◌, ◌==◌, ltb, if◌then◌else◌, Bool, true, false, List, Run, done, fault,
  out_of_fuel, ◌+◌,
}
use sty_linux.Base.Words.{add64}
use sty_linux.Memory.{null}
use sty_linux.BestFit.{
  Link, head, next_of, load_link, loop_fuel, link_to, better, round_up, header_size, heap_cap,
  has_region,
}
use sty_linux.Mutex.{abort, Guarded, unlock}
use sty_linux.Threaded.{
  Shared, Next, next_block, walk_blocks, walk_free, dump_body, dump_allocator, debug_dump,
  search_rounds, insert_rounds, locate_rounds, insert_region, grown, malloc_body, malloc_call,
  free_body, free_call,
}

if-Guarded :
    (d : ℕ) (b : Bool) (x y : Next) → Guarded d x → Guarded d y → Guarded d (if b then x else y)
if-Guarded d true x y g h = g
if-Guarded d false x y g h = h

module _ (d : ℕ) where
  search_rounds-Guarded :
      (f want prev current best : ℕ) (link : Link) (k : ℕ × Link → Next)
      → ((r : ℕ × Link) → Guarded (suc d) (k r))
      → Guarded (suc d) (search_rounds f want prev current best link k)
  unfolding search_rounds
  search_rounds-Guarded zero want prev current best link k g = tt
  search_rounds-Guarded (suc f) want prev current best link k g = λ s.
      let found = better s.heap.mem want best current in
      if-Guarded (suc d) (current == null) _ _ (g (best, link)) (
        search_rounds-Guarded f want current (s.heap.mem current).next
          (if found then current else best) (if found then link_to prev else link) k g)

  insert_rounds-Guarded :
      (f : ℕ) (pos : Link) (new : ℕ) (k : Link → Next)
      → ((r : Link) → Guarded (suc d) (k r))
      → Guarded (suc d) (insert_rounds f pos new k)
  unfolding insert_rounds
  insert_rounds-Guarded zero pos new k g = tt
  insert_rounds-Guarded (suc f) pos new k g = λ s.
      let cur = load_link s.heap pos in
      if-Guarded (suc d) (cur == null) _ _ (g pos) (
        if-Guarded (suc d) (ltb cur new) _ _ (insert_rounds-Guarded f (next_of cur) new k g)
          (g pos))

  locate_rounds-Guarded :
      (f target prev current : ℕ) (k : ℕ × ℕ → Next)
      → ((r : ℕ × ℕ) → Guarded (suc d) (k r))
      → Guarded (suc d) (locate_rounds f target prev current k)
  unfolding locate_rounds
  locate_rounds-Guarded zero target prev current k g = tt
  locate_rounds-Guarded (suc f) target prev current k g = λ s.
      if-Guarded (suc d) (current == null) _ _ (g (prev, current)) (
        if-Guarded (suc d) (ltb current target) _ _
          (locate_rounds-Guarded f target current (s.heap.mem current).next k g)
          (g (prev, current)))

  insert_region-Guarded :
      (sbrk : List ℕ → ℕ) (k : Next) → Guarded (suc d) k → Guarded (suc d) (insert_region sbrk k)
  unfolding insert_region
  insert_region-Guarded sbrk k g s =
      let new = s.heap.heap_start + s.heap.heap_size in
      if-Guarded (suc d) (has_region sbrk s.heap new) _ _
        (insert_rounds-Guarded (loop_fuel s.heap) head new _ (λ r s'. g)) tt

  walk_blocks-Guarded :
      (f current : ℕ) (k : Next) → Guarded (suc d) k → Guarded (suc d) (walk_blocks f current k)
  unfolding walk_blocks
  walk_blocks-Guarded zero current k g = tt
  walk_blocks-Guarded (suc f) current k g =
      if-Guarded (suc d) (current == null) _ _ g
        (λ s. go (λ next. walk_blocks-Guarded f next k g) (next_block s.heap current))
    where
      go :
          ((next : ℕ) → Guarded (suc d) (walk_blocks f next k))
          → (r : Run ℕ)
          → Guarded
              (suc d)
              (elim r [ done next ↦ walk_blocks f next k | fault ↦ abort | out_of_fuel ↦ abort ])
      go rest (done next) = rest next
      go rest fault = tt
      go rest out_of_fuel = tt

  walk_free-Guarded :
      (f curr : ℕ) (k : Next) → Guarded (suc d) k → Guarded (suc d) (walk_free f curr k)
  unfolding walk_free
  walk_free-Guarded zero curr k g = tt
  walk_free-Guarded (suc f) curr k g =
      if-Guarded (suc d) (curr == null) _ _ g (λ s. walk_free-Guarded f (s.heap.mem curr).next k g)

pub dump_allocator-Guarded : (d : ℕ) (k : Next) → Guarded d k → Guarded d (dump_allocator k)
unfolding dump_body dump_allocator
dump_allocator-Guarded d k g s =
    walk_blocks-Guarded d (loop_fuel s.heap) s.heap.heap_start _
      (λ s'. walk_free-Guarded d (loop_fuel s'.heap) s'.heap.first_free (unlock k) g)

debug_dump-Guarded : (d : ℕ) (b : Bool) (k : Next) → Guarded d k → Guarded d (debug_dump b k)
debug_dump-Guarded d true k g = dump_allocator-Guarded d k g
debug_dump-Guarded d false k g = g

module _ (sbrk : List ℕ → ℕ) (debug : Bool) where
  -- my_malloc, with or without the dumps of `debug`: if its caller goes on guarded, whatever it gets,
  -- then so is the call.
  pub malloc_call-Guarded :
      (tries size d : ℕ) (k : ℕ → Next)
      → ((v : ℕ) → Guarded d (k v))
      → Guarded d (malloc_call sbrk debug tries size k)
  unfolding malloc_body malloc_call
  malloc_call-Guarded zero size d k g = tt
  malloc_call-Guarded (suc tries) size d k g =
      let want = add64 header_size (round_up size) in
      let again =
        insert_region-Guarded d sbrk _
          (malloc_call-Guarded tries want (suc d) (λ ptr. unlock (k ptr)) (λ v. g v)) in
      let grow =
        λ (s : Shared). if-Guarded (suc d) ((grown sbrk s.heap).0 == null) _ _ (g null) again in
      if-Guarded d (ltb heap_cap want) _ _ (g null) (
        debug_dump-Guarded (suc d) debug _ (λ s.
          search_rounds-Guarded d (loop_fuel s.heap) want null s.heap.first_free null head _
            (λ (best, link).
              if-Guarded (suc d) (best == null) _ _ grow
                (λ s'. debug_dump-Guarded (suc d) debug _ (g _)))))

-- my_free of any address, in the same way.
pub free_call-Guarded : (address d : ℕ) (k : Next) → Guarded d k → Guarded d (free_call address k)
unfolding free_body free_call
free_call-Guarded address d k g = if-Guarded d (address == null) _ _ g (λ s.
    locate_rounds-Guarded d (loop_fuel s.heap) (address - header_size) null s.heap.first_free _
      (λ (prev, current) s' x. g))
