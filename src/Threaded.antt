-- ===== src/Threaded.antt =====
-- The allocator of STY25/vika9/assignment09-templates-1/p1/malloc.c, which several threads call. What it
-- does to the heap is the code of vika4, modelled in BestFit; here is how its calls go on under the
-- mutex, a step for each round of a loop and for each helper, so that other threads may step in
-- between. A call is given what its caller does next. Loops take `loop_fuel` rounds at most: a loop
-- that needed more would abort here.
pub mod Calls
pub mod Clients
pub mod Dump
pub mod Guards
pub mod Threads
pub mod Parallel
pub mod Rounds
mod Tests
mod Witnesses
use sty_linux.Base.{
  ℕ, zero, suc, ◌+◌, ◌-◌, Bool, List, [], ◌∷◌, ◌++◌, ◌==◌, ltb, leb, if◌then◌else◌, Run, done,
  fault, out_of_fuel,
}
use sty_linux.Base.Words.{add64}
use sty_linux.Memory.{block, null, put, set_next}
use sty_linux.BestFit.{
  Heap, Link, head, next_of, load_link, store_link, link_to, loop_fuel, round_up, better,
  header_size, heap_cap, has_region, allocate_block, alloc_heap, insert_block, merge_around,
}
use sty_linux.Mutex.{Proc, abort, lock, unlock, act}

-- The heap, and the blocks that `dumpAllocator` has printed: their addresses and sizes.
pub record Shared : Type 0 where
  pub heap : Heap
  pub printed : List (ℕ × ℕ)

abbrev pub with_heap : Shared → Heap → Shared
with_heap s h = record s { heap = h }

abbrev pub print_block : ℕ → Shared → Shared
print_block p s = record s { printed = s.printed ++ (p, (s.heap.mem p).size) ∷ [] }

abbrev pub Next : Type 0
Next = Proc Shared

abbrev pub read : (Shared → Next) → Next
read k = act (λ s. s) k

-- `_getNextBlockBySize`, with its assertion.
unfoldable pub next_block : Heap → ℕ → Run ℕ
next_block h current =
    let end = h.heap_start + h.heap_size in
    let next = current + (h.mem current).size in
    if leb next end then done (if next == end then null else next) else fault

-- The two loops of `dumpAllocator`.
unfoldable pub walk_blocks : ℕ → (current : ℕ) → Next → Next
walk_blocks zero current k = abort
walk_blocks (suc f) current k =
    let round = act (print_block current) (λ s. elim (next_block s.heap current) [
      | done next ↦ walk_blocks f next k
      | fault ↦ abort
      | out_of_fuel ↦ abort
    ]) in
    if current == null then k else round

unfoldable pub walk_free : ℕ → (curr : ℕ) → Next → Next
walk_free zero curr k = abort
walk_free (suc f) curr k =
    let round = act (print_block curr) (λ s. walk_free f (s.heap.mem curr).next k) in
    if curr == null then k else round

-- `dumpAllocator` once it holds the mutex.
unfoldable pub dump_body : Next → Next
dump_body k = read (λ s.
    walk_blocks (loop_fuel s.heap) s.heap.heap_start
      (read (λ s'. walk_free (loop_fuel s'.heap) s'.heap.first_free (unlock k))))

unfoldable pub dump_allocator : Next → Next
dump_allocator k = lock (dump_body k)

-- `if (debug) dumpAllocator();`
abbrev pub debug_dump : Bool → Next → Next
debug_dump debug k = if debug then dump_allocator k else k

-- The loop of `my_malloc` that looks for the best fit.
unfoldable pub search_rounds : ℕ → ℕ → (prev current best : ℕ) → Link → (ℕ × Link → Next) → Next
search_rounds zero want prev current best link k = abort
search_rounds (suc f) want prev current best link k = read (λ s.
    let found = better s.heap.mem want best current in
    let rest =
      search_rounds f want current (s.heap.mem current).next (if found then current else best)
        (if found then link_to prev else link) k in
    if current == null then k (best, link) else rest)

-- The loop of `my_malloc` that finds the place of a new region.
unfoldable pub insert_rounds : ℕ → Link → (new : ℕ) → (Link → Next) → Next
insert_rounds zero pos new k = abort
insert_rounds (suc f) pos new k = read (λ s.
    let cur = load_link s.heap pos in
    let rest = insert_rounds f (next_of cur) new k in
    if cur == null then k pos else if ltb cur new then rest else k pos)

-- `_heapSize += HEAP_SIZE` and the header of the new block.
abbrev pub open_region : Heap → Heap
open_region h = record h {
  heap_size = add64 h.heap_size heap_cap;
  mem = put h.mem (h.heap_start + h.heap_size) (block heap_cap null);
}

abbrev pub link_region : Link → (new : ℕ) → Heap → Heap
link_region pos new h =
    let h2 = record h { mem = set_next h.mem new (load_link h pos) } in store_link h2 pos new

-- Where `sbrk` has not given the region, the write of its header ends the program.
unfoldable pub insert_region : (List ℕ → ℕ) → Next → Next
insert_region sbrk k =
    act (λ s. with_heap s (open_region s.heap))
      (λ s.
        let new = s.heap.heap_start + s.heap.heap_size in
        let linked =
          insert_rounds (loop_fuel s.heap) head new
            (λ pos. act (λ s'. with_heap s' (link_region pos new s'.heap)) (λ s'. k)) in
        if has_region sbrk s.heap new then linked else abort)

-- `allocHeap(_heapStart, _heapSize + HEAP_SIZE)`
abbrev pub grown : (List ℕ → ℕ) → Heap → ℕ × Heap
grown sbrk h = alloc_heap sbrk h.heap_start (add64 h.heap_size heap_cap) h

module _ (sbrk : List ℕ → ℕ) (debug : Bool) where
  -- `my_malloc` once it holds the mutex; `again` is its call of itself after the heap has grown, which
  -- takes the mutex again.
  unfoldable pub malloc_body : (again : (ℕ → Next) → Next) → ℕ → (ℕ → Next) → Next
  malloc_body again want k =
      let grow =
        act (λ s. with_heap s (grown sbrk s.heap).1)
          (λ s.
            if (grown sbrk s.heap).0 == null
            then unlock (k null)
            else insert_region sbrk (again (λ ptr. unlock (k ptr)))) in
      let place = λ (best : ℕ) (link : Link).
        act (λ s. with_heap s (allocate_block link best want s.heap).1)
          (λ s. debug_dump debug (unlock (k (allocate_block link best want s.heap).0))) in
      debug_dump debug (
        read (λ s.
          search_rounds (loop_fuel s.heap) want null s.heap.first_free null head
            (λ (best, link). if best == null then grow else place best link)))

  -- `my_malloc`. The first argument bounds how often it calls itself.
  unfoldable pub malloc_call : ℕ → ℕ → (ℕ → Next) → Next
  malloc_call zero size k = abort
  malloc_call (suc tries) size k =
      let want = add64 header_size (round_up size) in
      let body = lock (malloc_body (malloc_call tries want) want k) in
      if ltb heap_cap want then k null else body

-- The loop of `my_free`.
unfoldable pub locate_rounds : ℕ → (target prev current : ℕ) → (ℕ × ℕ → Next) → Next
locate_rounds zero target prev current k = abort
locate_rounds (suc f) target prev current k = read (λ s.
    let rest = locate_rounds f target current (s.heap.mem current).next k in
    if current == null
    then k (prev, current)
    else if ltb current target
    then rest
    else k (prev, current))

abbrev pub merged : (b prev current : ℕ) → Heap → Heap
merged b prev current h = record h { mem = merge_around b prev current h.mem }

-- `my_free` once it holds the mutex.
unfoldable pub free_body : (b : ℕ) → Next → Next
free_body b k = read (λ s.
    locate_rounds (loop_fuel s.heap) b null s.heap.first_free (λ (prev, current).
      act (λ s'. with_heap s' (insert_block b prev current s'.heap))
        (λ s'. act (λ x. with_heap x (merged b prev current x.heap)) (λ x. unlock k))))

unfoldable pub free_call : ℕ → Next → Next
free_call address k = if address == null then k else lock (free_body (address - header_size) k)
