-- ===== src/Marked.antt =====
-- The allocator of STY25/vika9/assignment09-templates-1/p1/savesolmalloc.c, statement by statement, as one
-- thread runs it with `debug` off. It marks allocated blocks with a magic number, asserts what it
-- expects, and puts a new region behind the last free block. `Heap`, the links and `roundUp` are those of
-- BestFit. An assertion that fails, a read or write through NULL, and a new
-- region that `sbrk` has not given, is a fault.
pub mod Search
pub mod Allocate
pub mod Malloc
pub mod Empty
pub mod Extend
pub mod Merge
pub mod Insert
pub mod Free
mod Tests
mod Witnesses
use sty_linux.Base.{
  ℕ, zero, suc, ◌+◌, ◌-◌, ◌^◌, Bool, true, false, ◌&&◌, ◌||◌, List, [], ◌∷◌, ◌==◌, ltb, leb,
  if◌then◌else◌, Run, done, fault, out_of_fuel, ◌>>=◌,
}
use sty_linux.Base.Words.{add64, sub64}
use sty_linux.Memory.{Memory, Block, block, null, put, set_size, set_next}
use sty_linux.BestFit.{
  Heap, Link, head, next_of, load_link, store_link, loop_fuel, round_up, header_size, heap_cap,
  has_region,
}

-- `ALLOCATED_BLOCK_MAGIC`
abbrev pub magic : ℕ
magic = 0xfeedcafecafe

-- `_getNextBlockBySize`
unfoldable pub following : Heap → ℕ → Run ℕ
following h current =
    let end = h.heap_start + h.heap_size in
    let next = current + (h.mem current).size in
    if leb next end then done (if next == end then null else next) else fault

-- `allocHeap`, in its version over `sbrk`.
unfoldable pub enlarge_heap : (List ℕ → ℕ) → ℕ → ℕ → Heap → ℕ × Heap
enlarge_heap sbrk current size h =
    if current == null
    then (let asked = record h { requests = size ∷ h.requests } in
        let new = sbrk asked.requests in
        if new == null then (new, asked) else (new, record asked { sbrk_size = size }))
    else (let asked = record h { requests = sub64 size h.sbrk_size ∷ h.requests } in
        if sbrk asked.requests == null
        then (null, asked)
        else (current, record asked { sbrk_size = size }))

-- The loop of `my_malloc`: the best block with the link to it, and the link behind the last block. `size` is
-- `bestSize`.
unfoldable pub search_smallest :
    ℕ → Memory → ℕ → (prevptr : Link) → (current size best : ℕ) → Link → Run (ℕ × Link × Link)
search_smallest zero m want prevptr current size best link = out_of_fuel
search_smallest (suc f) m want prevptr current size best link =
    let s = (m current).size in
    let found = leb want s && (best == null || ltb s size) in
    let rest =
      search_smallest f m want (next_of current) (m current).next (if found then s else size)
        (if found then current else best) (if found then prevptr else link) in
    if current == null then done (best, link, prevptr) else rest

-- The end of `allocate_block` for a block that is larger than asked.
unfoldable pub split_marked : Link → ℕ → ℕ → Heap → Run Heap
split_marked link b n h =
    let left = sub64 (h.mem b).size n in
    let h1 = record h { mem = set_size h.mem b n } in
    following h1 b >>= λ newfree.
    let m2 = set_size h1.mem newfree left in
    let m3 = set_next m2 newfree (m2 b).next in
    let m4 = set_next m3 b magic in
    if newfree == null then fault else done (store_link (record h1 { mem = m4 }) link newfree)

unfoldable pub allocate_marked : Link → ℕ → ℕ → Heap → Run (ℕ × Heap)
allocate_marked link b n h =
    let s = (h.mem b).size in
    let h1 = store_link h link (h.mem b).next in
    let exact = record h1 { mem = set_next h1.mem b magic } in
    if leb n s
    then (if s == n
        then done (b + header_size, exact)
        else (split_marked link b n h >>= λ h2. done (b + header_size, h2)))
    else fault

-- The region behind the heap, which `*prevptr` leads to.
abbrev pub append_region : Link → Heap → Heap
append_region last h =
    let new = h.heap_start + h.heap_size in
    let h1 = store_link (record h { mem = put h.mem new (block heap_cap null) }) last new in
    record h1 { heap_size = add64 h1.heap_size heap_cap }

unfoldable pub malloc_marked : (List ℕ → ℕ) → ℕ → Heap → Run (ℕ × Heap)
malloc_marked sbrk size h =
    let want = add64 (round_up size) header_size in
    search_smallest (loop_fuel h) h.mem want head h.first_free 0 null head >>= λ (best, link, last).
    let grow =
      (let (p, h1) = enlarge_heap sbrk h.heap_start (add64 h.heap_size heap_cap) h in
        if p == null
        then done (null, h1)
        else (let new = h1.heap_start + h1.heap_size in
            if has_region sbrk h1 new
            then allocate_marked last new want (append_region last h1)
            else fault)) in
    if best == null
    then (if ltb (heap_cap - header_size) want then done (null, h) else grow)
    else allocate_marked link best want h

unfoldable pub merge_marked : ℕ → ℕ → Memory → Run Memory
merge_marked b1 b2 m =
    let m1 = set_size m b1 (add64 (m b1).size (m b2).size) in
    if b1 + (m b1).size == b2
    then (if (m b1).next == b2 then done (set_next m1 b1 (m1 b2).next) else fault)
    else done m

-- The loop of `my_free`: the free block before `target`. A free block at NULL is read through.
unfoldable pub find_before : ℕ → Memory → (target freeblock : ℕ) → Run ℕ
find_before zero m target freeblock = out_of_fuel
find_before (suc f) m target freeblock =
    let next = (m freeblock).next in
    let rest = find_before f m target next in
    let ends = if ltb next target then next == null else true in
    if freeblock == null then fault else if ends then done freeblock else rest

-- The block goes behind a free block, and the three are joined where they touch.
unfoldable pub link_behind : (b freeblock : ℕ) → Memory → Run Memory
link_behind b freeblock m =
    let next = (m freeblock).next in
    let m1 = set_next m b (if next == null then null else next) in
    let m2 = set_next m1 freeblock b in
    merge_marked b (m2 b).next m2 >>= λ m3. merge_marked freeblock b m3

unfoldable pub free_marked : ℕ → Heap → Run Heap
free_marked address h =
    let b = address - header_size in
    let front = record h { mem = set_next h.mem b h.first_free; first_free = b } in
    let at_front =
      merge_marked b (front.mem b).next front.mem >>= λ m. done (record front { mem = m }) in
    let behind =
      (find_before (loop_fuel h) h.mem b h.first_free >>= λ freeblock.
      link_behind b freeblock h.mem >>= λ m. done (record h { mem = m })) in
    if address == null then done h else if ltb b h.first_free then at_front else behind
