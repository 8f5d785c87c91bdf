-- ===== src/BestFit.antt =====
-- The best-fit allocator of STY25/vika4/assignment04-templates/p1/malloc.c, statement by statement.
-- What `printf` writes is left out. `sbrk` is a parameter: it answers from all requests so far, the
-- latest first. The header of a new region is written only if `sbrk` has given the region, and faults
-- otherwise. Loops take `loop_fuel` rounds at most.
pub mod Allocate
pub mod Grow
pub mod Free
pub mod Links
pub mod Merge
pub mod Malloc
pub mod Extend
pub mod Regions
pub mod RoundTrip
pub mod Search
pub mod Statistics
pub mod Valid
mod Tests
mod Witnesses
use sty_linux.Base.{
  ℕ, zero, suc, ◌+◌, ◌-◌, ◌*◌, ◌/◌, ◌%◌, ◌^◌, ◌≤◌, ◌<◌, ◌≡◌, Bool, true, false, ◌&&◌, ◌||◌, List,
  [], ◌∷◌, ◌==◌, ltb, leb, if◌then◌else◌, Run, done, fault, out_of_fuel, ◌>>=◌,
}
use sty_linux.Base.Words.{add64, sub64, word32}
use sty_linux.Memory.{Memory, Block, block, null, put, set_size, set_next}

-- `HEADER_SIZE` and `HEAP_SIZE`
abbrev pub header_size : ℕ
header_size = 16

abbrev pub heap_cap : ℕ
heap_cap = 32 * 1024 * 1024

-- The globals, the static `heapSize` of `allocHeap` (here `sbrk_size`), and the calls of `sbrk`.
pub record Heap : Type 0 where
  pub mem : Memory
  pub heap_start : ℕ
  pub heap_size : ℕ
  pub first_free : ℕ
  pub sbrk_size : ℕ
  pub requests : List ℕ

-- A `Block **`: the address of the list's head, or of a block's `next`.
pub data Link : Type 0 where
  head : Link
  next_of : ℕ → Link

-- `*link`
abbrev pub load_link : Heap → Link → ℕ
load_link h head = h.first_free
load_link h (next_of p) = (h.mem p).next

-- `*link = q`
abbrev pub store_link : Heap → Link → ℕ → Heap
store_link h head q = record h { first_free = q }
store_link h (next_of p) q = record h { mem = set_next h.mem p q }

-- `prev ? &prev->next : &_firstFreeBlock`
abbrev pub link_to : ℕ → Link
link_to prev = if prev == null then head else next_of prev

-- A free block takes at least a byte of the heap, so no loop over the list takes more rounds.
abbrev pub loop_fuel : Heap → ℕ
loop_fuel h = h.heap_size + 1

-- `& ~15` clears the low four bits.
unfoldable pub round_up : ℕ → ℕ
round_up n = let m = add64 n 15 in m - m % 16

-- The loop that looks for the smallest block of at least `want` bytes.
abbrev pub better : Memory → ℕ → ℕ → ℕ → Bool
better m want best current =
    leb want (m current).size && (best == null || ltb (m current).size (m best).size)

unfoldable pub search_best : ℕ → Memory → ℕ → (prev current best : ℕ) → Link → Run (ℕ × Link)
search_best zero m want prev current best link = out_of_fuel
search_best (suc f) m want prev current best link =
    let found = better m want best current in
    let rest =
      search_best f m want current (m current).next (if found then current else best)
        (if found then link_to prev else link) in
    if current == null then done (best, link) else rest

-- The end of `allocate_block`, on both branches.
abbrev pub hand_out : ℕ → Heap → ℕ × Heap
hand_out b h = (b + header_size, record h { mem = set_next h.mem b null })

-- The `else` branch of `allocate_block`.
unfoldable pub split_block : Link → ℕ → ℕ → Heap → Heap
split_block link b n h =
    let rest = b + n in
    let m1 = set_size h.mem rest (sub64 (h.mem b).size n) in
    let m2 = set_next m1 rest (m1 b).next in
    let h3 = store_link (record h { mem = m2 }) link rest in record h3 { mem = set_size h3.mem b n }

unfoldable pub allocate_block : Link → ℕ → ℕ → Heap → ℕ × Heap
allocate_block link b n h =
    if (h.mem b).size == n
    then hand_out b (store_link h link (h.mem b).next)
    else hand_out b (split_block link b n h)

-- The loop that finds where a new block stands in the order of addresses.
unfoldable pub insert_position : ℕ → Heap → Link → ℕ → Run Link
insert_position zero h pos new = out_of_fuel
insert_position (suc f) h pos new =
    let cur = load_link h pos in
    let rest = insert_position f h (next_of cur) new in
    if cur == null then done pos else if ltb cur new then rest else done pos

-- `(void *)-1`, which `sbrk` returns where it has no memory.
abbrev pub no_break : ℕ
no_break = 2 ^ 64 - 1

-- The end of the memory that `sbrk` has given: it answers with the old break, behind which the new
-- bytes stand.
unfoldable pub obtained : (List ℕ → ℕ) → List ℕ → ℕ
obtained sbrk [] = 0
obtained sbrk (n ∷ ns) =
    let new = sbrk (n ∷ ns) in
    let old = obtained sbrk ns in if new == null || new == no_break then old else add64 new n

-- Whether the program may write the whole region that starts at `new`.
abbrev pub has_region : (List ℕ → ℕ) → Heap → (new : ℕ) → Bool
has_region sbrk h new = leb (new + heap_cap) (obtained sbrk h.requests)

-- The new block behind the old end of the heap, put into the list.
unfoldable pub add_region : (List ℕ → ℕ) → Heap → Run Heap
add_region sbrk h =
    let new = h.heap_start + h.heap_size in
    let h1 = record h {
      heap_size = add64 h.heap_size heap_cap;
      mem = put h.mem new (block heap_cap null);
    } in
    let linked =
      (insert_position (loop_fuel h) h1 head new >>= λ pos.
      let h2 = record h1 { mem = set_next h1.mem new (load_link h1 pos) } in
      done (store_link h2 pos new)) in
    if has_region sbrk h new then linked else fault

module _ (sbrk : List ℕ → ℕ) where
  -- `allocHeap`, in its version over `sbrk`.
  unfoldable pub alloc_heap : ℕ → ℕ → Heap → ℕ × Heap
  alloc_heap current size h =
      if current == null
      then (let asked = record h { requests = size ∷ h.requests } in
          let new = sbrk asked.requests in
          if new == null then (new, asked) else (new, record asked { sbrk_size = size }))
      else (let asked = record h { requests = sub64 size h.sbrk_size ∷ h.requests } in
          if sbrk asked.requests == null
          then (null, asked)
          else (current, record asked { sbrk_size = add64 h.sbrk_size size }))

  -- A write through a NULL heap start, or where there is no memory, faults.
  unfoldable pub init_allocator : Heap → Run Heap
  init_allocator h =
      let (start, h1) = alloc_heap null heap_cap h in
      let started = record h1 {
        heap_start = start;
        heap_size = heap_cap;
        first_free = start;
        mem = put h1.mem start (block heap_cap null);
      } in
      if start == null then fault else if has_region sbrk h1 start then done started else fault

  -- `my_malloc`. The first argument bounds how often it calls itself after the heap has grown.
  unfoldable pub my_malloc : ℕ → ℕ → Heap → Run (ℕ × Heap)
  my_malloc zero size h = out_of_fuel
  my_malloc (suc tries) size h =
      let want = add64 header_size (round_up size) in
      let grow =
        (let (p, h1) = alloc_heap h.heap_start (add64 h.heap_size heap_cap) h in
          if p == null
          then done (null, h1)
          else (add_region sbrk h1 >>= λ h2. my_malloc tries want h2)) in
      if ltb heap_cap want
      then done (null, h)
      else (search_best (loop_fuel h) h.mem want null h.first_free null head >>= λ (best, link).
          if best == null then grow else done (allocate_block link best want h))

-- The helper `merge_blocks`.
unfoldable pub merge_blocks : ℕ → ℕ → Memory → Memory
merge_blocks b1 b2 m =
    if b1 + (m b1).size == b2
    then (let m1 = set_size m b1 (add64 (m b1).size (m b2).size) in set_next m1 b1 (m1 b2).next)
    else m

-- The loop of `my_free` that finds the neighbours of the block: `prev` and `current`.
unfoldable pub locate : ℕ → Memory → ℕ → (prev current : ℕ) → Run (ℕ × ℕ)
locate zero m target prev current = out_of_fuel
locate (suc f) m target prev current =
    let rest = locate f m target current (m current).next in
    if current == null
    then done (prev, current)
    else if ltb current target
    then rest
    else done (prev, current)

-- The insertion of `my_free`.
unfoldable pub insert_block : (b prev current : ℕ) → Heap → Heap
insert_block b prev current h =
    if prev == null
    then record h { mem = set_next h.mem b h.first_free; first_free = b }
    else record h { mem = set_next (set_next h.mem prev b) b current }

-- The two merges of `my_free`.
unfoldable pub merge_around : (b prev current : ℕ) → Memory → Memory
merge_around b prev current m =
    let joins = if prev == null then false else prev + (m prev).size == b in
    let m1 = if joins then merge_blocks prev b m else m in
    let b1 = if joins then prev else b in
    if current == null
    then m1
    else if b1 + (m1 b1).size == current
    then merge_blocks b1 current m1
    else m1

unfoldable pub my_free : ℕ → Heap → Run Heap
my_free address h =
    let b = address - header_size in
    if address == null
    then done h
    else (locate (loop_fuel h) h.mem b null h.first_free >>= λ (prev, current).
        let h1 = insert_block b prev current h in
        done (record h1 { mem = merge_around b prev current h1.mem }))

-- `MallocStat`
pub record MallocStat : Type 0 where
  pub free_count : ℕ
  pub avg_free : ℕ
  pub largest_free : ℕ

-- The loop of `getAllocStatistics`: the blocks seen, their bytes, and the largest size so far.
unfoldable pub statistics_loop : ℕ → Memory → (current count total largest : ℕ) → Run (ℕ × ℕ × ℕ)
statistics_loop zero m current count total largest = out_of_fuel
statistics_loop (suc f) m current count total largest =
    let s = (m current).size in
    let rest =
      statistics_loop f m (m current).next (word32 (count + 1)) (add64 total s)
        (if ltb largest s then s else largest) in
    if current == null then done (count, total, largest) else rest

unfoldable pub get_alloc_statistics : Heap → Run MallocStat
get_alloc_statistics h =
    statistics_loop (loop_fuel h) h.mem h.first_free 0 0 0 >>= λ (count, total, largest).
    done (record {
      free_count = count;
      avg_free = if ltb 0 count then word32 (total / count) else 0;
      largest_free = word32 largest;
    })
