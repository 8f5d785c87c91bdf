-- ===== src/Strategies.antt =====
-- The allocation strategies of STY25/vika5/P5/malloc.c. What its functions share with the allocator of
-- vika4, statement by statement and but for what is printed, is taken from BestFit: allocHeap,
-- allocate_block, the growth of the heap, and my_free up to its last lines.
pub mod Choice
pub mod NextFit
mod Witnesses
use sty_linux.Base.{
  ℕ, zero, suc, ◌+◌, ◌-◌, ◌==◌, ltb, leb, if◌then◌else◌, Bool, true, false, ◌&&◌, ◌||◌, List, Run,
  done, fault, out_of_fuel, ◌>>=◌,
}
use sty_linux.Base.Words.{add64}
use sty_linux.Memory.{Memory, null}
use sty_linux.BestFit.{
  Heap, Link, head, next_of, load_link, link_to, loop_fuel, round_up, header_size, heap_cap,
  search_best, allocate_block, add_region, alloc_heap, locate, my_free,
}

-- `AllocType`
pub data AllocType : Type 0 where
  alloc_bestfit : AllocType
  alloc_firstfit : AllocType
  alloc_nextfit : AllocType
  alloc_worstfit : AllocType

abbrev pub is_nextfit : AllocType → Bool
is_nextfit alloc_nextfit = true
is_nextfit alloc_bestfit = false
is_nextfit alloc_firstfit = false
is_nextfit alloc_worstfit = false

-- The globals of vika4, `allocationStrategy` and `_next_fit_cursor`.
pub record Allocator : Type 0 where
  pub heap : Heap
  pub strategy : AllocType
  pub cursor : ℕ

abbrev pub set_allocation_strategy : AllocType → Allocator → Allocator
set_allocation_strategy x s = record s {
  strategy = x;
  cursor = if is_nextfit x then s.heap.first_free else s.cursor;
}

-- The loop of ALLOC_FIRSTFIT: the block, NULL if there is none, and the link to it.
unfoldable pub search_first : ℕ → Memory → ℕ → (prev current : ℕ) → Run (ℕ × Link)
search_first zero m want prev current = out_of_fuel
search_first (suc f) m want prev current =
    let rest = search_first f m want current (m current).next in
    if current == null
    then done (null, head)
    else if leb want (m current).size
    then done (current, link_to prev)
    else rest

-- The loop of ALLOC_WORSTFIT.
abbrev pub worse : Memory → ℕ → ℕ → ℕ → Bool
worse m want worst current =
    leb want (m current).size && (worst == null || ltb (m worst).size (m current).size)

unfoldable pub search_worst : ℕ → Memory → ℕ → (prev current worst : ℕ) → Link → Run (ℕ × Link)
search_worst zero m want prev current worst link = out_of_fuel
search_worst (suc f) m want prev current worst link =
    let found = worse m want worst current in
    let rest =
      search_worst f m want current (m current).next (if found then current else worst)
        (if found then link_to prev else link) in
    if current == null then done (worst, link) else rest

-- The loop of ALLOC_NEXTFIT from the cursor `start`; a read through NULL faults.
unfoldable pub search_next : ℕ → Memory → ℕ → (first start prev current : ℕ) → Run (ℕ × Link)
search_next zero m want first start prev current = out_of_fuel
search_next (suc f) m want first start prev current =
    let following = (m current).next in
    let next = if following == null then first else following in
    let rest = search_next f m want first start current next in
    if current == null
    then fault
    else if leb want (m current).size
    then done (current, link_to prev)
    else if next == start
    then done (null, head)
    else rest

-- `_next_fit_cursor`, set to the first free block where it is NULL.
abbrev pub start_of : Allocator → ℕ
start_of s = if s.cursor == null then s.heap.first_free else s.cursor

-- The `switch` of `my_malloc`: the selected block and the link to it. Next fit sets the cursor first.
unfoldable pub select : AllocType → ℕ → Heap → (start : ℕ) → Run (ℕ × Link)
select alloc_bestfit want h start = search_best (loop_fuel h) h.mem want null h.first_free null head
select alloc_firstfit want h start = search_first (loop_fuel h) h.mem want null h.first_free
select alloc_nextfit want h start =
    search_next (loop_fuel h) h.mem want h.first_free start null start
select alloc_worstfit want h start =
    search_worst (loop_fuel h) h.mem want null h.first_free null head

-- The end of `my_malloc`.
unfoldable pub place : Link → (b want : ℕ) → Allocator → ℕ × Allocator
place link b want s =
    let (p, h) = allocate_block link b want s.heap in
    let next = load_link h link in
    let moved = if next == null then h.first_free else next in
    (p, record s { heap = h; cursor = if is_nextfit s.strategy then moved else s.cursor })

module _ (sbrk : List ℕ → ℕ) where
  -- `my_malloc`. The first argument bounds how often it calls itself after the heap has grown.
  unfoldable pub strategic_malloc : ℕ → ℕ → Allocator → Run (ℕ × Allocator)
  strategic_malloc zero size s = out_of_fuel
  strategic_malloc (suc tries) size s =
      let want = add64 header_size (round_up size) in
      let start = start_of s in
      let s1 = record s { cursor = if is_nextfit s.strategy then start else s.cursor } in
      let grow =
        (let (p, h1) = alloc_heap sbrk s.heap.heap_start (add64 s.heap.heap_size heap_cap) s.heap in
          if p == null
          then done (null, record s1 { heap = h1 })
          else (add_region sbrk h1 >>= λ h2. strategic_malloc tries want (record s1 {
            heap = h2;
            cursor = if is_nextfit s.strategy then h2.first_free else s1.cursor;
          }))) in
      if ltb heap_cap want
      then done (null, s)
      else (select s.strategy want s.heap start >>= λ (b, link).
          if b == null then grow else done (place link b want s1))

-- `my_free`: next fit goes on at the block that is given back, or at the one that it joins.
unfoldable pub strategic_free : ℕ → Allocator → Run Allocator
strategic_free address s =
    let b = address - header_size in
    if address == null
    then done s
    else (locate (loop_fuel s.heap) s.heap.mem b null s.heap.first_free >>= λ (prev, current).
        let joins = if prev == null then false else prev + (s.heap.mem prev).size == b in
        my_free address s.heap >>= λ h.
        let merged = if joins then prev else b in
        done (record s { heap = h; cursor = if is_nextfit s.strategy then merged else s.cursor }))
