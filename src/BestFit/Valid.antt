-- ===== src/BestFit/Valid.antt =====
-- When the globals of malloc.c are well formed, and what holds of every such heap.
use sty_linux.Base.{
  ℕ, ◌+◌, ◌%◌, ◌^◌, ◌≤◌, ◌<◌, ◌≡◌, refl, List, [], ◌∷◌, arith, length, done, false, true, ne→==,
  ◌==◌, leb, le→leb, ◌-◌,
}
use sty_linux.Base.Words.{add64, add64_exact}
use sty_linux.Memory.{block, null, put, put_self}
use sty_linux.FreeList.{Blocks, Chain, Ordered}
use sty_linux.FreeList.Spans.{length-Ordered}
use sty_linux.BestFit.{
  Heap, heap_cap, header_size, loop_fuel, round_up, no_break, obtained, alloc_heap, init_allocator,
}

-- The free list of `h` is `xs`: it ends with NULL, and its blocks lie apart, ordered by address,
-- inside the heap, which does not reach the end of the address space.
pub record IsHeap (h : Heap) (xs : Blocks) : Type 0 where
  pub chain : Chain h.mem h.first_free xs
  pub order : Ordered h.heap_start xs (h.heap_start + h.heap_size)
  pub start_pos : 0 < h.heap_start
  pub within : h.heap_start + h.heap_size < 2 ^ 64

-- The rounds that the model gives a loop are enough for the list.
pub length-lt-loop_fuel : {h : Heap} {xs : Blocks} → IsHeap h xs → length xs < loop_fuel h
length-lt-loop_fuel {h} {xs} v =
    omega (arith, length-Ordered h.heap_start (h.heap_start + h.heap_size) xs v.order)

-- `roundUp` gives the least multiple of 16 that is not less, where that is a 64-bit number.
pub round_up_lem :
    (n : ℕ) → n + 15 < 2 ^ 64 → (round_up n % 16 ≡ 0) × (n ≤ round_up n) × (round_up n < n + 16)
unfolding round_up
round_up_lem n h = omega arith

-- Above that it wraps to 0.
pub round_up_wraps : (n : ℕ) → n < 2 ^ 64 → 2 ^ 64 ≤ n + 15 → round_up n ≡ 0
unfolding round_up
round_up_wraps n h k = omega arith

-- The bytes that a request of `n` takes, header included.
pub round_up-pos : (n : ℕ) → n + 31 < 2 ^ 64 → 0 < add64 header_size (round_up n)
unfolding round_up
round_up-pos n h = omega arith

-- What an answer of `sbrk` with memory adds.
pub obtained-more :
    (sbrk : List ℕ → ℕ) (n : ℕ) (ns : List ℕ)
    → 0 < sbrk (n ∷ ns)
    → sbrk (n ∷ ns) < 2 ^ 64 - 1
    → sbrk (n ∷ ns) + n < 2 ^ 64
    → obtained sbrk (n ∷ ns) ≡ sbrk (n ∷ ns) + n
unfolding obtained
obtained-more sbrk n ns some below small =
    let new = sbrk (n ∷ ns) in
    rw (ne→== new null (λ e. omega arith), ne→== new no_break (λ e. omega arith))
      (add64_exact new n (omega arith))

-- `initAllocator`, with the memory that it asks for, starts with one free block: the whole heap.
pub init_allocator-IsHeap :
    (sbrk : List ℕ → ℕ) (h : Heap)
    → 0 < sbrk (heap_cap ∷ h.requests)
    → sbrk (heap_cap ∷ h.requests) + heap_cap < 2 ^ 64
    → let start = sbrk (heap_cap ∷ h.requests) in
      (h' : Heap) × (init_allocator sbrk h ≡ done h')
      × IsHeap h' ((start, heap_cap) ∷ [])
      × (h'.heap_start ≡ start)
      × (h'.heap_size ≡ heap_cap)
      × (h'.sbrk_size ≡ heap_cap)
unfolding alloc_heap init_allocator
init_allocator-IsHeap sbrk h got small =
    let start = sbrk (heap_cap ∷ h.requests) in
    let there : (start == null) ≡ false = ne→== start null (omega arith) in
    let given : leb (start + heap_cap) (obtained sbrk (heap_cap ∷ h.requests)) ≡ true =
      le→leb (start + heap_cap) (obtained sbrk (heap_cap ∷ h.requests))
        (omega (arith, obtained-more sbrk heap_cap h.requests got (omega arith) small)) in
    (
      record h {
        requests = heap_cap ∷ h.requests;
        sbrk_size = heap_cap;
        heap_start = start;
        heap_size = heap_cap;
        first_free = start;
        mem = put h.mem start (block heap_cap null);
      },
      rw (there, there, given),
      record {
        chain = (
          refl,
          (λ e. omega arith),
          rw (put_self h.mem start (block heap_cap null)),
          rw (put_self h.mem start (block heap_cap null)),
        );
        order = omega arith;
        start_pos = got;
        within = small;
      },
      refl,
      refl,
      refl,
    )
