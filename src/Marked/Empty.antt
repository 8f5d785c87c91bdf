-- ===== src/Marked/Empty.antt =====
-- `my_free` of savesolmalloc.c when no block is free.
use sty_linux.Base.{ℕ, suc, ◌-◌, ◌≡◌, ◌≢◌, refl, arith, fault, ne→==, le→ltb}
use sty_linux.Memory.{Memory, null}
use sty_linux.BestFit.{Heap, header_size, loop_fuel}
use sty_linux.Marked.{find_before, free_marked}

find_before-null : (f : ℕ) (m : Memory) (target : ℕ) → find_before (suc f) m target null ≡ fault
unfolding find_before
find_before-null f m target = refl

-- If the whole heap is allocated, so that the free list is empty, my_free reads through NULL for every
-- address but NULL.
pub free_marked-empty :
    (address : ℕ) (h : Heap) → h.first_free ≡ null → address ≢ null → free_marked address h ≡ fault
unfolding free_marked
free_marked-empty address h none_free given =
    let b = address - header_size in
    let rounds : loop_fuel h ≡ suc h.heap_size = omega arith in
    rw (
      ne→== address null given,
      none_free,
      le→ltb b null (omega arith),
      rounds,
      find_before-null h.heap_size h.mem b,
    )
