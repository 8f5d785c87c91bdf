-- ===== src/BestFit/Regions.antt =====
-- What `allocHeap` of malloc.c asks of `sbrk` when the heap grows.
use sty_linux.Base.{ℕ, ◌≡◌, ◌≢◌, sym, ap, ◌∙◌, List, ◌∷◌, arith, ne→==}
use mathlib.Core.Path.{subst}
use sty_linux.Base.Words.{add64, sub64}
use sty_linux.Memory.{null}
use sty_linux.BestFit.{Heap, heap_cap, alloc_heap}

-- The heap after the growth of `my_malloc`, as far as `allocHeap` sees it.
abbrev pub enlarged : Heap → Heap
enlarged h = record h { heap_size = add64 h.heap_size heap_cap }

-- What a call for a larger heap asks for, and what it keeps if it gets it.
alloc_heap-asks :
    (sbrk : List ℕ → ℕ) (h : Heap) (size : ℕ)
    → h.heap_start ≢ null
    → (alloc_heap sbrk h.heap_start size h).1.requests ≡ sub64 size h.sbrk_size ∷ h.requests
unfolding alloc_heap
alloc_heap-asks sbrk h size started = rw (ne→== h.heap_start null started) (ground arith)

alloc_heap-gets :
    (sbrk : List ℕ → ℕ) (h : Heap) (size : ℕ)
    → h.heap_start ≢ null
    → sbrk (sub64 size h.sbrk_size ∷ h.requests) ≢ null
    → (alloc_heap sbrk h.heap_start size h).1 ≡ record h {
      requests = sub64 size h.sbrk_size ∷ h.requests;
      sbrk_size = add64 h.sbrk_size size;
    }
unfolding alloc_heap
alloc_heap-gets sbrk h size started got = rw (ne→== h.heap_start null started, ne→== _ null got)

-- From a heap as `initAllocator` leaves it, the first growth asks `sbrk` for a whole region, and the
-- second for nothing: `heapSize += size` adds the new total to the old one.
pub alloc_heap-second :
    (sbrk : List ℕ → ℕ) (h : Heap)
    → h.heap_start ≢ null
    → h.heap_size ≡ heap_cap
    → h.sbrk_size ≡ heap_cap
    → sbrk (heap_cap ∷ h.requests) ≢ null
    → let (_, h1) = alloc_heap sbrk h.heap_start (add64 h.heap_size heap_cap) h in
      let h2 = enlarged h1 in
      let (_, h3) = alloc_heap sbrk h2.heap_start (add64 h2.heap_size heap_cap) h2 in
      (h1.requests ≡ heap_cap ∷ h.requests) × (h3.requests ≡ 0 ∷ heap_cap ∷ h.requests)
alloc_heap-second sbrk h started size asked got =
    let increment : sub64 (add64 h.heap_size heap_cap) h.sbrk_size ≡ heap_cap = omega arith in
    let got' = subst (λ z. sbrk (z ∷ h.requests) ≢ null) (sym increment) got in
    let first = alloc_heap-gets sbrk h (add64 h.heap_size heap_cap) started got' in
    let h2 : Heap = record h {
      heap_size = add64 h.heap_size heap_cap;
      requests = sub64 (add64 h.heap_size heap_cap) h.sbrk_size ∷ h.requests;
      sbrk_size = add64 h.sbrk_size (add64 h.heap_size heap_cap);
    } in
    let nothing : sub64 (add64 h2.heap_size heap_cap) h2.sbrk_size ≡ 0 = omega arith in
    (
      rw first (ap (λ z. z ∷ h.requests) increment),
      rw first (
          alloc_heap-asks sbrk h2 (add64 h2.heap_size heap_cap) started
          ∙ (λ i. nothing i ∷ increment i ∷ h.requests)),
    )
