-- ===== src/Marked/Witnesses.antt =====
-- The theorems on the allocator of savesolmalloc.c at concrete heaps.
use sty_linux.Base.{ℕ, ◌+◌, ◌≡◌, refl, inl, inr, List, [], ◌∷◌, ◌++◌, arith, done}
use sty_linux.Memory.{null}
use sty_linux.FreeList.{Blocks}
use sty_linux.BestFit.{Heap, heap_cap, obtained, round_up}
use sty_linux.BestFit.Allocate.{carve}
use sty_linux.BestFit.Malloc.{footprint}
use sty_linux.BestFit.Valid.{IsHeap}
use sty_linux.Marked.{malloc_marked, free_marked}
use sty_linux.BestFit.Free.{Released}
use sty_linux.Marked.Extend.{malloc_marked-Grown}
use sty_linux.Marked.Free.{free_marked-Released}
use sty_linux.Marked.Tests.{sample, bump}

abbrev blocks : Blocks
blocks = (4096, 64) ∷ (4224, 1024) ∷ []

sample-IsHeap : IsHeap sample blocks
sample-IsHeap = record {
  chain = (refl, (λ e. omega arith), refl, (refl, (λ e. omega arith), refl, refl));
  order = omega arith;
  start_pos = omega arith;
  within = omega arith;
}

abbrev sbrk : List ℕ → ℕ
sbrk requests = null

-- All of the heap is allocated.
abbrev used_up : Heap
used_up = record sample { first_free = null }

free_marked-Released_example :
    (h' : Heap) × (free_marked 4176 sample ≡ done h') × Released sample h' blocks 4160
free_marked-Released_example =
    free_marked-Released sample blocks 4160 sample-IsHeap (λ e. omega arith) (omega arith)
      (omega arith) (omega arith) (inl (omega arith), (inr (omega arith), tt))

malloc_marked-Grown_example :
    (h' : Heap) × (malloc_marked bump 5000 sample ≡ done (4096 + heap_cap + 16, h'))
    × IsHeap h' (blocks ++ (carve (4096 + heap_cap) heap_cap (footprint 5000) ++ []))
    × (h'.heap_size ≡ heap_cap + heap_cap)
    × (h'.sbrk_size ≡ h'.heap_size)
    × (obtained bump h'.requests ≡ 4096 + heap_cap + heap_cap)
unfolding round_up
malloc_marked-Grown_example =
    malloc_marked-Grown sample blocks sample-IsHeap bump 5000 refl refl
      (omega arith, (omega arith, tt)) (omega arith) (omega arith) (omega arith)
