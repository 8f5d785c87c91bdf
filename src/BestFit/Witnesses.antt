-- ===== src/BestFit/Witnesses.antt =====
-- The theorems on the allocator of vika4 at concrete heaps.
use sty_linux.Base.{ℕ, ◌≡◌, refl, inl, inr, List, [], ◌∷◌, arith, done}
use sty_linux.Memory.{Memory, block, put, null}
use sty_linux.FreeList.{Blocks}
use sty_linux.FreeList.Release.{release}
use sty_linux.BestFit.{Heap, heap_cap, my_malloc, my_free, get_alloc_statistics}
use sty_linux.BestFit.Valid.{IsHeap}
use sty_linux.BestFit.Extend.{my_malloc-IsHeap}
use sty_linux.BestFit.Free.{Released, my_free-Released}
use sty_linux.BestFit.Tests.{bump}
use sty_linux.BestFit.Statistics.{get_alloc_statistics_lem}

-- Free blocks of 64 and 1024 bytes, with an allocated one of 64 bytes between them at 4160.
abbrev headers : Memory
headers =
    put (put (put (λ _. block 0 0) 4096 (block 64 4224)) 4160 (block 64 0)) 4224 (block 1024 0)

abbrev sample : Heap
sample = record {
  mem = headers;
  heap_start = 4096;
  heap_size = heap_cap;
  first_free = 4096;
  sbrk_size = heap_cap;
  requests = heap_cap ∷ [];
}

abbrev blocks : Blocks
blocks = (4096, 64) ∷ (4224, 1024) ∷ []

sample-IsHeap : IsHeap sample blocks
sample-IsHeap = record {
  chain = (refl, (λ e. omega arith), refl, (refl, (λ e. omega arith), refl, refl));
  order = omega arith;
  start_pos = omega arith;
  within = omega arith;
}

abbrev no_memory : List ℕ → ℕ
no_memory requests = null

my_malloc-IsHeap_example :
    (r : ℕ × Heap) × (ys : Blocks) × (my_malloc bump 2 5000 sample ≡ done r) × IsHeap r.1 ys
my_malloc-IsHeap_example =
    my_malloc-IsHeap bump 0 5000 sample blocks sample-IsHeap (omega arith) (omega arith) refl
      (inr refl)

-- The block between the free ones joins both.
my_free-Released_example :
    (h' : Heap) × (my_free 4176 sample ≡ done h') × Released sample h' blocks 4160
my_free-Released_example =
    my_free-Released sample blocks 4160 sample-IsHeap (omega arith) (omega arith) (omega arith)
      (inl (omega arith), (inr (omega arith), tt))

my_free-joins_both : release 4160 64 blocks ≡ (4096, 1152) ∷ []
unfolding release
my_free-joins_both = refl

get_alloc_statistics_lem_example :
    get_alloc_statistics sample
    ≡ done (record { free_count = 2; avg_free = 544; largest_free = 1024 })
get_alloc_statistics_lem_example =
    get_alloc_statistics_lem sample blocks sample-IsHeap (omega arith)
