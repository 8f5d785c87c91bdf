-- ===== src/Marked/Tests.antt =====
-- Runs of the allocator of savesolmalloc.c.
use sty_linux.Base.{ℕ, ◌+◌, ◌≡◌, refl, List, [], ◌∷◌, Run, done, ◌>>=◌}
use sty_linux.Memory.{Memory, block, put}
use sty_linux.BestFit.{Heap, round_up, heap_cap, obtained}
use sty_linux.Marked.{
  magic, following, enlarge_heap, search_smallest, split_marked, allocate_marked, malloc_marked,
  merge_marked, find_before, link_behind, free_marked,
}

-- `sbrk` that always has memory, from address 4096 on: it returns the old break.
abbrev pub bump : List ℕ → ℕ
bump [] = 4096
bump (n ∷ []) = 4096
bump (n ∷ m ∷ ns) = bump (m ∷ ns) + m

-- Free blocks of 64 and 1024 bytes, with an allocated one of 64 bytes between them at 4160.
abbrev pub headers : Memory
headers =
    put (put (put (λ _. block 0 0) 4096 (block 64 4224)) 4160 (block 64 magic)) 4224 (block 1024 0)

abbrev pub sample : Heap
sample = record {
  mem = headers;
  heap_start = 4096;
  heap_size = heap_cap;
  first_free = 4096;
  sbrk_size = heap_cap;
  requests = heap_cap ∷ [];
}

-- Allocate, free, and look at the header of the first free block.
abbrev there_and_back : Run (ℕ × ℕ × ℕ)
there_and_back = malloc_marked bump 100 sample >>= λ (p, h1). free_marked 4176 h1 >>= λ h2.
    free_marked p h2 >>= λ h3. done (p, h3.first_free, (h3.mem 4096).size)

joins_all : there_and_back ≡ done (4240, 4096, 1152)
unfolding round_up following search_smallest split_marked allocate_marked malloc_marked merge_marked
    find_before link_behind free_marked
joins_all = refl

-- A request that no free block can take: the region that the heap grows by is used at once, without
-- the second header of vika4.
abbrev from_new_region : Run ℕ
from_new_region = malloc_marked bump 5000 sample >>= λ (p, h1). done p

uses_region : from_new_region ≡ done (4096 + heap_cap + 16)
unfolding round_up obtained following enlarge_heap search_smallest split_marked allocate_marked
    malloc_marked
uses_region = refl
