-- ===== src/Strategies/Witnesses.antt =====
-- The theorems on the strategies of vika5 at concrete heaps.
use sty_linux.Base.{ℕ, List, [], ◌∷◌}
use sty_linux.Memory.{Memory, block, put}
use sty_linux.FreeList.{Blocks}
use sty_linux.BestFit.{Heap, heap_cap}

-- Free blocks of 64, 1024 and 128 bytes.
abbrev headers : Memory
headers =
    put (put (put (λ _. block 0 0) 4096 (block 64 4224)) 4224 (block 1024 8192)) 8192 (block 128 0)

abbrev sample : Heap
sample = record {
  mem = headers;
  heap_start = 4096;
  heap_size = heap_cap;
  first_free = 4096;
  sbrk_size = heap_cap;
  requests = heap_cap ∷ [];
}

abbrev blocks : Blocks
blocks = (4096, 64) ∷ (4224, 1024) ∷ (8192, 128) ∷ []

abbrev used_up : Heap
used_up = record sample { first_free = 0 }

abbrev sbrk : List ℕ → ℕ
sbrk requests = 4096
