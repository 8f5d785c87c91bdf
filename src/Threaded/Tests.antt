-- ===== src/Threaded/Tests.antt =====
-- Runs of the threaded allocator in a small heap.
use sty_linux.Base.{ℕ, ◌≡◌, refl, List, [], ◌∷◌, if◌then◌else◌, ltb, true}
use sty_linux.Memory.{Memory, block, put, null}
use sty_linux.BestFit.{Heap, round_up, split_block, allocate_block}
use sty_linux.Mutex.{World, free, ret, until_free}
use sty_linux.Threaded.{
  Shared, next_block, walk_blocks, walk_free, dump_body, dump_allocator, search_rounds, malloc_body,
  malloc_call,
}
use sty_linux.Threaded.Clients.{Client, finished, mallocs, run_client}

-- Free blocks of 64 and 384 bytes, with an allocated one of 64 bytes between them at 4160.
abbrev pub headers : Memory
headers = put (put (put (λ _. block 0 0) 4096 (block 64 4224)) 4160 (block 64 0)) 4224 (block 384 0)

abbrev pub sample : Heap
sample = record {
  mem = headers;
  heap_start = 4096;
  heap_size = 512;
  first_free = 4096;
  sbrk_size = 512;
  requests = 512 ∷ [];
}

abbrev pub shared : Shared
shared = record { heap = sample; printed = [] }

abbrev pub sbrk : List ℕ → ℕ
sbrk requests = null

-- Two threads want 40 bytes each.
abbrev pub clients : ℕ → Client
clients t = if ltb t 2 then mallocs 40 (λ p. finished) else finished

abbrev pub world : World Shared
world = record { shared = shared; holder = free; threads = λ t. run_client sbrk (clients t) }

-- A call that runs alone with `debug` on prints before and after.
abbrev alone : List (ℕ × ℕ)
alone = (until_free 1 (malloc_call sbrk true 1 40 (λ p. ret p)) shared).1.printed

prints_both :
    alone
    ≡ (4096, 64)
      ∷ (4160, 64)
      ∷ (4224, 384)
      ∷ (4096, 64)
      ∷ (4224, 384)
      ∷ (4096, 64)
      ∷ (4160, 64)
      ∷ (4224, 384)
      ∷ (4224, 384)
      ∷ []
unfolding round_up split_block allocate_block next_block walk_blocks walk_free dump_body
    dump_allocator search_rounds malloc_body malloc_call
prints_both = refl
