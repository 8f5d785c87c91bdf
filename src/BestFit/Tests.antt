-- ===== src/BestFit/Tests.antt =====
-- Runs of the program in `main` of malloc.c.
use sty_linux.Base.{ℕ, ◌≡◌, refl, List, [], ◌∷◌, ◌+◌, Run, done, ◌>>=◌}
use sty_linux.Memory.{block}
use sty_linux.BestFit.{
  Heap, round_up, search_best, split_block, allocate_block, insert_position, add_region, alloc_heap,
  init_allocator, my_malloc, obtained, merge_blocks, locate, insert_block, merge_around, my_free,
  statistics_loop, get_alloc_statistics, MallocStat,
}

-- `sbrk` that always has memory, from address 4096 on: it returns the old break.
abbrev pub bump : List ℕ → ℕ
bump [] = 4096
bump (n ∷ []) = 4096
bump (n ∷ m ∷ ns) = bump (m ∷ ns) + m

abbrev blank : Heap
blank = record {
  mem = λ _. block 0 0;
  heap_start = 0;
  heap_size = 0;
  first_free = 0;
  sbrk_size = 0;
  requests = [];
}

main_run : Run (MallocStat × MallocStat × MallocStat × MallocStat)
unfolding round_up search_best split_block allocate_block insert_position add_region alloc_heap
    init_allocator my_malloc obtained merge_blocks locate insert_block merge_around my_free
    statistics_loop get_alloc_statistics
main_run = init_allocator bump blank >>= λ h0. get_alloc_statistics h0 >>= λ s0.
    my_malloc bump 3 1000 h0 >>= λ (a, h1). my_malloc bump 3 2000 h1 >>= λ (b, h2).
    my_malloc bump 3 3000 h2 >>= λ (c, h3). get_alloc_statistics h3 >>= λ s1. my_free b h3 >>= λ h4.
    get_alloc_statistics h4 >>= λ s2. my_free a h4 >>= λ h5.
    my_free c h5 >>= λ h6. get_alloc_statistics h6 >>= λ s3. done (s0, s1, s2, s3)

abbrev stat : ℕ → ℕ → ℕ → MallocStat
stat n a l = record { free_count = n; avg_free = a; largest_free = l }

main_output :
    main_run
    ≡ done (
      stat 1 33554432 33554432,
      stat 1 33548368 33548368,
      stat 2 16775192 33548368,
      stat 1 33554432 33554432,
    )
unfolding main_run
main_output = refl
