-- ===== src/Threaded/Witnesses.antt =====
-- The theorems on the threaded allocator at a small heap.
use sty_linux.Base.{
  ℕ, ◌≡◌, ◌≢◌, refl, [], ◌∷◌, if◌then◌else◌, ltb, false, inl, inr, Bool-cases, le→ltb, arith,
  update,
}
use sty_linux.Memory.{set_next, null}
use sty_linux.FreeList.{Blocks}
use sty_linux.BestFit.{Heap, round_up}
use sty_linux.BestFit.Valid.{IsHeap}
use sty_linux.Mutex.{World, held, ret, Step, takes, Reach, here, next, until_free}
use sty_linux.Mutex.Serial.{finish}
use sty_linux.Threaded.{Shared, malloc_body, malloc_call, dump_body}
use sty_linux.Threaded.Clients.{Client, finished, run_client, Between, Reach-Between, Reach-steps}
use sty_linux.Threaded.Dump.{printing, dump_body-prints}
use sty_linux.Threaded.Parallel.{Mallocs, Allocating, Allocating-Kept, Reach-Allocating}
use sty_linux.Threaded.Tests.{headers, sample, shared, sbrk, clients, world}

abbrev blocks : Blocks
blocks = (4096, 64) ∷ (4224, 384) ∷ []

sample-IsHeap : IsHeap sample blocks
sample-IsHeap = record {
  chain = (refl, (λ e. omega arith), refl, (refl, (λ e. omega arith), refl, refl));
  order = omega arith;
  start_pos = omega arith;
  within = omega arith;
}

abbrev budgets : ℕ → ℕ
budgets t = if ltb t 2 then 64 else 0

clients-Mallocs : (t : ℕ) → Mallocs (budgets t) (clients t)
unfolding round_up
clients-Mallocs t = elim (Bool-cases (ltb t 2)) [
  | inl e ↦ rw e (omega arith, omega arith, (λ p. tt))
  | inr e ↦ rw e tt
]

world-Allocating : Allocating 2 4096 512 sample clients
world-Allocating = record {
  budgets = budgets;
  blocks = blocks;
  valid = sample-IsHeap;
  bounds = (refl, refl);
  inside = clients-Mallocs;
  outside = λ t le. rw (le→ltb t 2 le) refl;
  room = λ left small. absurd (omega arith);
}

-- The second thread has taken the mutex.
abbrev later : World Shared
later = record world {
  holder = held 1 0;
  threads =
      update world.threads 1
        (malloc_body sbrk false (malloc_call sbrk false 1 64) 64 (λ p. run_client sbrk finished));
}

later-Reach : Reach world later
unfolding malloc_call round_up
later-Reach = next here (takes 1 _ refl refl)

Reach-Allocating_example :
    (cs' : ℕ → Client) × Allocating 2 4096 512 (finish later).shared.heap cs'
    × ((t : ℕ) → (finish later).threads t ≡ run_client sbrk (cs' t))
Reach-Allocating_example =
    Reach-Allocating 2 4096 512 sbrk refl world-Allocating (λ t. refl) later-Reach

Reach-Between_example :
    (cs' : ℕ → Client) × Between sbrk
      (Allocating 2 4096 512)
      (Allocating-Kept 2 4096 512 sbrk)
      (finish later)
      cs'
Reach-Between_example =
    Reach-Between sbrk (Allocating 2 4096 512) (Allocating-Kept 2 4096 512 sbrk) refl
      (record { invariant = world-Allocating; at = λ t. refl }) later-Reach

later-busy : (n : ℕ) → later.threads 0 ≢ ret n
unfolding malloc_call round_up
later-busy n e = cc

Reach-steps_example : (v' : World Shared) × Step later v'
Reach-steps_example =
    Reach-steps sbrk (Allocating 2 4096 512) (Allocating-Kept 2 4096 512 sbrk) 0 refl
      (record { invariant = world-Allocating; at = λ t. refl }) later-Reach later-busy

-- The first block is an exact fit.
abbrev after : Heap
after = record sample { mem = set_next headers 4096 null; first_free = 4224 }

dump_body-prints_example :
    until_free 1 (dump_body (ret 0)) shared
    ≡ (ret 0, printing shared ((4096, 64) ∷ (4160, 64) ∷ (4224, 384) ∷ blocks))
dump_body-prints_example =
    dump_body-prints 0 (ret 0) shared ((4096, 64) ∷ (4160, 64) ∷ (4224, 384) ∷ []) blocks
      sample-IsHeap (omega arith) (omega arith)
