-- ===== src/Threaded/Parallel.antt =====
-- Threads that allocate at the same time, as the first loop of
-- STY25/vika9/assignment09-templates-1/p1/test-malloc.c does.
use sty_linux.Base.{
  ℕ, zero, suc, ◌+◌, ◌-◌, ◌≤◌, ◌<◌, ◌≡◌, refl, ap, ◌∙◌, sym, List, [], ◌∷◌, ◌++◌, done, arith,
  update, update_self, update_other, update-All, All, All-mono, Bool-cases, inl, inr, ◌==◌, ==→eq,
}
use mathlib.Core.Path.{subst}
use native.Mathlib.Decide.{dec_lt}
use sty_linux.FreeList.{Blocks}
use sty_linux.BestFit.{Heap, heap_cap, header_size, my_malloc}
use sty_linux.BestFit.Allocate.{carve}
use sty_linux.BestFit.Valid.{IsHeap}
use sty_linux.BestFit.Malloc.{footprint, footprint_bounds, my_malloc-Placed}
use sty_linux.Mutex.{World, free, Reach}
use sty_linux.Mutex.Serial.{finish}
use sty_linux.Threaded.{Shared}
use sty_linux.Threaded.Clients.{Client, finished, mallocs, frees, run_client, Kept, Reach-Between}

-- The client only calls my_malloc, with sizes that fit a region, and the blocks take at most `budget`
-- bytes, headers included.
abbrev pub Mallocs : ℕ → Client → Type 0
Mallocs budget finished = Unit
Mallocs budget (mallocs size k) =
    (size + header_size ≤ heap_cap)
    × (footprint size ≤ budget)
    × ((p : ℕ) → Mallocs (budget - footprint size) (k p))
Mallocs budget (frees address c) = ⊥

-- The budgets of the first `n` threads.
abbrev pub total : ℕ → (ℕ → ℕ) → ℕ
total zero budgets = 0
total (suc n) budgets = budgets n + total n budgets

total-other :
    (n : ℕ) (budgets : ℕ → ℕ) (t m : ℕ) → n ≤ t → total n (update budgets t m) ≡ total n budgets
total-other zero budgets t m le = refl
total-other (suc n) budgets t m le =
    omega (
      arith,
      total-other n budgets t m (omega arith),
      update_other budgets t m n (λ e. omega arith),
    )

total-update :
    (n : ℕ) (budgets : ℕ → ℕ) (t w m : ℕ)
    → t < n
    → budgets t ≡ w + m
    → total n budgets ≡ w + total n (update budgets t m)
total-update zero budgets t w m lt e = absurd (omega arith)
total-update (suc n) budgets t w m lt e = elim (dec_lt t n) [
  | yes below ↦
      omega (
        arith,
        total-update n budgets t w m below e,
        update_other budgets t m n (λ e'. omega arith),
      )
  | no top ↦
      let same : t ≡ n = omega arith in
      omega (
        arith,
        total-other n budgets t m (omega arith),
        subst (λ u. update budgets t m u ≡ m) same (update_self budgets t m),
        sym (ap budgets same) ∙ e,
      )
]

-- If all blocks are below `m` bytes after `w` bytes were cut from one, all were below `w + m` before.
All-carve :
    (w m : ℕ) (before after : Blocks) (a s : ℕ)
    → 0 < m
    → w ≤ s
    → All (λ c. c.1 < m) (before ++ (carve a s w ++ after))
    → All (λ c. c.1 < w + m) (before ++ (a, s) ∷ after)
All-carve w m [] after a s pos fits small = elim (Bool-cases (s == w)) [
  | inl e ↦
      let same = ==→eq s w e in
      let rest : All (λ c. c.1 < m) after = rw e at small in (omega arith, below rest)
  | inr e ↦
      let rest : All (λ c. c.1 < m) ((a + w, s - w) ∷ after) = rw e at small in
      (omega (arith, rest.0), below rest.1)
]
  where
    below : All (λ c. c.1 < m) after → All (λ c. c.1 < w + m) after
    below = All-mono (λ c. c.1 < m) (λ c. c.1 < w + m) (λ c k. omega arith) after
All-carve w m (b ∷ before) after a s pos fits small =
    (omega (arith, small.0), All-carve w m before after a s pos fits small.1)

no_frees : (budget address : ℕ) (c : Client) → Mallocs budget (frees address c) → ⊥
no_frees budget address c h = h

module _ (n lo bytes : ℕ) where
  -- The heap is at `lo` and has `bytes` bytes, the first `n` threads allocate, the others do nothing, and
  -- while a byte is left to allocate, a free block has room for all of it.
  pub record Allocating (h : Heap) (cs : ℕ → Client) : Type 0 where
    pub budgets : ℕ → ℕ
    pub blocks : Blocks
    pub valid : IsHeap h blocks
    pub bounds : (h.heap_start ≡ lo) × (h.heap_size ≡ bytes)
    pub inside : (t : ℕ) → Mallocs (budgets t) (cs t)
    pub outside : (t : ℕ) → n ≤ t → budgets t ≡ 0
    pub room : 0 < total n budgets → ¬ All (λ c. c.1 < total n budgets) blocks

  module _ (sbrk : List ℕ → ℕ) where
    Allocating-malloc :
        (h : Heap) (cs : ℕ → Client) (t size : ℕ) (k : ℕ → Client)
        → Allocating h cs
        → cs t ≡ mallocs size k
        → (r : ℕ) × (h' : Heap) × (my_malloc sbrk 2 size h ≡ done (r, h'))
          × Allocating h' (update cs t (k r))
    Allocating-malloc h cs t size k inv ec =
        let budgets = inv.budgets in
        let w = footprint size in
        let m = budgets t - w in
        let (fits, enough, rest) = subst (Mallocs (budgets t)) ec (inv.inside t) in
        let (least, _, _) = footprint_bounds size fits in
        let below : t < n = elim (dec_lt t n) [
          | yes lt ↦ lt
          | no ge ↦ absurd (omega (arith, inv.outside t (omega arith), least, enough))
        ] in
        let spent : total n budgets ≡ w + total n (update budgets t m) =
          total-update n budgets t w m below (omega (arith, enough)) in
        let some_fit : ¬ All (λ c. c.1 < w) inv.blocks = λ small.
          inv.room (omega (arith, spent, least)) (
            All-mono (λ c. c.1 < w) (λ c. c.1 < total n budgets) (λ c l. omega (arith, spent, l))
              inv.blocks small) in
        let (r, runs, placed) = my_malloc-Placed sbrk 1 size h inv.blocks inv.valid fits some_fit in
        (
          r.0,
          r.1,
          runs,
          record {
            budgets = update budgets t m;
            blocks = placed.before ++ (carve placed.address placed.size w ++ placed.after);
            valid = placed.valid;
            bounds = (placed.globals.0 ∙ inv.bounds.0, placed.globals.1 ∙ inv.bounds.1);
            inside =
                update-All (λ u c. Mallocs (update budgets t m u) c) cs t (k r.0)
                  (subst (λ z. Mallocs z (k r.0)) (sym (update_self budgets t m)) (rest r.0))
                  (λ u ne.
                    subst (λ z. Mallocs z (cs u)) (sym (update_other budgets t m u ne))
                      (inv.inside u));
            outside = λ u le. update_other budgets t m u (λ e. omega arith) ∙ inv.outside u le;
            room = λ left small. inv.room (omega (arith, spent, left)) (
                subst (λ z. All (λ c. c.1 < z) inv.blocks) (sym spent)
                  (subst (λ z. All (λ c. c.1 < w + total n (update budgets t m)) z) (sym placed.cut)
                    (All-carve w (total n (update budgets t m)) placed.before placed.after
                      placed.address placed.size left placed.fits small)));
          },
        )

    pub Allocating-Kept : Kept sbrk Allocating
    Allocating-Kept = record {
      malloc_kept = Allocating-malloc;
      free_kept = λ h cs t address c inv ec.
          absurd (
            no_frees (inv.budgets t) address c (subst (Mallocs (inv.budgets t)) ec (inv.inside t)));
    }

    -- If the first `n` threads only call my_malloc, with sizes that fit a region, a free block of a well-formed
    -- heap has room for all their blocks together, and the mutex is free, then whatever they interleave, step by
    -- step, the heap is well formed when the call under way has ended and has not grown, a free block has room for
    -- all that is left to allocate, and each thread is then before a call that is left, or at its end.
    pub Reach-Allocating :
        {w v : World Shared} {cs : ℕ → Client}
        → w.holder ≡ free
        → Allocating w.shared.heap cs
        → ((t : ℕ) → w.threads t ≡ run_client sbrk (cs t))
        → Reach w v
        → (cs' : ℕ → Client) × Allocating (finish v).shared.heap cs'
          × ((t : ℕ) → (finish v).threads t ≡ run_client sbrk (cs' t))
    Reach-Allocating {w} {v} {cs} eh inv at r =
        let (cs', b) =
          Reach-Between sbrk Allocating Allocating-Kept eh (record { invariant = inv; at = at })
            r in
        (cs', b.invariant, b.at)
