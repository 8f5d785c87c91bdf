-- ===== src/Threaded/Clients.antt =====
-- Threads that call the threaded allocator again and again, as those of
-- STY25/vika9/assignment09-templates-1/p1/test-malloc.c do. What holds when whole calls run one after
-- another holds in every interleaving.
use sty_linux.Base.{
  ℕ, ◌≡◌, ◌≢◌, ◌-◌, refl, ap, ◌∙◌, sym, ◌==◌, ltb, false, List, done, Bool-cases, inl, inr, update,
  update_self, ==→eq, ==→ne, done-injective,
}
use mathlib.Core.Path.{subst}
use sty_linux.Base.Words.{add64}
use sty_linux.Memory.{null}
use sty_linux.BestFit.{Heap, header_size, heap_cap, round_up, my_malloc, my_free}
use sty_linux.Mutex.{
  ret, abort, lock, Holder, free, Step, World, Reach, AllGuarded, Guarded, until_free, depth,
}
use sty_linux.Mutex.Progress.{Reach-Goes}
use sty_linux.Mutex.Serial.{
  finish, Sections, none_yet, then_one, section, section_end, Ran, section-Ran, Reach-Sections,
  finish-abort,
}
use sty_linux.Threaded.{Shared, Next, with_heap, malloc_body, malloc_call, free_body, free_call}
use sty_linux.Threaded.Calls.{malloc_body-run, malloc_call-run, free_body-run}
use sty_linux.Threaded.Guards.{malloc_call-Guarded, free_call-Guarded}

-- What a thread still wants to call; it may use what my_malloc returns.
pub data Client : Type 0 where
  finished : Client
  mallocs : (size : ℕ) → (ℕ → Client) → Client
  frees : (address : ℕ) → Client → Client

lock-injective : (p q : Next) → lock p ≡ lock q → p ≡ q
lock-injective p q e = cc

unmoved :
    (w : World Shared) (t : ℕ) {q : Next} → w.threads t ≡ q → w.holder ≡ free → Ran w t q w.shared w
unmoved w t e eh = record { free_again = eh; left = refl; goes_on = e; others = λ u ne. refl }

abbrev want : ℕ → ℕ
want size = add64 header_size (round_up size)

module _ (sbrk : List ℕ → ℕ) where
  -- Two calls of my_malloc are enough, see BestFit.Extend.
  abbrev pub run_client : Client → Next
  run_client finished = ret 0
  run_client (mallocs size k) = malloc_call sbrk false 2 size (λ p. run_client (k p))
  run_client (frees address c) = free_call address (run_client c)

  pub run_client-Guarded : (c : Client) → Guarded 0 (run_client c)
  run_client-Guarded finished = tt
  run_client-Guarded (mallocs size k) =
      malloc_call-Guarded sbrk false 2 size 0 (λ p. run_client (k p))
        (λ p. run_client-Guarded (k p))
  run_client-Guarded (frees address c) =
      free_call-Guarded address 0 (run_client c) (run_client-Guarded c)

  run_client-ne-abort : (c : Client) → run_client c ≢ abort
  unfolding malloc_call free_call
  run_client-ne-abort finished = λ e. cc
  run_client-ne-abort (mallocs size k) = elim (Bool-cases (ltb heap_cap (want size))) [
    | inl big ↦ rw big (run_client-ne-abort (k null))
    | inr fits ↦ rw fits (λ e. cc)
  ]
  run_client-ne-abort (frees address c) = elim (Bool-cases (address == null)) [
    | inl none_given ↦ rw none_given (run_client-ne-abort c)
    | inr given ↦ rw given (λ e. cc)
  ]

  -- What the clients have still to do, with the heap: an invariant that whole calls keep.
  pub record Kept (Inv : Heap → (ℕ → Client) → Type 0) : Type 0 where
    pub malloc_kept :
        (h : Heap) (cs : ℕ → Client) (t size : ℕ) (k : ℕ → Client)
        → Inv h cs
        → cs t ≡ mallocs size k
        → (r : ℕ) × (h' : Heap) × (my_malloc sbrk 2 size h ≡ done (r, h'))
          × Inv h' (update cs t (k r))
    pub free_kept :
        (h : Heap) (cs : ℕ → Client) (t address : ℕ) (c : Client)
        → Inv h cs
        → cs t ≡ frees address c
        → (h' : Heap) × (my_free address h ≡ done h') × Inv h' (update cs t c)

  module _ (Inv : Heap → (ℕ → Client) → Type 0) (kept : Kept Inv) where
    -- The threads of `w` are at the beginnings of calls, or at their ends.
    pub record Between (w : World Shared) (cs : ℕ → Client) : Type 0 where
      pub invariant : Inv w.shared.heap cs
      pub at : (t : ℕ) → w.threads t ≡ run_client (cs t)

    -- Thread `t` goes on with `c`.
    Ran-Between :
        (w v : World Shared) (cs : ℕ → Client) (t : ℕ) (c : Client) (s : Shared)
        → ((u : ℕ) → w.threads u ≡ run_client (cs u))
        → Ran w t (run_client c) s v
        → Inv s.heap (update cs t c)
        → Between v (update cs t c)
    Ran-Between w v cs t c s at ran inv = record {
      invariant = subst (λ (z : Shared). Inv z.heap (update cs t c)) (sym ran.left) inv;
      at = λ u. elim (Bool-cases (u == t)) [
        | inl same ↦ rw same (ap v.threads (==→eq u t same) ∙ ran.goes_on)
        | inr other ↦ rw other (ran.others u (==→ne u t other) ∙ at u)
      ];
    }

    section_end-Between :
        (w : World Shared) (cs : ℕ → Client) (t : ℕ) (body p : Next) (c : Client) (h : Heap)
        → ((u : ℕ) → w.threads u ≡ run_client (cs u))
        → body ≡ p
        → until_free 1 body w.shared ≡ (run_client c, with_heap w.shared h)
        → Inv h (update cs t c)
        → (cs' : ℕ → Client) × Between (section_end w t p) cs'
    section_end-Between w cs t body p c h at same runs inv =
        let left = with_heap w.shared h in
        let runs' = subst (λ q. until_free 1 q w.shared ≡ (run_client c, left)) same runs in
        (
          update cs t c,
          Ran-Between w (section_end w t p) cs t c left at
              (section-Ran w t p (run_client c) left runs') inv,
        )

    Section-Between :
        (c : Client) (w : World Shared) (cs : ℕ → Client) (t : ℕ) (p : Next)
        → Between w cs
        → cs t ≡ c
        → w.holder ≡ free
        → w.threads t ≡ lock p
        → (cs' : ℕ → Client) × Between (section_end w t p) cs'
    unfolding my_malloc malloc_call my_free free_call
    Section-Between finished w cs t p b ec eh e =
        (let stuck : ret 0 ≡ lock p = sym (b.at t ∙ ap run_client ec) ∙ e in absurd (cc))
    Section-Between (mallocs size k) w cs t p b ec eh e =
        let (r, h', runs, inv) = kept.malloc_kept w.shared.heap cs t size k b.invariant ec in
        let here : malloc_call sbrk false 2 size (λ q. run_client (k q)) ≡ lock p =
          sym (b.at t ∙ ap run_client ec) ∙ e in
        elim (Bool-cases (ltb heap_cap (want size))) [
          | inl big ↦
              let same : (null, w.shared.heap) ≡ (r, h') = done-injective _ _ (rw big at runs) in
              let stays : w.threads t ≡ run_client (k null) = e ∙ sym (rw big at here) in
              let inv' = subst (λ (z : ℕ × Heap). Inv z.1 (update cs t (k z.0))) (sym same) inv in
              Section-Between (k null) w (update cs t (k null)) t p
                (Ran-Between w w cs t (k null) w.shared b.at (unmoved w t stays eh) inv')
                (update_self cs t (k null)) eh e
          | inr fits ↦
              let again = malloc_call sbrk false 1 (want size) in
              let body = malloc_body sbrk false again (want size) (λ q. run_client (k q)) in
              let runs' =
                malloc_body-run sbrk again (my_malloc sbrk 1 (want size))
                  (λ d' k' s' r' x. malloc_call-run sbrk 1 (want size) d' k' s' r' x) (want size) 0
                  (λ q. run_client (k q)) w.shared r h' (rw fits at runs) in
              section_end-Between w cs t body p (k r) h' b.at
                (lock-injective body p (rw fits at here)) runs' inv
        ]
    Section-Between (frees address c) w cs t p b ec eh e =
        let (h', runs, inv) = kept.free_kept w.shared.heap cs t address c b.invariant ec in
        let here : free_call address (run_client c) ≡ lock p =
          sym (b.at t ∙ ap run_client ec) ∙ e in
        elim (Bool-cases (address == null)) [
          | inl none_given ↦
              let same : w.shared.heap ≡ h' = done-injective _ _ (rw none_given at runs) in
              let stays : w.threads t ≡ run_client c = e ∙ sym (rw none_given at here) in
              let inv' = subst (λ (z : Heap). Inv z (update cs t c)) (sym same) inv in
              Section-Between c w (update cs t c) t p
                (Ran-Between w w cs t c w.shared b.at (unmoved w t stays eh) inv')
                (update_self cs t c) eh e
          | inr given ↦
              let body = free_body (address - header_size) (run_client c) in
              section_end-Between w cs t body p c h' b.at (lock-injective body p (rw given at here))
                (free_body-run address 0 (run_client c) w.shared h' given runs) inv
        ]

    Sections-Between :
        {w v : World Shared} {cs : ℕ → Client}
        → w.holder ≡ free
        → Between w cs
        → Sections w v
        → (v.holder ≡ free) × ((cs' : ℕ → Client) × Between v cs')
    Sections-Between {w} {v} {cs} eh b none_yet = (eh, (cs, b))
    Sections-Between {w} {v} {cs} eh b (then_one {v = u} r (section t p eu e)) =
        let (cs', b') = (Sections-Between eh b r).1 in
        (refl, Section-Between (cs' t) u cs' t p b' refl eu e)

    all_guarded :
        {w : World Shared} {cs : ℕ → Client} → w.holder ≡ free → Between w cs → AllGuarded w
    all_guarded {w} {cs} eh b t =
        subst (λ (z : Holder). Guarded (depth t z) (w.threads t)) (sym eh)
          (subst (Guarded 0) (sym (b.at t)) (run_client-Guarded (cs t)))

    -- Threads that only call my_malloc and my_free, and a heap with an invariant that single calls of the
    -- code of BestFit keep, whichever thread makes them: whatever the threads interleave, step by step,
    -- when the call under way has ended the heap has the invariant again, with what the threads have
    -- still to do.
    pub Reach-Between :
        {w v : World Shared} {cs : ℕ → Client}
        → w.holder ≡ free
        → Between w cs
        → Reach w v
        → (cs' : ℕ → Client) × Between (finish v) cs'
    Reach-Between {w} {v} {cs} eh b r =
        (Sections-Between eh b (Reach-Sections eh (all_guarded eh b) r).0).1

    -- Threads that only call my_malloc and my_free, from a heap with an invariant that single calls keep:
    -- whatever they interleave, while a thread has not come to its end, some thread can make a step.
    pub Reach-steps :
        {w v : World Shared} {cs : ℕ → Client} (t : ℕ)
        → w.holder ≡ free
        → Between w cs
        → Reach w v
        → ((n : ℕ) → v.threads t ≢ ret n)
        → (v' : World Shared) × Step v v'
    Reach-steps {w} {v} {cs} t eh b r busy = elim (Reach-Goes t eh (all_guarded eh b) r busy) [
      | inl goes ↦ goes
      | inr (x, failed) ↦
          let (cs', b') = Reach-Between eh b r in
          absurd (run_client-ne-abort (cs' x) (sym (b'.at x) ∙ finish-abort v x failed))
    ]
