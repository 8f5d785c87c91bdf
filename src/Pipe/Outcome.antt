-- ===== src/Pipe/Outcome.antt =====
-- How `execute` of pipe.c ends, whatever the two processes interleave.
use sty_linux.Base.{
  ℕ, ◌+◌, ◌≡◌, ◌≤◌, ◌<◌, refl, sym, if◌then◌else◌, Bool, true, false, ◌||◌, List, [], ◌∷◌, Option,
  none, some, ℤ, ◌⊎◌, inl, inr, arith,
}
use mathlib.Core.Path.{subst}
use sty_linux.Pipe.{
  Status, exited, signaled, Exec, replaced, refused, Answers, Child, closing_read, executing,
  running, writing, closing_write, exiting, over, Parent, closing, waiting, reading, finishing,
  returned, Fork, child_step, become, waitpid, wait_child, read_pipe, parent_step, kill_child,
  ForkStep, child_moves, parent_moves, child_dies, ForkSteps, stay, more, forked,
}
use sty_linux.Pipe.Invariant.{
  Gives, Gives-some, if-Gives, Reason, ParentSound, ForkSteps-Sound, forked-Sound,
}

module _ (a : Answers) where
  -- If execute of pipe.c has returned, whatever the two processes have interleaved and even if the child
  -- was killed, both ends of its pipe are closed, and the result has its reason: the exit status of the
  -- program, with errno as it was; or -1, with the errno of execvp, of waitpid where that fails, or
  -- ECANCELED if the child was killed or the pipe cannot be read.
  pub execute-Reason :
      (errno n : ℕ) (s : Fork) (r : ℤ)
      → ForkSteps a (forked errno) n s
      → s.parent ≡ returned r
      → (s.parent_write ≡ false) × (s.parent_read ≡ false) × Reason a errno s.child r s.errno
  execute-Reason errno n s r steps e =
      subst (λ p. ParentSound a errno p s) e
        (ForkSteps-Sound a errno (forked errno) s n (forked-Sound a errno) steps)

  -- How many steps are left at most.
  abbrev child_left : Child → ℕ
  child_left closing_read = 5
  child_left executing = 4
  child_left (running st) = 1
  child_left (writing e) = 3
  child_left closing_write = 2
  child_left exiting = 1
  child_left (over st) = 0

  abbrev parent_left : Parent → ℕ
  parent_left closing = 4
  parent_left waiting = 3
  parent_left (reading c) = 2
  parent_left (finishing r) = 1
  parent_left (returned r) = 0

  abbrev left : Fork → ℕ
  left s = child_left s.child + parent_left s.parent

  become-left :
      (x : Exec) (s : Fork) → s.child ≡ executing → Gives (λ s'. left s' < left s) (become x s)
  become-left (replaced st) s e = rw e (omega arith)
  become-left (refused k) s e = rw e (omega arith)

  child_step-left :
      (c : Child) (s : Fork) → s.child ≡ c → Gives (λ s'. left s' < left s) (child_step a c s)
  unfolding child_step
  child_step-left closing_read s e = rw e (omega arith)
  child_step-left executing s e = become-left a.exec s e
  child_step-left (running st) s e = rw e (omega arith)
  child_step-left (writing k) s e =
      if-Gives (λ s'. left s' < left s) (s.parent_read || s.child_read) _ _
        (λ z. rw e (omega arith)) (λ z. rw e (omega arith))
  child_step-left closing_write s e = rw e (omega arith)
  child_step-left exiting s e = rw e (omega arith)
  child_step-left (over st) s e = tt

  kill_child-left :
      (c : Child) (s : Fork) → s.child ≡ c → Gives (λ s'. left s' < left s) (kill_child c s)
  unfolding kill_child
  kill_child-left closing_read s e = rw e (omega arith)
  kill_child-left executing s e = rw e (omega arith)
  kill_child-left (running st) s e = rw e (omega arith)
  kill_child-left (writing k) s e = rw e (omega arith)
  kill_child-left closing_write s e = rw e (omega arith)
  kill_child-left exiting s e = rw e (omega arith)
  kill_child-left (over st) s e = tt

  wait_child-left :
      (c : Child) (s : Fork)
      → s.parent ≡ waiting
      → Gives (λ s'. left s' < left s) (wait_child a c s)
  wait_child-left closing_read s e = tt
  wait_child-left executing s e = tt
  wait_child-left (running st) s e = tt
  wait_child-left (writing k) s e = tt
  wait_child-left closing_write s e = tt
  wait_child-left exiting s e = tt
  wait_child-left (over (exited c)) s e = rw e (omega arith)
  wait_child-left (over signaled) s e = rw e (omega arith)

  waitpid-left :
      (o : Option ℕ) (s : Fork)
      → s.parent ≡ waiting
      → Gives (λ s'. left s' < left s) (waitpid o a s)
  waitpid-left none s e = wait_child-left s.child s e
  waitpid-left (some k) s e = rw e (omega arith)

  read_pipe-left :
      (c : ℕ) (buffer : List ℕ) (s : Fork)
      → s.parent ≡ reading c
      → Gives (λ s'. left s' < left s) (read_pipe c buffer s)
  read_pipe-left c [] s e =
      if-Gives (λ s'. left s' < left s) (s.parent_write || s.child_write) _ _ (λ z. tt)
        (λ z. rw e (omega arith))
  read_pipe-left c (k ∷ ks) s e = rw e (omega arith)

  parent_step-left :
      (p : Parent) (s : Fork) → s.parent ≡ p → Gives (λ s'. left s' < left s) (parent_step a p s)
  unfolding parent_step
  parent_step-left closing s e = rw e (omega arith)
  parent_step-left waiting s e = waitpid-left a.wait s e
  parent_step-left (reading c) s e =
      if-Gives (λ s'. left s' < left s) a.read_works _ _ (λ z. read_pipe-left c s.buffer s e)
        (λ z. rw e (omega arith))
  parent_step-left (finishing r) s e = rw e (omega arith)
  parent_step-left (returned r) s e = tt

  ForkStep-left : (s s' : Fork) → ForkStep a s s' → left s' < left s
  ForkStep-left s s' (child_moves e) =
      Gives-some (λ t. left t < left s) _ s' (child_step-left s.child s refl) e
  ForkStep-left s s' (parent_moves e) =
      Gives-some (λ t. left t < left s) _ s' (parent_step-left s.parent s refl) e
  ForkStep-left s s' (child_dies e) =
      Gives-some (λ t. left t < left s) _ s' (kill_child-left s.child s refl) e

  ForkSteps-left : (s s' : Fork) (n : ℕ) → ForkSteps a s n s' → n + left s' ≤ left s
  ForkSteps-left s s' n stay = omega arith
  ForkSteps-left s s' n (more {n = m} {u = u} steps step) =
      omega (arith, ForkSteps-left s u m steps, ForkStep-left u s' step)

  -- The child can go on, until its end.
  child_goes :
      (c : Child) (s : Fork)
      → ((st : Status) × (c ≡ over st)) ⊎ ((s' : Fork) × (child_step a c s ≡ some s'))
  unfolding child_step
  child_goes closing_read s = inr (_, refl)
  child_goes executing s = inr (go a.exec)
    where
      go : (x : Exec) → (s' : Fork) × (become x s ≡ some s')
      go (replaced st) = (_, refl)
      go (refused e) = (_, refl)
  child_goes (running st) s = inr (_, refl)
  child_goes (writing e) s = inr (go (s.parent_read || s.child_read) _ _)
    where
      go : (b : Bool) (x y : Fork) → (s' : Fork) × ((if b then some x else some y) ≡ some s')
      go true x y = (x, refl)
      go false x y = (y, refl)
  child_goes closing_write s = inr (_, refl)
  child_goes exiting s = inr (_, refl)
  child_goes (over st) s = inl (st, refl)

  -- A step that is there.
  abbrev Some : Option Fork → Type 0
  Some o = (s' : Fork) × (o ≡ some s')

  if-Some : (b : Bool) (o : Option Fork) (s : Fork) → Some o → Some (if b then o else some s)
  if-Some true o s h = h
  if-Some false o s h = (s, refl)

  wait_over : (st : Status) (s : Fork) → Some (wait_child a (over st) s)
  wait_over (exited c) s = (_, refl)
  wait_over signaled s = (_, refl)

  waitpid_goes : (o : Option ℕ) (s : Fork) → Some (waitpid o a s) ⊎ Some (child_step a s.child s)
  waitpid_goes (some k) s = inl (_, refl)
  waitpid_goes none s = elim (child_goes s.child s) [
    | inl (st, e) ↦ inl (subst (λ c. Some (wait_child a c s)) (sym e) (wait_over st s))
    | inr goes ↦ inr goes
  ]

  read_goes :
      (c : ℕ) (buffer : List ℕ) (s : Fork)
      → (s.parent_write || s.child_write) ≡ false
      → Some (read_pipe c buffer s)
  read_goes c [] s shut = rw shut (_, refl)
  read_goes c (k ∷ ks) s shut = (_, refl)

  -- The parent has returned, or one of the two can go on.
  parent_goes :
      (errno : ℕ) (p : Parent) (s : Fork)
      → ParentSound a errno p s
      → ((r : ℤ) × (p ≡ returned r)) ⊎ (Some (parent_step a p s) ⊎ Some (child_step a s.child s))
  unfolding parent_step
  parent_goes errno closing s h = inr (inl (_, refl))
  parent_goes errno waiting s h = inr (waitpid_goes a.wait s)
  parent_goes errno (reading c) s h =
      let shut : (s.parent_write || s.child_write) ≡ false = rw (h.1, h.3.0) refl in
      inr (inl (if-Some a.read_works (read_pipe c s.buffer s) _ (read_goes c s.buffer s shut)))
  parent_goes errno (finishing r) s h = inr (inl (_, refl))
  parent_goes errno (returned r) s h = inl (r, refl)

  -- execute of pipe.c returns, if the program that it starts comes to its end: whatever the two processes
  -- interleave, they make nine steps at most, and until execute has returned some step can be made, so
  -- that neither waitpid nor read blocks for ever.
  pub execute-returns :
      (errno n : ℕ) (s : Fork)
      → ForkSteps a (forked errno) n s
      → (n ≤ 9) × (((r : ℤ) × (s.parent ≡ returned r)) ⊎ ((s' : Fork) × ForkStep a s s'))
  execute-returns errno n s steps =
      let short = ForkSteps-left (forked errno) s n steps in
      let sound = ForkSteps-Sound a errno (forked errno) s n (forked-Sound a errno) steps in
      (
        omega arith,
        elim (parent_goes errno s.parent s sound) [
          | inl end ↦ inl end
          | inr (inl (s', e)) ↦ inr (s', parent_moves e)
          | inr (inr (s', e)) ↦ inr (s', child_moves e)
        ],
      )
