-- ===== src/Pipe/Invariant.antt =====
-- What holds of pipe.c after any steps of the two processes.
use sty_linux.Base.{
  ℕ, ◌≡◌, ◌≢◌, refl, sym, ap, ◌∙◌, if◌then◌else◌, Bool, true, false, ◌||◌, List, [], ◌∷◌, ◌++◌,
  Option, none, some, ℤ, pos, negsuc, ◌⊎◌, inl, inr, Bool-cases,
}
use mathlib.Core.Path.{subst}
use sty_linux.Pipe.{
  Status, exited, signaled, Exec, replaced, refused, Answers, Child, closing_read, executing,
  running, writing, closing_write, exiting, over, Parent, closing, waiting, reading, finishing,
  returned, Fork, end_child, child_step, become, waitpid, wait_child, read_pipe, parent_step,
  kill_child, ForkStep, child_moves, parent_moves, child_dies, ForkSteps, stay, more, forked,
}

-- It holds of what a step gives, if there is one.
abbrev pub Gives : (Fork → Type 0) → Option Fork → Type 0
Gives P none = Unit
Gives P (some s) = P s

pub Gives-some : (P : Fork → Type 0) (o : Option Fork) (s : Fork) → Gives P o → o ≡ some s → P s
Gives-some P none s h e = absurd (cc)
Gives-some P (some t) s h e = let same : t ≡ s = cc in subst P same h

pub if-Gives :
    (P : Fork → Type 0) (b : Bool) (x y : Option Fork)
    → (b ≡ true → Gives P x)
    → (b ≡ false → Gives P y)
    → Gives P (if b then x else y)
if-Gives P true x y h k = h refl
if-Gives P false x y h k = k refl

module _ (a : Answers) (errno : ℕ) where
  -- What the child has done, before the parent has read: by where the child is.
  abbrev pub ChildSound : Child → List ℕ → (child_write : Bool) → Type 0
  ChildSound closing_read buffer w = buffer ≡ []
  ChildSound executing buffer w = buffer ≡ []
  ChildSound (running st) buffer w = (a.exec ≡ replaced st) × (buffer ≡ [])
  ChildSound (writing e) buffer w = (a.exec ≡ refused e) × (buffer ≡ [])
  ChildSound closing_write buffer w = (e : ℕ) × (a.exec ≡ refused e) × (buffer ≡ e ∷ [])
  ChildSound exiting buffer w = (e : ℕ) × (a.exec ≡ refused e) × (buffer ≡ e ∷ [])
  ChildSound (over signaled) buffer w = w ≡ false
  ChildSound (over (exited c)) buffer w =
      (w ≡ false)
      × (((a.exec ≡ replaced (exited c)) × (buffer ≡ []))
          ⊎ ((e : ℕ) × (a.exec ≡ refused e) × (buffer ≡ e ∷ [])))

  -- Why the parent returns `r`, with `err` in its `errno`, if the child is at `c`.
  pub data Reason (c : Child) (r : ℤ) (err : ℕ) : Type 0 where
    wait_failed : a.wait ≡ some err → r ≡ negsuc 0 → Reason c r err
    program_ended :
        (code : ℕ)
        → a.exec ≡ replaced (exited code)
        → c ≡ over (exited code)
        → r ≡ pos code
        → err ≡ errno
        → Reason c r err
    not_replaced :
        a.exec ≡ refused err → (code : ℕ) × (c ≡ over (exited code)) → r ≡ negsuc 0 → Reason c r err
    child_killed : c ≡ over signaled → r ≡ negsuc 0 → err ≡ a.canceled → Reason c r err
    read_failed : a.read_works ≡ false → r ≡ negsuc 0 → err ≡ a.canceled → Reason c r err

  -- By where the parent is.
  abbrev pub ParentSound : Parent → Fork → Type 0
  ParentSound closing s = (s.errno ≡ errno) × ChildSound s.child s.buffer s.child_write
  ParentSound waiting s =
      (s.errno ≡ errno) × (s.parent_write ≡ false) × ChildSound s.child s.buffer s.child_write
  ParentSound (reading c) s =
      (s.errno ≡ errno)
      × (s.parent_write ≡ false)
      × (s.child ≡ over (exited c))
      × ChildSound (over (exited c)) s.buffer s.child_write
  ParentSound (finishing r) s = (s.parent_write ≡ false) × Reason s.child r s.errno
  ParentSound (returned r) s =
      (s.parent_write ≡ false) × (s.parent_read ≡ false) × Reason s.child r s.errno

  abbrev pub Sound : Fork → Type 0
  Sound s = ParentSound s.parent s

  -- What the parent knows stays when the child, which has not ended, changes.
  Reason-moves :
      (c c' : Child) (r : ℤ) (err : ℕ)
      → ((st : Status) → c ≢ over st)
      → Reason c r err
      → Reason c' r err
  Reason-moves c c' r err alive (wait_failed e z) = wait_failed e z
  Reason-moves c c' r err alive (program_ended code e z1 z2 z3) = absurd (alive (exited code) z1)
  Reason-moves c c' r err alive (not_replaced e z1 z2) = absurd (alive (exited z1.0) z1.1)
  Reason-moves c c' r err alive (child_killed z1 z2 z3) = absurd (alive signaled z1)
  Reason-moves c c' r err alive (read_failed z1 z2 z3) = read_failed z1 z2 z3

  abbrev pub Alive : Child → Type 0
  Alive c = (st : Status) → c ≢ over st

  -- A step of the child, which stands at `c` and has not ended.
  child_moves-Sound :
      (p : Parent) (c : Child) (s s' : Fork)
      → Alive c
      → s.child ≡ c
      → s'.errno ≡ s.errno
      → s'.parent_write ≡ s.parent_write
      → s'.parent_read ≡ s.parent_read
      → (ChildSound c s.buffer s.child_write → ChildSound s'.child s'.buffer s'.child_write)
      → ParentSound p s
      → ParentSound p s'
  child_moves-Sound closing c s s' alive at e w r move h =
      (e ∙ h.0, move (subst (λ z. ChildSound z s.buffer s.child_write) at h.1))
  child_moves-Sound waiting c s s' alive at e w r move h =
      (e ∙ h.0, w ∙ h.1, move (subst (λ z. ChildSound z s.buffer s.child_write) at h.2))
  child_moves-Sound (reading k) c s s' alive at e w r move h =
      absurd (alive (exited k) (sym at ∙ h.2))
  child_moves-Sound (finishing z) c s s' alive at e w r move h = (
    w ∙ h.0,
    subst (Reason s'.child z) (sym e)
        (Reason-moves s.child s'.child z s.errno (λ st k. alive st (sym at ∙ k)) h.1),
  )
  child_moves-Sound (returned z) c s s' alive at e w r move h = (
    w ∙ h.0,
    r ∙ h.1,
    subst (Reason s'.child z) (sym e)
        (Reason-moves s.child s'.child z s.errno (λ st k. alive st (sym at ∙ k)) h.2),
  )

  ends_signaled :
      (c : Child) (s : Fork) → Alive c → s.child ≡ c → Sound s → Sound (end_child signaled s)
  ends_signaled c s alive at h =
      child_moves-Sound s.parent c s (end_child signaled s) alive at refl refl refl (λ k. refl) h

  become-Sound :
      (x : Exec) (s : Fork) → a.exec ≡ x → s.child ≡ executing → Sound s → Gives Sound (become x s)
  become-Sound (replaced st) s e at h =
      child_moves-Sound s.parent executing s
        (record s { child = running st; child_read = false; child_write = false })
        (λ st k. absurd (cc)) at refl refl refl (λ k. (e, k)) h
  become-Sound (refused err) s e at h =
      child_moves-Sound s.parent executing s (record s { child = writing err })
        (λ st k. absurd (cc)) at refl refl refl (λ k. (e, k)) h

  child_step-Sound : (c : Child) (s : Fork) → s.child ≡ c → Sound s → Gives Sound (child_step a c s)
  unfolding child_step
  child_step-Sound closing_read s at h =
      child_moves-Sound s.parent closing_read s _ (λ st k. absurd (cc)) at refl refl refl (λ k. k) h
  child_step-Sound executing s at h = become-Sound a.exec s refl at h
  child_step-Sound (running signaled) s at h =
      ends_signaled (running signaled) s (λ st k. absurd (cc)) at h
  child_step-Sound (running (exited code)) s at h =
      child_moves-Sound s.parent (running (exited code)) s (end_child (exited code) s)
        (λ st k. absurd (cc)) at refl refl refl (λ k. (refl, inl k)) h
  child_step-Sound (writing e) s at h = elim (Bool-cases (s.parent_read || s.child_read)) [
    | inl z ↦ rw z (
        child_moves-Sound s.parent (writing e) s
          (record s { child = closing_write; buffer = s.buffer ++ e ∷ [] }) (λ st k. absurd (cc)) at
          refl refl refl (λ k. (e, k.0, ap (λ (l : List ℕ). l ++ e ∷ []) k.1)) h)
    | inr z ↦ rw z (ends_signaled (writing e) s (λ st k. absurd (cc)) at h)
  ]
  child_step-Sound closing_write s at h =
      child_moves-Sound s.parent closing_write s _ (λ st k. absurd (cc)) at refl refl refl (λ k. k)
        h
  child_step-Sound exiting s at h =
      child_moves-Sound s.parent exiting s _ (λ st k. absurd (cc)) at refl refl refl
        (λ k. (refl, inr k)) h
  child_step-Sound (over st) s at h = tt

  kill_child-Sound : (c : Child) (s : Fork) → s.child ≡ c → Sound s → Gives Sound (kill_child c s)
  unfolding kill_child
  kill_child-Sound closing_read s at h = ends_signaled closing_read s (λ st k. absurd (cc)) at h
  kill_child-Sound executing s at h = ends_signaled executing s (λ st k. absurd (cc)) at h
  kill_child-Sound (running st) s at h = ends_signaled (running st) s (λ st k. absurd (cc)) at h
  kill_child-Sound (writing e) s at h = ends_signaled (writing e) s (λ st k. absurd (cc)) at h
  kill_child-Sound closing_write s at h = ends_signaled closing_write s (λ st k. absurd (cc)) at h
  kill_child-Sound exiting s at h = ends_signaled exiting s (λ st k. absurd (cc)) at h
  kill_child-Sound (over st) s at h = tt

  wait_child-Sound :
      (c : Child) (s : Fork)
      → s.child ≡ c
      → s.errno ≡ errno
      → s.parent_write ≡ false
      → ChildSound c s.buffer s.child_write
      → Gives Sound (wait_child a c s)
  wait_child-Sound closing_read s at e w h = tt
  wait_child-Sound executing s at e w h = tt
  wait_child-Sound (running st) s at e w h = tt
  wait_child-Sound (writing k) s at e w h = tt
  wait_child-Sound closing_write s at e w h = tt
  wait_child-Sound exiting s at e w h = tt
  wait_child-Sound (over signaled) s at e w h = (w, child_killed at refl refl)
  wait_child-Sound (over (exited c)) s at e w h = (e, w, at, h)

  waitpid-Sound :
      (o : Option ℕ) (s : Fork) → a.wait ≡ o → ParentSound waiting s → Gives Sound (waitpid o a s)
  waitpid-Sound none s e h = wait_child-Sound s.child s refl h.0 h.1 h.2
  waitpid-Sound (some err) s e h = (h.1, wait_failed e refl)

  read_pipe-Sound :
      (c : ℕ) (buffer : List ℕ) (s : Fork)
      → s.child ≡ over (exited c)
      → s.errno ≡ errno
      → s.parent_write ≡ false
      → ChildSound (over (exited c)) buffer s.child_write
      → Gives Sound (read_pipe c buffer s)
  read_pipe-Sound c [] s at e w (closed, inl (ran, empty)) =
      let shut : (s.parent_write || s.child_write) ≡ false = rw (w, closed) refl in
      rw shut (w, program_ended c ran at refl e)
  read_pipe-Sound c [] s at e w (closed, inr (k, failed, empty)) = absurd (cc)
  read_pipe-Sound c (x ∷ xs) s at e w (closed, inl (ran, empty)) = absurd (cc)
  read_pipe-Sound c (x ∷ xs) s at e w (closed, inr (k, failed, full)) =
      let same : k ≡ x = cc in (w, not_replaced (failed ∙ ap refused same) (c, at) refl)

  parent_step-Sound : (p : Parent) (s : Fork) → ParentSound p s → Gives Sound (parent_step a p s)
  unfolding parent_step
  parent_step-Sound closing s h = (h.0, refl, h.1)
  parent_step-Sound waiting s h = waitpid-Sound a.wait s refl h
  parent_step-Sound (reading c) s h =
      if-Gives Sound a.read_works (read_pipe c s.buffer s) _
        (λ e. read_pipe-Sound c s.buffer s h.2 h.0 h.1 h.3) (λ e. (h.1, read_failed e refl refl))
  parent_step-Sound (finishing r) s h = (h.0, refl, h.1)
  parent_step-Sound (returned r) s h = tt

  ForkStep-Sound : (s s' : Fork) → Sound s → ForkStep a s s' → Sound s'
  ForkStep-Sound s s' h (child_moves e) =
      Gives-some Sound _ s' (child_step-Sound s.child s refl h) e
  ForkStep-Sound s s' h (parent_moves e) = Gives-some Sound _ s' (parent_step-Sound s.parent s h) e
  ForkStep-Sound s s' h (child_dies e) = Gives-some Sound _ s' (kill_child-Sound s.child s refl h) e

  pub ForkSteps-Sound : (s s' : Fork) (n : ℕ) → Sound s → ForkSteps a s n s' → Sound s'
  ForkSteps-Sound s s' n h stay = h
  ForkSteps-Sound s s' n h (more {n = m} {u = u} steps step) =
      ForkStep-Sound u s' (ForkSteps-Sound s u m h steps) step

  pub forked-Sound : Sound (forked errno)
  forked-Sound = (refl, refl)
