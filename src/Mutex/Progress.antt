-- ===== src/Mutex/Progress.antt =====
-- Which threads around one recursive mutex can go on.
use sty_linux.Base.{ℕ, zero, suc, ◌≡◌, ◌≢◌, refl, ◌⊎◌, inl, inr}
use sty_linux.Mutex.Guard.{Guarded-depth, Guarded-held}
use sty_linux.Mutex.Serial.{Reach-AllGuarded}
use sty_linux.Mutex.{
  Proc, ret, abort, lock, unlock, act, free, held, Holder-cases, World, Step, acts, takes, retakes,
  drops, releases, Reach, Guarded, AllGuarded,
}

module _ {S : Type 0} where
  -- Some thread makes a step, or one has failed an assertion.
  abbrev pub Goes : World S → Type 0
  Goes w = ((w' : World S) × Step w w') ⊎ ((x : ℕ) × (w.threads x ≡ abort))

  -- The thread that holds the mutex goes on.
  holder-Goes : (w : World S) (t d : ℕ) → AllGuarded w → w.holder ≡ held t d → Goes w
  holder-Goes w t d g eh = go (w.threads t) refl d eh (Guarded-held w t d g refl eh)
    where
      go :
          (p : Proc S)
          → w.threads t ≡ p
          → (d : ℕ) → w.holder ≡ held t d
          → Guarded (suc d) p
          → Goes w
      go (ret v) e d eh gd = absurd gd
      go abort e d eh gd = inr (t, e)
      go (lock p) e d eh gd = inl (_, retakes t d p e eh)
      go (unlock p) e zero eh gd = inl (_, releases t p e eh)
      go (unlock p) e (suc d) eh gd = inl (_, drops t d p e eh)
      go (act f k) e d eh gd = inl (_, acts t f k e)

  -- A thread that does not hold it takes the mutex when it is free.
  other-Goes :
      (w : World S) (t : ℕ)
      → AllGuarded w
      → w.holder ≡ free
      → ((v : ℕ) → w.threads t ≢ ret v)
      → Goes w
  other-Goes w t g eh busy = go (w.threads t) refl (Guarded-depth w t g refl eh)
    where
      go : (p : Proc S) → w.threads t ≡ p → Guarded 0 p → Goes w
      go (ret v) e gd = absurd (busy v e)
      go abort e gd = inr (t, e)
      go (lock p) e gd = inl (_, takes t p e eh)
      go (unlock p) e gd = absurd gd
      go (act f k) e gd = absurd gd

  -- In every world that guarded threads reach from one where the mutex is free, if some thread has not
  -- returned, a thread can make a step or an assertion has failed: there is no deadlock.
  pub Reach-Goes :
      {w v : World S} (t : ℕ)
      → w.holder ≡ free
      → AllGuarded w
      → Reach w v
      → ((n : ℕ) → v.threads t ≢ ret n)
      → Goes v
  Reach-Goes {w} {v} t eh g r busy = elim (Holder-cases v.holder) [
    | inl e ↦ other-Goes v t (Reach-AllGuarded g r) e busy
    | inr (u, d, e) ↦ holder-Goes v u d (Reach-AllGuarded g r) e
  ]
