-- ===== src/Mutex.antt =====
-- Threads around one recursive mutex, as the allocator of
-- STY25/vika9/assignment09-templates-1/p1/malloc.c uses `pthread_mutex_t` with
-- PTHREAD_MUTEX_RECURSIVE. A thread is what it still has to do; any thread that can go on makes the
-- next step. The state `S` that the threads share is a parameter.
pub mod Guard
pub mod Serial
pub mod Progress
use sty_linux.Base.{ℕ, zero, suc, ◌≡◌, ◌==◌, if◌then◌else◌, update, ◌⊎◌, inl, inr, refl}

-- What a thread still does: it returns, an assertion has failed, it locks or unlocks, or it reads and
-- changes the shared state in one step and goes on by what it has read.
pub data Proc (S : Type 0) : Type 0 where
  ret : ℕ → Proc S
  abort : Proc S
  lock : Proc S → Proc S
  unlock : Proc S → Proc S
  act : (S → S) → (S → Proc S) → Proc S

-- The mutex: `held t d` if thread `t` has locked it `d + 1` times more than it has unlocked it.
pub data Holder : Type 0 where
  free : Holder
  held : (t d : ℕ) → Holder

pub record World (S : Type 0) : Type 0 where
  pub shared : S
  pub holder : Holder
  pub threads : ℕ → Proc S

-- How often thread `t` holds the mutex.
abbrev pub depth : ℕ → Holder → ℕ
depth t free = 0
depth t (held u d) = if t == u then suc d else 0

pub Holder-cases : (h : Holder) → (h ≡ free) ⊎ ((t : ℕ) × (d : ℕ) × (h ≡ held t d))
Holder-cases free = inl refl
Holder-cases (held t d) = inr (t, d, refl)

module _ {S : Type 0} where
  -- A thread that does not find the mutex free, or its own, cannot go on.
  pub data Step (w : World S) : World S → Type 0 where
    acts :
        (t : ℕ) (f : S → S) (k : S → Proc S)
        → w.threads t ≡ act f k
        → Step w (record w { shared = f w.shared; threads = update w.threads t (k w.shared) })
    takes :
        (t : ℕ) (p : Proc S)
        → w.threads t ≡ lock p
        → w.holder ≡ free
        → Step w (record w { holder = held t 0; threads = update w.threads t p })
    retakes :
        (t d : ℕ) (p : Proc S)
        → w.threads t ≡ lock p
        → w.holder ≡ held t d
        → Step w (record w { holder = held t (suc d); threads = update w.threads t p })
    drops :
        (t d : ℕ) (p : Proc S)
        → w.threads t ≡ unlock p
        → w.holder ≡ held t (suc d)
        → Step w (record w { holder = held t d; threads = update w.threads t p })
    releases :
        (t : ℕ) (p : Proc S)
        → w.threads t ≡ unlock p
        → w.holder ≡ held t 0
        → Step w (record w { holder = free; threads = update w.threads t p })

  pub data Reach (w : World S) : World S → Type 0 where
    here : Reach w w
    next : {v u : World S} → Reach w v → Step v u → Reach w u

  -- The thread alone, from a state in which it holds the mutex so often, until it has released it.
  abbrev pub until_free : ℕ → Proc S → S → Proc S × S
  until_free zero p s = (p, s)
  until_free (suc d) (ret v) s = (ret v, s)
  until_free (suc d) abort s = (abort, s)
  until_free (suc d) (lock p) s = until_free (suc (suc d)) p s
  until_free (suc d) (unlock p) s = until_free d p s
  until_free (suc d) (act f k) s = until_free (suc d) (k s) (f s)

  -- Every access is under the mutex, and each lock has its unlock.
  abbrev pub Guarded : ℕ → Proc S → Type 0
  Guarded zero (ret v) = Unit
  Guarded (suc d) (ret v) = ⊥
  Guarded d abort = Unit
  Guarded d (lock p) = Guarded (suc d) p
  Guarded zero (unlock p) = ⊥
  Guarded (suc d) (unlock p) = Guarded d p
  Guarded zero (act f k) = ⊥
  Guarded (suc d) (act f k) = (s : S) → Guarded (suc d) (k s)

  abbrev pub AllGuarded : World S → Type 0
  AllGuarded w = (t : ℕ) → Guarded (depth t w.holder) (w.threads t)
