-- ===== src/Mutex/Serial.antt =====
-- Interleavings, and critical sections that run alone.
use sty_linux.Base.{
  ℕ, suc, ◌≡◌, ◌≢◌, refl, sym, ap, ◌∙◌, ◌==◌, Bool-cases, inl, inr, ==→eq, update, update_self,
  update_other, arith,
}
use mathlib.Core.Path.{subst, fun_ext}
use sty_linux.Mutex.Guard.{acting-held, Step-AllGuarded}
use sty_linux.Mutex.{
  Proc, abort, lock, unlock, act, Holder, free, held, Holder-cases, World, Step, acts, takes,
  retakes, drops, releases, Reach, here, next, until_free, AllGuarded,
}

module _ {S : Type 0} where
  -- The world once thread `t` has come to the end of its critical section.
  abbrev complete : ℕ → (ℕ → Proc S) → Proc S × S → World S
  complete t threads r = record { shared = r.1; holder = free; threads = update threads t r.0 }

  abbrev finish_at : Holder → World S → World S
  finish_at free w = w
  finish_at (held t d) w = complete t w.threads (until_free (suc d) (w.threads t) w.shared)

  -- The world once the thread that holds the mutex has released it, the others at rest.
  abbrev pub finish : World S → World S
  finish w = finish_at w.holder w

  -- Thread `t` takes the free mutex, and goes on alone with `p` until it releases it.
  abbrev pub section_end : World S → ℕ → Proc S → World S
  section_end w t p = finish (record w { holder = held t 0; threads = update w.threads t p })

  -- A whole critical section.
  pub data Section (w : World S) : World S → Type 0 where
    section :
        (t : ℕ) (p : Proc S)
        → w.holder ≡ free
        → w.threads t ≡ lock p
        → Section w (section_end w t p)

  pub data Sections (w : World S) : World S → Type 0 where
    none_yet : Sections w w
    then_one : {v u : World S} → Sections w v → Section v u → Sections w u

  update_twice : (f : ℕ → Proc S) (t : ℕ) (a b : Proc S) → update (update f t a) t b ≡ update f t b
  update_twice f t a b = fun_ext (λ x. ground arith)

  -- A step inside the critical section does not change where it ends.
  finish-inside :
      (w w' : World S) (t d d' : ℕ) (p q : Proc S)
      → w.holder ≡ held t d
      → w.threads t ≡ p
      → w'.holder ≡ held t d'
      → w'.threads ≡ update w.threads t q
      → until_free (suc d') q w'.shared ≡ until_free (suc d) p w.shared
      → finish w' ≡ finish w
  finish-inside w w' t d d' p q e ep e' eq same =
      ap (λ h. finish_at h w') e'
      ∙ ap (λ f. complete t f (until_free (suc d') (f t) w'.shared)) eq
      ∙ ap (λ x. complete t (update w.threads t q) (until_free (suc d') x w'.shared))
          (update_self w.threads t q)
      ∙ ap (λ r. complete t (update w.threads t q) r) same
      ∙ ap (λ f. record { shared = (until_free (suc d) p w.shared).1; holder = free; threads = f })
          (update_twice w.threads t q (until_free (suc d) p w.shared).0)
      ∙ ap (λ x. complete t w.threads (until_free (suc d) x w.shared)) (sym ep)
      ∙ ap (λ h. finish_at h w) (sym e)

  -- A step is inside a critical section, or it starts one.
  Step-Sections :
      (w : World S) {v u : World S}
      → AllGuarded v
      → Sections w (finish v)
      → Step v u
      → Sections w (finish u)
  Step-Sections w {v} {u} g r (acts t f k e) =
      let (d, eh) = acting-held v t f k g e in
      subst (Sections w) (sym (finish-inside v u t d d (act f k) (k v.shared) eh e eh refl refl)) r
  Step-Sections w {v} {u} g r (takes t p e eh) =
      then_one (subst (Sections w) (ap (λ h. finish_at h v) eh) r) (section t p eh e)
  Step-Sections w {v} {u} g r (retakes t d p e eh) =
      subst (Sections w) (sym (finish-inside v u t d (suc d) (lock p) p eh e refl refl refl)) r
  Step-Sections w {v} {u} g r (drops t d p e eh) =
      subst (Sections w) (sym (finish-inside v u t (suc d) d (unlock p) p eh e refl refl refl)) r
  Step-Sections w {v} {u} g r (releases t p e eh) =
      subst (Sections w)
        (ap (λ h. finish_at h v) eh ∙ ap (λ x. complete t v.threads (until_free 1 x v.shared)) e) r

  pub Reach-AllGuarded : {w v : World S} → AllGuarded w → Reach w v → AllGuarded v
  Reach-AllGuarded g here = g
  Reach-AllGuarded g (next r s) = Step-AllGuarded (Reach-AllGuarded g r) s

  -- Whatever the threads interleave from a world where the mutex is free and all are guarded, the world
  -- that is left when the critical section under way ends is reached by whole critical sections, one
  -- after another. If the mutex is free this is the world itself.
  pub Reach-Sections :
      {w v : World S}
      → w.holder ≡ free
      → AllGuarded w
      → Reach w v
      → Sections w (finish v) × (v.holder ≡ free → finish v ≡ v)
  Reach-Sections {w} {v} eh g r = (go r, λ e. ap (λ h. finish_at h v) e)
    where
      go : {u : World S} → Reach w u → Sections w (finish u)
      go here = subst (Sections w) (sym (ap (λ h. finish_at h w) eh)) none_yet
      go (next r' s) = Step-Sections w (Reach-AllGuarded g r') (go r') s

  -- Between two moments when the mutex is free, thread `t` has come to `q` and left the shared state `s`,
  -- and no other thread has done anything.
  pub record Ran (w : World S) (t : ℕ) (q : Proc S) (s : S) (v : World S) : Type 0 where
    pub free_again : v.holder ≡ free
    pub left : v.shared ≡ s
    pub goes_on : v.threads t ≡ q
    pub others : (u : ℕ) → u ≢ t → v.threads u ≡ w.threads u

  -- What a thread does in one critical section is what it does alone.
  pub section-Ran :
      (w : World S) (t : ℕ) (p q : Proc S) (s : S)
      → until_free 1 p w.shared ≡ (q, s)
      → Ran w t q s (section_end w t p)
  section-Ran w t p q s runs =
      let threads = update w.threads t p in
      let own : until_free 1 (threads t) w.shared ≡ (q, s) =
        ap (λ x. until_free 1 x w.shared) (update_self w.threads t p) ∙ runs in
      record {
        free_again = refl;
        left = ap (λ r. r.1) own;
        goes_on = update_self threads t (until_free 1 (threads t) w.shared).0 ∙ ap (λ r. r.0) own;
        others = λ u ne.
            update_other threads t (until_free 1 (threads t) w.shared).0 u ne
            ∙ update_other w.threads t p u ne;
      }

  -- A thread whose assertion has failed stays as it is.
  pub finish-abort : (w : World S) (x : ℕ) → w.threads x ≡ abort → (finish w).threads x ≡ abort
  finish-abort w x e = elim (Holder-cases w.holder) [
    | inl eh ↦ subst (λ h. (finish_at h w).threads x ≡ abort) (sym eh) e
    | inr (t, d, eh) ↦
        subst (λ h. (finish_at h w).threads x ≡ abort) (sym eh)
          (elim (Bool-cases (x == t)) [
            | inr other ↦ rw other e
            | inl same ↦ rw same (
                ap (λ p. (until_free (suc d) p w.shared).0)
                  (ap w.threads (sym (==→eq x t same)) ∙ e))
          ])
  ]
