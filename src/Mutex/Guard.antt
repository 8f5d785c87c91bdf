-- ===== src/Mutex/Guard.antt =====
-- Guarded threads, which touch the shared state under the mutex only, and the steps.
use sty_linux.Base.{
  ℕ, suc, ◌≡◌, ◌≢◌, refl, sym, ap, ◌∙◌, ◌==◌, if◌then◌else◌, Bool-cases, inl, inr, ==→eq, ==_self,
  ne→==, update, update-All,
}
use mathlib.Core.Path.{subst}
use sty_linux.Mutex.{
  Proc, act, Holder, held, Holder-cases, World, depth, Step, acts, takes, retakes, drops, releases,
  Guarded, AllGuarded,
}

other_depth : (t d x : ℕ) → x ≢ t → depth x (held t d) ≡ 0
other_depth t d x ne = ap (λ b. if b then suc d else 0) (ne→== x t ne)

own_depth : (t d : ℕ) → depth t (held t d) ≡ suc d
own_depth t d = ap (λ b. if b then suc d else 0) (==_self t)

module _ {S : Type 0} where
  -- What a guarded thread does next, at the depth of its mutex.
  pub Guarded-depth :
      (w : World S) (t : ℕ) {p : Proc S} {h : Holder}
      → AllGuarded w
      → w.threads t ≡ p
      → w.holder ≡ h
      → Guarded (depth t h) p
  Guarded-depth w t {p} g e eh =
      subst (λ z. Guarded (depth t z) p) eh (subst (Guarded (depth t w.holder)) e (g t))

  pub Guarded-held :
      (w : World S) (t d : ℕ) {p : Proc S}
      → AllGuarded w
      → w.threads t ≡ p
      → w.holder ≡ held t d
      → Guarded (suc d) p
  Guarded-held w t d {p} g e eh =
      subst (λ b. Guarded (if b then suc d else 0) p) (==_self t) (Guarded-depth w t g e eh)

  -- The thread that is under way holds the mutex.
  pub acting-held :
      (w : World S) (t : ℕ) (f : S → S) (k : S → Proc S)
      → AllGuarded w
      → w.threads t ≡ act f k
      → (d : ℕ) × (w.holder ≡ held t d)
  acting-held w t f k g e = elim (Holder-cases w.holder) [
    | inl eh ↦ absurd (Guarded-depth w t g e eh)
    | inr (u, d, eh) ↦ elim (Bool-cases (t == u)) [
      | inl same ↦ (d, eh ∙ ap (λ z. held z d) (sym (==→eq t u same)))
      | inr other ↦
          absurd (
            subst (λ b. Guarded (if b then suc d else 0) (act f k)) other
              (Guarded-depth w t g e eh))
    ]
  ]

  -- One thread changes, and the others do not hold the mutex any more or less than before.
  kept :
      (w w' : World S) (t d : ℕ) (q : Proc S)
      → AllGuarded w
      → ((x : ℕ) → x ≢ t → depth x w'.holder ≡ depth x w.holder)
      → w'.threads ≡ update w.threads t q
      → depth t w'.holder ≡ d
      → Guarded d q
      → AllGuarded w'
  kept w w' t d q g others eq at new x =
      subst (λ f. Guarded (depth x w'.holder) (f x)) (sym eq)
        (update-All (λ y a. Guarded (depth y w'.holder) a) w.threads t q
          (subst (λ z. Guarded z q) (sym at) new)
          (λ y ne. subst (λ z. Guarded z (w.threads y)) (sym (others y ne)) (g y)) x)

  pub Step-AllGuarded : {w w' : World S} → AllGuarded w → Step w w' → AllGuarded w'
  Step-AllGuarded {w} {w'} g (acts t f k e) =
      let (d, eh) = acting-held w t f k g e in
      kept w w' t (suc d) (k w.shared) g (λ x ne. refl) refl (ap (depth t) eh ∙ own_depth t d)
        (Guarded-held w t d g e eh w.shared)
  Step-AllGuarded {w} {w'} g (takes t p e eh) =
      kept w w' t 1 p g (λ x ne. other_depth t 0 x ne ∙ sym (ap (depth x) eh)) refl (own_depth t 0)
        (Guarded-depth w t g e eh)
  Step-AllGuarded {w} {w'} g (retakes t d p e eh) =
      kept w w' t (suc (suc d)) p g
        (λ x ne. other_depth t (suc d) x ne ∙ sym (other_depth t d x ne) ∙ sym (ap (depth x) eh))
        refl (own_depth t (suc d)) (Guarded-held w t d g e eh)
  Step-AllGuarded {w} {w'} g (drops t d p e eh) =
      kept w w' t (suc d) p g
        (λ x ne. other_depth t d x ne ∙ sym (other_depth t (suc d) x ne) ∙ sym (ap (depth x) eh))
        refl (own_depth t d) (Guarded-held w t (suc d) g e eh)
  Step-AllGuarded {w} {w'} g (releases t p e eh) =
      kept w w' t 0 p g (λ x ne. sym (other_depth t 0 x ne) ∙ sym (ap (depth x) eh)) refl refl
        (Guarded-held w t 0 g e eh)
