-- ===== src/Base/Updates.antt =====
-- Arrays and maps as functions, changed at one index.
use Prim.Native.Nat.{ℕ}
use mathlib.Core.Path.{◌≡◌, sym, subst}
use mathlib.Core.Logic.{◌≢◌, inl, inr}
use sty_linux.Base.Tests.{◌==◌, if◌then◌else◌, Bool-cases, ==→eq, ==→ne, ==_self, ne→==}

module _ {ℓ} {A : Type ℓ} where
  abbrev pub update : (ℕ → A) → ℕ → A → ℕ → A
  update f k v x = if x == k then v else f x

  pub update_self : (f : ℕ → A) (k : ℕ) (v : A) → update f k v k ≡ v
  update_self f k v = rw (==_self k)

  pub update_other : (f : ℕ → A) (k : ℕ) (v : A) (x : ℕ) → x ≢ k → update f k v x ≡ f x
  update_other f k v x ne = rw (ne→== x k ne)

  -- What holds of the new value, and of the others, holds everywhere.
  pub update-All {κ} :
      (P : ℕ → A → Type κ) (f : ℕ → A) (k : ℕ) (v : A)
      → P k v
      → ((x : ℕ) → x ≢ k → P x (f x))
      → (x : ℕ) → P x (update f k v x)
  update-All P f k v new old x = elim (Bool-cases (x == k)) [
    | inl e ↦ rw e (subst (λ z. P z v) (sym (==→eq x k e)) new)
    | inr e ↦ rw e (old x (==→ne x k e))
  ]
