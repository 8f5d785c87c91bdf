-- ===== src/Base/Runs.antt =====
-- The outcome of C code: it is done, it faults (a NULL is read through, an assertion fails), or a
-- loop has used up the rounds that the model gives it.

use mathlib.Core.Path.{◌≡◌, refl}

pub data Run {ℓ} (A : Type ℓ) : Type ℓ where
  done : A → Run A
  fault : Run A
  out_of_fuel : Run A

infixl 5 ◌>>=◌
abbrev pub ◌>>=◌ {ℓ κ} : {A : Type ℓ} {B : Type κ} → Run A → (A → Run B) → Run B
done a >>= k = k a
fault >>= k = fault
out_of_fuel >>= k = out_of_fuel

pub done-injective {ℓ} : {A : Type ℓ} (a b : A) → done a ≡ done b → a ≡ b
done-injective a b e = cc

-- A chain that ends well has a first part that does.
pub >>=-done {ℓ κ} :
    {A : Type ℓ} {B : Type κ} (m : Run A) (k : A → Run B) (b : B)
    → (m >>= k) ≡ done b
    → (a : A) × (m ≡ done a) × (k a ≡ done b)
>>=-done (done a) k b e = (a, refl, e)
>>=-done fault k b e = absurd (cc)
>>=-done out_of_fuel k b e = absurd (cc)
