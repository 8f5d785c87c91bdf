-- ===== src/Sieve/Rows.antt =====
-- The loops of malloc2.c that fill the table and go through the rows.
use sty_linux.Base.{
  ℕ, zero, suc, ◌+◌, ◌*◌, ◌≡◌, ◌≤◌, ◌<◌, refl, sym, ap, ◌∙◌, ◌==◌, ltb, leb, true, false, done,
  update, update_self, update_other, arith, Bool-cases, ==→eq, ==→ne, inl, inr, le→ltb, ltb→lt,
  ltb→le, leb→le, leb→lt, ne→==,
}
use native.Mathlib.Nat.{mul_assoc}
use sty_linux.Sieve.{int_max, fill, mark, sieve}
use sty_linux.Sieve.Marks.{
  Sieved, Sieved-change, Below, Row-start, mark-Sieved, sum-le, mul-le, mul-pos, square-lt,
}

pub fill-numbers :
    (f max i : ℕ) (p : ℕ → ℕ)
    → max + 2 < i + f
    → i ≤ max + 2
    → (p' : ℕ → ℕ) × (fill f max i p ≡ done p')
      × ((n : ℕ) → i ≤ n → n ≤ max → p' n ≡ n)
      × ((n : ℕ) → n < i → p' n ≡ p n)
unfolding fill
fill-numbers zero max i p fuel start = absurd (omega arith)
fill-numbers (suc f) max i p fuel start = elim (Bool-cases (leb i max)) [
  | inr e ↦ (p, rw e refl, (λ n low high. absurd (omega (arith, leb→lt i max e))), (λ n low. refl))
  | inl e ↦
      let inside = leb→le i max e in
      let (p', run, above, below) =
        fill-numbers f max (suc i) (update p i i) (omega arith) (omega arith) in
      (
        p',
        rw e run,
        (λ n low high. elim (Bool-cases (n == i)) [
          | inl z ↦
              let here = ==→eq n i z in
              below n (omega arith) ∙ ap (update p i i) here ∙ update_self p i i ∙ sym here
          | inr z ↦ let ne = ==→ne n i z in above n (omega arith) high
        ]),
        (λ n low. below n (omega arith) ∙ update_other p i i n (λ z. omega arith)),
      )
]

-- No multiple of `i` is new where `i` is marked itself.
skip_row :
    (max i : ℕ) (p : ℕ → ℕ)
    → 2 ≤ i
    → i ≤ max
    → p i ≡ 0
    → Sieved max (Below i) p
    → Sieved max (Below (suc i)) p
skip_row max i p two inside gone h =
    Sieved-change max (Below i) (Below (suc i)) p
      (λ d k c le. (d, k, (c.0, omega arith, c.2), refl)) from h
  where
    factors : (d : ℕ) × (k : ℕ) × Below i d k × (d * k ≡ i)
    factors = elim (h i two inside) [
      | inl (stands, _) ↦ absurd (omega arith)
      | inr (_, a, b, c, z) ↦ (a, b, c, z)
    ]

    from :
        (d k : ℕ)
        → Below (suc i) d k
        → d * k ≤ max
        → (d' : ℕ) × (k' : ℕ) × Below i d' k' × (d' * k' ≡ d * k)
    from d k c le = elim (Bool-cases (d == i)) [
      | inl e ↦
          let same = ==→eq d i e in
          let (a, b, low, product) = factors in
          (
            a,
            b * k,
            (low.0, low.1, mul-pos b k low.2 c.2),
            sym (mul_assoc a b k) ∙ ap (λ (z : ℕ). z * k) (product ∙ sym same),
          )
      | inr e ↦ let ne = ==→ne d i e in (d, k, (c.0, omega arith, c.2), refl)
    ]

suc-square : (i : ℕ) → suc i * suc i ≡ i * i + i + i + 1
suc-square i = grind arith

-- A test of the outer loop that is right, and the rounds behind it.
sieve_skip :
    (rounds f max i : ℕ) (p p' : ℕ → ℕ)
    → ltb int_max (i * i) ≡ false
    → leb (i * i) max ≡ true
    → (p i == 0) ≡ true
    → sieve rounds f max (suc i) p ≡ done p'
    → sieve rounds (suc f) max i p ≡ done p'
unfolding sieve
sieve_skip rounds f max i p p' fits inside gone run = rw (fits, inside, gone) run

sieve-mark :
    (rounds f max i : ℕ) (p p1 p' : ℕ → ℕ)
    → ltb int_max (i * i) ≡ false
    → leb (i * i) max ≡ true
    → (p i == 0) ≡ false
    → mark rounds max i 2 p ≡ done p1
    → sieve rounds f max (suc i) p1 ≡ done p'
    → sieve rounds (suc f) max i p ≡ done p'
unfolding sieve
sieve-mark rounds f max i p p1 p' fits inside stands marked run =
    rw (fits, inside, stands, marked) run

-- A number up to `max` whose square is beyond it.
small_root : (i max : ℕ) → i * i ≤ max → max + 100000 ≤ int_max → i < 46341
small_root i max le small = elim (Bool-cases (ltb i 46341)) [
  | inl e ↦ ltb→lt i 46341 e
  | inr e ↦ absurd (omega (arith, square-lt 46341 i (ltb→le i 46341 e)))
]

pub sieve-Sieved :
    (rounds f max i : ℕ) (p : ℕ → ℕ)
    → max < 2 + rounds
    → max + 100000 ≤ int_max
    → 2 ≤ i
    → max + 2 < i + f
    → i ≤ max + 2
    → i * i ≤ int_max
    → Sieved max (Below i) p
    → (p' : ℕ → ℕ) × (j : ℕ) × (sieve rounds f max i p ≡ done p')
      × Sieved max (Below j) p'
      × (max < j * j)
unfolding sieve
sieve-Sieved rounds zero max i p enough small two fuel start square h = absurd (omega arith)
sieve-Sieved rounds (suc f) max i p enough small two fuel start square h =
    let fits = le→ltb int_max (i * i) square in
    elim (Bool-cases (leb (i * i) max)) [
      | inr e ↦ (p, i, rw (fits, e) refl, h, leb→lt (i * i) max e)
      | inl e ↦
          let inside = leb→le (i * i) max e in
          let root = small_root i max inside small in
          let next : i < max = omega (arith, sum-le i i two two) in
          let square' : suc i * suc i ≤ int_max = omega (arith, suc-square i) in
          let go = λ (p1 : ℕ → ℕ) (h1 : Sieved max (Below (suc i)) p1).
            sieve-Sieved rounds f max (suc i) p1 enough small (omega arith) (omega arith)
              (omega arith) square' h1 in
          elim (h i two (omega arith)) [
            | inr (gone, _, _, _, _) ↦
                let (p', j, run, h', far) = go p (skip_row max i p two (omega arith) gone h) in
                (p', j, sieve_skip rounds f max i p p' fits e (ap (λ z. z == 0) gone) run, h', far)
            | inl (stands, _) ↦
                let (p1, marked, h1) =
                  mark-Sieved rounds max i 2 p two (omega arith) (omega (arith, mul-le i 2 i two))
                    (omega arith) (omega arith) stands (Row-start max i p h) in
                let (p', j, run, h', far) = go p1 h1 in
                (
                  p',
                  j,
                  sieve-mark rounds f max i p p1 p' fits e (ne→== (p i) 0 (λ z. omega arith)) marked
                      run,
                  h',
                  far,
                )
          ]
    ]
