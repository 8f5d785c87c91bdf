-- ===== src/Sieve/Marks.antt =====
-- What the loops of malloc2.c mark.
use sty_linux.Base.{
  ℕ, zero, suc, ◌+◌, ◌*◌, ◌≡◌, ◌≢◌, ◌≤◌, ◌<◌, ◌⊎◌, refl, sym, ap, ◌∙◌, ◌==◌, ltb, true, false, done,
  update, update_self, update_other, arith, Bool-cases, ==→eq, ==→ne, inl, inr, le→ltb, ltb→lt,
  ltb→le,
}
use sty_linux.Sieve.{int_max, mark}

mul-suc : (i j : ℕ) → i * suc j ≡ i * j + i
mul-suc i j = grind arith

pub mul-le : (i j k : ℕ) → j ≤ k → i * j ≤ i * k
mul-le i j k h = grind arith

pub square-lt : (i d : ℕ) → i ≤ d → i * i ≤ d * d
square-lt i d h = grind arith

pub two-le : (i j : ℕ) → 2 ≤ i → 2 ≤ j → i + i ≤ i * j
two-le i j h k = grind arith

pub sum-le : (i j : ℕ) → 2 ≤ i → 2 ≤ j → (i + j ≤ i * j) × (j + j ≤ i * j)
sum-le i j h k = (grind arith, grind arith)

pub mul-pos : (i j : ℕ) → 2 ≤ i → 2 ≤ j → 2 ≤ i * j
mul-pos i j h k = grind arith

-- The numbers up to `max` that are products of pairs of `C` are marked, and the others stand for themselves.
abbrev pub Sieved : (max : ℕ) → (ℕ → ℕ → Type 0) → (ℕ → ℕ) → Type 0
Sieved max C p =
    (n : ℕ)
    → 2 ≤ n
    → n ≤ max
    → ((p n ≡ n) × ((d k : ℕ) → C d k → d * k ≢ n))
      ⊎ ((p n ≡ 0) × (d : ℕ) × (k : ℕ) × C d k × (d * k ≡ n))

-- The multiples of the numbers below `i`.
abbrev pub Below : ℕ → ℕ → ℕ → Type 0
Below i d k = (2 ≤ d) × (d < i) × (2 ≤ k)

-- And the multiples of `i` by the numbers below `j`.
abbrev pub Row : ℕ → ℕ → ℕ → ℕ → Type 0
Row i j d k = Below i d k ⊎ ((d ≡ i) × (2 ≤ k) × (k < j))

-- The same products may come of other pairs.
pub Sieved-change :
    (max : ℕ) (C E : ℕ → ℕ → Type 0) (p : ℕ → ℕ)
    → ((d k : ℕ) → C d k → d * k ≤ max → (d' : ℕ) × (k' : ℕ) × E d' k' × (d' * k' ≡ d * k))
    → ((d k : ℕ) → E d k → d * k ≤ max → (d' : ℕ) × (k' : ℕ) × C d' k' × (d' * k' ≡ d * k))
    → Sieved max C p
    → Sieved max E p
Sieved-change max C E p to from h n low high = elim (h n low high) [
  | inl (stands, clear) ↦ inl (
    stands,
    λ d k e z. let (d', k', c, same) = from d k e (omega (arith, z)) in clear d' k' c (same ∙ z),
  )
  | inr (gone, d, k, c, z) ↦
      let (d', k', e, same) = to d k c (omega (arith, z)) in inr (gone, d', k', e, same ∙ z)
]

-- Before the first row of `i`.
pub Row-start : (max i : ℕ) (p : ℕ → ℕ) → Sieved max (Below i) p → Sieved max (Row i 2) p
Row-start max i p h =
    Sieved-change max (Below i) (Row i 2) p (λ d k c le. (d, k, inl c, refl)) back h
  where
    back :
        (d k : ℕ)
        → Row i 2 d k
        → d * k ≤ max
        → (d' : ℕ) × (k' : ℕ) × Below i d' k' × (d' * k' ≡ d * k)
    back d k (inl c) le = (d, k, c, refl)
    back d k (inr (_, low, high)) le = absurd (omega arith)

-- One number is marked.
Row-step :
    (max i j : ℕ) (p : ℕ → ℕ)
    → 2 ≤ j
    → Sieved max (Row i j) p
    → Sieved max (Row i (suc j)) (update p (i * j) 0)
Row-step max i j p two h n low high = elim (Bool-cases (n == i * j)) [
  | inl e ↦
      let here = ==→eq n (i * j) e in
      inr (
        ap (update p (i * j) 0) here ∙ update_self p (i * j) 0,
        i,
        j,
        inr (refl, two, omega arith),
        sym here,
      )
  | inr e ↦
      let other = ==→ne n (i * j) e in
      let kept = update_other p (i * j) 0 n other in
      elim (h n low high) [
        | inl (stands, clear) ↦ inl (kept ∙ stands, (λ d k c z. still clear other d k c z))
        | inr (gone, d, k, c, z) ↦ inr (kept ∙ gone, d, k, more d k c, z)
      ]
]
  where
    more : (d k : ℕ) → Row i j d k → Row i (suc j) d k
    more d k (inl c) = inl c
    more d k (inr (e, low, high)) = inr (e, low, omega arith)

    still :
        ((d k : ℕ) → Row i j d k → d * k ≢ n)
        → n ≢ i * j
        → (d k : ℕ) → Row i (suc j) d k
        → d * k ≢ n
    still clear other d k (inl c) z = clear d k (inl c) z
    still clear other d k (inr (e, two', high')) z = elim (Bool-cases (k == j)) [
      | inl same ↦ other (sym z ∙ (λ t. e t * ==→eq k j same t))
      | inr apart ↦ let ne = ==→ne k j apart in clear d k (inr (e, two', omega arith)) z
    ]

-- The row has reached all its numbers up to `max`.
Row-end :
    (max i j : ℕ) (p : ℕ → ℕ)
    → 2 ≤ i
    → (max ≤ j) ⊎ (max < i * j)
    → Sieved max (Row i j) p
    → Sieved max (Below (suc i)) p
Row-end max i j p two ends h = Sieved-change max (Row i j) (Below (suc i)) p to from h
  where
    to :
        (d k : ℕ)
        → Row i j d k
        → d * k ≤ max
        → (d' : ℕ) × (k' : ℕ) × Below (suc i) d' k' × (d' * k' ≡ d * k)
    to d k (inl c) le = (d, k, (c.0, omega arith, c.2), refl)
    to d k (inr (e, low, high)) le = (d, k, (omega arith, omega arith, low), refl)

    below_end : (k : ℕ) → 2 ≤ k → i * k ≤ max → k < j
    below_end k low le = elim (Bool-cases (ltb k j)) [
      | inl e ↦ ltb→lt k j e
      | inr e ↦
          let over = ltb→le k j e in
          absurd (elim ends [
            | inl small ↦ omega (arith, sum-le i k two low)
            | inr far ↦ omega (arith, mul-le i j k over)
          ])
    ]

    from :
        (d k : ℕ)
        → Below (suc i) d k
        → d * k ≤ max
        → (d' : ℕ) × (k' : ℕ) × Row i j d' k' × (d' * k' ≡ d * k)
    from d k c le = elim (Bool-cases (d == i)) [
      | inl e ↦
          let same = ==→eq d i e in
          (
            d,
            k,
            inr (same, c.2, below_end k c.2 (omega (arith, le, ap (λ (z : ℕ). z * k) same))),
            refl,
          )
      | inr e ↦ let ne = ==→ne d i e in (d, k, inl (c.0, omega arith, c.2), refl)
    ]

mark_on :
    (f max i j : ℕ) (p p' : ℕ → ℕ)
    → p i ≡ i
    → ltb j max ≡ true
    → ltb int_max (i * j) ≡ false
    → ltb max (i * j) ≡ false
    → mark f max i (suc j) (update p (i * j) 0) ≡ done p'
    → mark (suc f) max i j p ≡ done p'
unfolding mark
mark_on f max i j p p' here inside fits under run = rw (here, inside, fits, under) run

pub mark-Sieved :
    (f max i j : ℕ) (p : ℕ → ℕ)
    → 2 ≤ i
    → 2 ≤ j
    → i * j ≤ max + i
    → max + i ≤ int_max
    → max < j + f
    → p i ≡ i
    → Sieved max (Row i j) p
    → (p' : ℕ → ℕ) × (mark f max i j p ≡ done p') × Sieved max (Below (suc i)) p'
unfolding mark
mark-Sieved zero max i j p two two' small room fuel here h =
    absurd (omega (arith, sum-le i j two two'))
mark-Sieved (suc f) max i j p two two' small room fuel here h =
    let fits = le→ltb int_max (i * j) (omega arith) in
    elim (Bool-cases (ltb j max)) [
      | inr e ↦ (p, rw e refl, Row-end max i j p two (inl (ltb→le j max e)) h)
      | inl e ↦ elim (Bool-cases (ltb max (i * j))) [
        | inl over ↦ (
          p,
          rw (e, here, fits, over) refl,
          Row-end max i j p two (inr (ltb→lt max (i * j) over)) h,
        )
        | inr under ↦
            let inside = ltb→le max (i * j) under in
            let apart = update_other p (i * j) 0 i (λ z. omega (arith, two-le i j two two')) in
            let (p', run, sieved) =
              mark-Sieved f max i (suc j) (update p (i * j) 0) two (omega arith)
                (omega (arith, mul-suc i j)) room (omega arith) (apart ∙ here)
                (Row-step max i j p two' h) in
            (p', mark_on f max i j p p' here e fits under run, sieved)
      ]
    ]
