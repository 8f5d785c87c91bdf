-- ===== src/Copy/Content.antt =====
-- What the loop of copy.c leaves in the destination.
use sty_linux.Base.{
  ℕ, zero, suc, ◌+◌, ◌≡◌, ◌≢◌, refl, sym, ap, ◌∙◌, ◌==◌, if◌then◌else◌, true, false, List, [], ◌∷◌,
  ◌++◌, append_assoc, append-nil, length, length-append, replicate, arith, pos, Bool-cases, inl,
  inr, ==→eq,
}
use mathlib.Core.Path.{subst}
use sty_linux.Copy.{
  succeeds, short, fails, Event, block, read_error, File, write_at, write, seek_by, all_zero_bytes,
  copy_loop,
}

-- The bytes that were read.
abbrev pub contents : List Event → List ℕ
contents [] = []
contents (block bs o ∷ es) = bs ++ contents es
contents (read_error ∷ es) = contents es

-- No call fails or writes less than it is given, and no block is empty.
abbrev pub Smooth : List Event → Type 0
Smooth [] = Unit
Smooth (block bs o ∷ es) = (bs ≢ []) × (o ≡ succeeds) × Smooth es
Smooth (read_error ∷ es) = ⊥

-- An event that makes doCopy give up.
abbrev pub Failed : Event → Type 0
Failed read_error = Unit
Failed (block bs fails) = Unit
Failed (block bs succeeds) = ⊥
Failed (block bs (short n)) = ⊥

-- The length of the blocks of zeros at the end, after a gap.
abbrev pub gap_after : ℕ → List Event → ℕ
gap_after gap [] = gap
gap_after gap (block bs o ∷ es) = gap_after (if all_zero_bytes bs then gap + length bs else 0) es
gap_after gap (read_error ∷ es) = gap_after gap es

abbrev pub blanks : ℕ → List ℕ
blanks n = replicate n 0

-- The offset is behind the end by the gap, and what was read is the bytes and zeros for the gap.
pub record Holds (f : File) (gap : ℕ) (read : List ℕ) : Type 0 where
  pub offset : f.position ≡ length f.bytes + gap
  pub same : f.bytes ++ blanks gap ≡ read

pub length-blanks : (n : ℕ) → length (blanks n) ≡ n
length-blanks zero = refl
length-blanks (suc n) = ap suc (length-blanks n)

blanks-append : (n m : ℕ) → blanks n ++ blanks m ≡ blanks (n + m)
blanks-append zero m = ap blanks (omega arith)
blanks-append (suc n) m =
    ap (λ x. 0 ∷ x) (blanks-append n m)
    ∙ ap blanks (let e : suc (n + m) ≡ suc n + m = omega arith in e)

zeros : (bs : List ℕ) → all_zero_bytes bs ≡ true → bs ≡ blanks (length bs)
zeros [] e = refl
zeros (b ∷ bs) e = elim (Bool-cases (b == 0)) [
  | inl z ↦
      let rest : all_zero_bytes bs ≡ true =
        subst (λ x. (if x then all_zero_bytes bs else false) ≡ true) z e in
      ap (λ x. x ∷ bs) (==→eq b 0 z) ∙ ap (λ x. 0 ∷ x) (zeros bs rest)
  | inr z ↦ (let off : all_zero_bytes (b ∷ bs) ≡ false = rw z refl in absurd (cc))
]

write_at-gap : (gap : ℕ) (bs : List ℕ) → bs ≢ [] → write_at gap bs [] ≡ blanks gap ++ bs
write_at-gap zero [] ne = absurd (ne refl)
write_at-gap zero (b ∷ bs) ne = refl
write_at-gap (suc gap) bs ne = ap (λ x. 0 ∷ x) (write_at-gap gap bs ne)

write_at-end :
    (file : List ℕ) (gap : ℕ) (bs : List ℕ)
    → bs ≢ []
    → write_at (length file + gap) bs file ≡ file ++ (blanks gap ++ bs)
write_at-end [] gap bs ne =
    ap (λ z. write_at z bs []) (let e : 0 + gap ≡ gap = omega arith in e) ∙ write_at-gap gap bs ne
write_at-end (x ∷ file) gap bs ne =
    ap (λ z. write_at z bs (x ∷ file))
      (let e : suc (length file) + gap ≡ suc (length file + gap) = omega arith in e)
    ∙ ap (λ z. x ∷ z) (write_at-end file gap bs ne)

pub seek_by-Holds :
    (bs : List ℕ) (f : File) (gap : ℕ) (read : List ℕ)
    → Holds f gap read
    → all_zero_bytes bs ≡ true
    → Holds (seek_by (length bs) f) (gap + length bs) (read ++ bs)
seek_by-Holds bs f gap read h e = record {
  offset = (let o = h.offset in omega arith);
  same =
      ap (λ z. f.bytes ++ z) (sym (blanks-append gap (length bs)))
      ∙ sym (append_assoc f.bytes (blanks gap) (blanks (length bs)))
      ∙ ap (λ z. z ++ blanks (length bs)) h.same
      ∙ ap (λ z. read ++ z) (sym (zeros bs e));
}

pub write-Holds :
    (bs : List ℕ) (f : File) (gap : ℕ) (read : List ℕ)
    → Holds f gap read
    → bs ≢ []
    → Holds (write bs f) 0 (read ++ bs)
write-Holds bs f gap read h ne =
    let put : (write bs f).bytes ≡ read ++ bs =
      ap (λ z. write_at z bs f.bytes) h.offset
      ∙ write_at-end f.bytes gap bs ne
      ∙ sym (append_assoc f.bytes (blanks gap) bs)
      ∙ ap (λ z. z ++ bs) h.same in
    let before : length f.bytes + gap ≡ length read = omega (
      arith,
      length-append f.bytes (blanks gap),
      length-blanks gap,
      ap (λ (z : List ℕ). length z) h.same,
    ) in
    record {
      offset =
          (let o = h.offset in
            omega (arith, before, ap (λ (z : List ℕ). length z) put, length-append read bs));
      same = append-nil (write bs f).bytes ∙ put;
    }

-- If no call fails or writes less than it is given, the loop ends with 0, and what was read is what the
-- destination holds, followed by zeros for the blocks of zeros at the end, which are not in it.
pub copy_loop-Holds :
    (es : List Event) (f : File) (gap : ℕ) (read : List ℕ)
    → Holds f gap read
    → Smooth es
    → (f' : File) × (copy_loop es f ≡ (pos 0, f'))
      × Holds f' (gap_after gap es) (read ++ contents es)
      × (f'.mode ≡ f.mode)
unfolding copy_loop
copy_loop-Holds [] f gap read h smooth =
    (f, refl, subst (λ z. Holds f gap z) (sym (append-nil read)) h, refl)
copy_loop-Holds (block bs fails ∷ es) f gap read h smooth = (let e = smooth.1 in absurd (cc))
copy_loop-Holds (block bs (short n) ∷ es) f gap read h smooth = (let e = smooth.1 in absurd (cc))
copy_loop-Holds (read_error ∷ es) f gap read h smooth = absurd smooth
copy_loop-Holds (block bs succeeds ∷ es) f gap read h smooth =
    elim (Bool-cases (all_zero_bytes bs)) [
      | inl e ↦
          let (f', runs, holds, mode) =
            copy_loop-Holds es (seek_by (length bs) f) (gap + length bs) (read ++ bs)
              (seek_by-Holds bs f gap read h e) smooth.2 in
          (
            f',
            rw e runs,
            rw e (
                subst (λ z. Holds f' (gap_after (gap + length bs) es) z)
                  (append_assoc read bs (contents es)) holds),
            mode,
          )
      | inr e ↦
          let (f', runs, holds, mode) =
            copy_loop-Holds es (write bs f) 0 (read ++ bs) (write-Holds bs f gap read h smooth.0)
              smooth.2 in
          (
            f',
            rw e runs,
            rw e (
                subst (λ z. Holds f' (gap_after 0 es) z) (append_assoc read bs (contents es))
                  holds),
            mode,
          )
    ]
