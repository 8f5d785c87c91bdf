-- ===== src/Listing/Modes.antt =====
-- The mode string of ls.c and the permission bits.
use sty_linux.Base.{
  ℕ, ◌+◌, ◌*◌, ◌/◌, ◌%◌, ◌≡◌, refl, sym, ◌==◌, if◌then◌else◌, false, [], ◌∷◌, arith, Bool-cases,
  ==→eq, ==→ne, inl, inr,
}
use sty_linux.Base.Bits.{has_bit}
use sty_linux.MemoryDump.{Text}
use sty_linux.Listing.{letter, mode_text}

-- A letter stands for a bit that is set, and `-` for one that is not.
abbrev pub bit_of : ℕ → ℕ
bit_of c = if c == b'-' then 0 else 1

-- The number that the letters stand for in base 2, `n` being that of the letters before.
abbrev pub number_of : ℕ → Text → ℕ
number_of n [] = n
number_of n (c ∷ cs) = number_of (2 * n + bit_of c) cs

-- The permissions behind the letter of the type.
abbrev pub permissions : Text → ℕ
permissions [] = 0
permissions (c ∷ cs) = number_of 0 cs

bit_of-letter :
    (c mask mode : ℕ) → (c == b'-') ≡ false → bit_of (letter c mask mode) ≡ mode / mask % 2
bit_of-letter c mask mode other = elim (Bool-cases (has_bit mask mode)) [
  | inl e ↦ rw (e, other) (sym (==→eq (mode / mask % 2) 1 e))
  | inr e ↦
      let ne = ==→ne (mode / mask % 2) 1 e in
      let zero_bit : 0 ≡ mode / mask % 2 = omega arith in rw e zero_bit
]

-- From the nine letters behind the first that ls.c prints for a file one reads back its permission bits.
pub mode_text-permissions : (mode : ℕ) → permissions (mode_text mode) ≡ mode % 512
unfolding mode_text
mode_text-permissions mode =
    rw
      (
        bit_of-letter b'r' 256 mode refl,
        bit_of-letter b'w' 128 mode refl,
        bit_of-letter b'x' 64 mode refl,
        bit_of-letter b'r' 32 mode refl,
        bit_of-letter b'w' 16 mode refl,
        bit_of-letter b'x' 8 mode refl,
        bit_of-letter b'r' 4 mode refl,
        bit_of-letter b'w' 2 mode refl,
        bit_of-letter b'x' 1 mode refl,
      )
      (omega arith)
