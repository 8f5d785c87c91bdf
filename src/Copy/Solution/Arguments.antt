-- ===== src/Copy/Solution/Arguments.antt =====
-- `parseCopyArgs` of STY25/vika10/assignment10-templates/p2/copy.c and sol.c, over what `getopt` and `atoi`
-- give. A command-line argument is its text, a list of characters.
use sty_linux.Base.{
  ℕ, ◌≡◌, ◌≢◌, refl, ◌==◌, ltb, if◌then◌else◌, Bool, true, false, ◌&&◌, List, [], ◌∷◌, Option, none,
  some, ℤ, pos, negsuc, ne→==, All,
}

abbrev pub Text : Type 0
Text = List ℕ

-- What `getopt` finds: `-b` with the number that `atoi` reads from its argument and the `errno` that it
-- sets (0 if none), or anything else.
pub data Found : Type 0 where
  size : ℤ → (sets : ℕ) → Found
  unknown : Found

pub record CopyArgs : Type 0 where
  pub src : Text
  pub dst : Text
  pub blocksize : ℤ

abbrev pub is_positive : ℤ → Bool
is_positive (pos n) = ltb 0 n
is_positive (negsuc n) = false

-- The loop over the options.
unfoldable pub parse_options : List Found → (errno : ℕ) → (blocksize : ℤ) → Option ℤ
parse_options [] errno blocksize = some blocksize
parse_options (unknown ∷ os) errno blocksize = none
parse_options (size n sets ∷ os) errno blocksize =
    let errno' = if sets == 0 then errno else sets in
    let go_on = parse_options os errno' n in if errno' == 0 && is_positive n then go_on else none

-- The two parameters after the options.
abbrev pub take_two : List Text → ℤ → Option CopyArgs
take_two (src ∷ dst ∷ []) n = some (record { src = src; dst = dst; blocksize = n })
take_two texts n = none

unfoldable pub parse_copy_args :
    (args_null : Bool) → List Found → List Text → (errno : ℕ) → Option CopyArgs
parse_copy_args args_null os texts errno =
    if args_null
    then none
    else elim (parse_options os errno (pos 4096)) [ none ↦ none | some n ↦ take_two texts n ]

-- The option gives a size that is at least 1, and `atoi` sets no `errno`.
abbrev pub IsSize : Found → Type 0
IsSize (size n sets) = (is_positive n ≡ true) × (sets ≡ 0)
IsSize unknown = ⊥

-- The last size given.
abbrev pub last_size : List Found → ℤ → ℤ
last_size [] n = n
last_size (size n sets ∷ os) m = last_size os n
last_size (unknown ∷ os) m = last_size os m

parse_options-sizes :
    (os : List Found) (n : ℤ) → All IsSize os → parse_options os 0 n ≡ some (last_size os n)
unfolding parse_options
parse_options-sizes [] n h = refl
parse_options-sizes (size m sets ∷ os) n h = rw (h.0.1, h.0.0) (parse_options-sizes os m h.1)
parse_options-sizes (unknown ∷ os) n h = absurd h.0

-- If errno is 0 and the options are sizes of at least 1, parseCopyArgs takes exactly two parameters after
-- them, and the last size given, or 4096 if none is.
pub parse_copy_args-sizes :
    (os : List Found) (src dst : Text)
    → All IsSize os
    → parse_copy_args false os (src ∷ dst ∷ []) 0
      ≡ some (record { src = src; dst = dst; blocksize = last_size os (pos 4096) })
unfolding parse_copy_args
parse_copy_args-sizes os src dst h = rw (parse_options-sizes os (pos 4096) h) refl

-- An errno that an earlier call has left is taken for an error of atoi: a valid size is refused.
pub parse_copy_args-stale :
    (n : ℤ) (os : List Found) (texts : List Text) (errno : ℕ)
    → errno ≢ 0
    → parse_copy_args false (size n 0 ∷ os) texts errno ≡ none
unfolding parse_options parse_copy_args
parse_copy_args-stale n os texts errno h = rw (ne→== errno 0 h) refl
