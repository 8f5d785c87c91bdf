-- ===== src/Copy/Solution/Tests.antt =====
-- Runs of sol.c.
use sty_linux.Base.{◌≡◌, refl, List, [], ◌∷◌, none, some, true, false, pos, done}
use sty_linux.Copy.{Process}
use sty_linux.Copy.Solution.{Event, block, wrote, Calls, write_all, copy_all, copy_file}
use sty_linux.Copy.Solution.Arguments.{size, unknown, parse_options, parse_copy_args}

abbrev pub calls : List Event → Calls
calls es = record {
  src_opens = true;
  src_mode = some 384;
  dst_opens = true;
  has_memory = true;
  events = es;
  chmod_works = true;
}

abbrev pub process : Process
process = record { descriptors = 3; buffers = 0; umask = 18; dst = none }

-- The first block takes two writes, the second is a hole.
abbrev pub short_writes : List Event
short_writes =
    block (1 ∷ 2 ∷ 3 ∷ 4 ∷ []) true (wrote 3 ∷ wrote 1 ∷ [])
    ∷ block (0 ∷ 0 ∷ []) true []
    ∷ block (5 ∷ 0 ∷ []) true (wrote 2 ∷ [])
    ∷ []

copies_all :
    copy_file false (calls short_writes) process
    ≡ done (
      pos 0,
      record {
        descriptors = 3;
        buffers = 0;
        umask = 18;
        dst =
            some (record { bytes = 1 ∷ 2 ∷ 3 ∷ 4 ∷ 0 ∷ 0 ∷ 5 ∷ 0 ∷ []; position = 8; mode = 384 });
      },
    )
unfolding copy_file copy_all write_all
copies_all = refl

one_operand : parse_copy_args false (size (pos 5) 0 ∷ []) ((97 ∷ []) ∷ []) 0 ≡ none
unfolding parse_options parse_copy_args
one_operand = refl

bad_option : parse_copy_args false (unknown ∷ []) ((97 ∷ []) ∷ (98 ∷ []) ∷ []) 0 ≡ none
unfolding parse_options parse_copy_args
bad_option = refl
