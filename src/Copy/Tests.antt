-- ===== src/Copy/Tests.antt =====
-- Copies of a small file in blocks of four bytes.
use sty_linux.Base.{ℕ, ◌≡◌, refl, List, [], ◌∷◌, none, some, true, false, ℤ, pos}
use sty_linux.Copy.{System, Process, Event, block, succeeds, copy_loop, do_copy, permissions}

abbrev pub system : List Event → System
system es = record {
  src_opens = true;
  src_mode = some 384;
  dst_opens = true;
  has_memory = true;
  events = es;
  chmod_works = true;
}

abbrev pub process : Process
process = record { descriptors = 3; buffers = 0; umask = 18; dst = none }

abbrev zero_block : List ℕ
zero_block = 0 ∷ 0 ∷ 0 ∷ 0 ∷ []

abbrev pub with_hole : List Event
with_hole =
    block (1 ∷ 2 ∷ 3 ∷ 4 ∷ []) succeeds
    ∷ block zero_block succeeds
    ∷ block (5 ∷ 0 ∷ []) succeeds
    ∷ []

abbrev pub ends_in_hole : List Event
ends_in_hole = block (1 ∷ 2 ∷ 3 ∷ 4 ∷ []) succeeds ∷ block zero_block succeeds ∷ []

abbrev result : List ℕ → ℤ × Process
result bytes = (
  pos 0,
  record {
    descriptors = 3;
    buffers = 0;
    umask = 18;
    dst = some (record { bytes = bytes; position = 10; mode = 384 });
  },
)

-- 0644 less 0027
permissions_lem : permissions 9 420 23 ≡ 416
permissions_lem = refl

copies_hole :
    do_copy false (system with_hole) process ≡ result (1 ∷ 2 ∷ 3 ∷ 4 ∷ 0 ∷ 0 ∷ 0 ∷ 0 ∷ 5 ∷ 0 ∷ [])
unfolding do_copy copy_loop
copies_hole = refl
