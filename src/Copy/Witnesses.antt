-- ===== src/Copy/Witnesses.antt =====
-- The theorems on copy.c at small files.
use sty_linux.Base.{◌≡◌, refl, [], ◌++◌, some, false, pos}
use sty_linux.Copy.{Process, File, do_copy, new_file}
use sty_linux.Copy.Content.{contents, Smooth, Holds}
use sty_linux.Copy.Resources.{Works, do_copy-released, do_copy-Holds}
use sty_linux.Copy.Tests.{system, process, with_hole, ends_in_hole}

with_hole-Smooth : Smooth with_hole
with_hole-Smooth = ((λ e. cc), refl, ((λ e. cc), refl, ((λ e. cc), refl, tt)))

with_hole-Works : Works (system with_hole) 384
with_hole-Works = record {
  opens = refl;
  stats = refl;
  creates = refl;
  allocates = refl;
  smooth = with_hole-Smooth;
}

ends_in_hole-Works : Works (system ends_in_hole) 384
ends_in_hole-Works = record {
  opens = refl;
  stats = refl;
  creates = refl;
  allocates = refl;
  smooth = ((λ e. cc), refl, ((λ e. cc), refl, tt));
}

new_file-Holds : Holds (new_file 18) 0 []
new_file-Holds = record { offset = refl; same = refl }

do_copy-released_example :
    ((do_copy false (system with_hole) process).1.descriptors ≡ 3)
    × ((do_copy false (system with_hole) process).1.buffers ≡ 0)
do_copy-released_example = do_copy-released false (system with_hole) process

do_copy-Holds_example :
    (f : File) × (p' : Process) × (do_copy false (system with_hole) process ≡ (pos 0, p'))
    × (p'.dst ≡ some f)
    × (f.bytes ++ [] ≡ contents with_hole)
    × (f.mode ≡ 384)
do_copy-Holds_example = do_copy-Holds (system with_hole) 384 process with_hole-Works
