-- ===== src/Copy/Solution/Witnesses.antt =====
-- The theorem on sol.c at a small file.
use sty_linux.Base.{◌≡◌, refl, [], ◌++◌, false, pos, some, done, arith}
use sty_linux.Copy.{File, Process}
use sty_linux.Copy.Solution.{copy_file}
use sty_linux.Copy.Solution.Tests.{calls, process, short_writes}
use sty_linux.Copy.Solution.Writes.{Steady, read_bytes, copy_file-Holds}

short_writes-Steady : Steady short_writes
short_writes-Steady = (
  (λ e. cc),
  (omega arith, omega arith, (omega arith, omega arith, tt)),
  ((λ e. cc), refl, ((λ e. cc), (omega arith, omega arith, tt), tt)),
)

copy_file-Holds_example :
    (f : File) × (p' : Process) × (copy_file false (calls short_writes) process ≡ done (pos 0, p'))
    × (p'.dst ≡ some f)
    × (f.bytes ++ [] ≡ read_bytes short_writes)
    × (f.mode ≡ 384)
    × (p'.descriptors ≡ 3)
    × (p'.buffers ≡ 0)
copy_file-Holds_example = copy_file-Holds (calls short_writes) 384 process (record {
  opens = refl;
  stats = refl;
  creates = refl;
  allocates = refl;
  steady = short_writes-Steady;
})
