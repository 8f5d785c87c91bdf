-- ===== src/Pipe/Witnesses.antt =====
-- The theorems on pipe.c at concrete runs.
use sty_linux.Base.{◌≡◌, ◌≤◌, refl, false, ℤ, negsuc, ◌⊎◌}
use sty_linux.Pipe.{returned, Fork, ForkStep}
use sty_linux.Pipe.Invariant.{Reason}
use sty_linux.Pipe.Outcome.{execute-Reason, execute-returns}
use sty_linux.Pipe.Tests.{no_program, failed, no_program-failed, program, ran, program-ran}

execute-Reason_example :
    (failed.parent_write ≡ false)
    × (failed.parent_read ≡ false)
    × Reason no_program 0 failed.child (negsuc 0) failed.errno
execute-Reason_example = execute-Reason no_program 0 9 failed (negsuc 0) no_program-failed refl

execute-returns_example :
    (7 ≤ 9) × (((r : ℤ) × (ran.parent ≡ returned r)) ⊎ ((s' : Fork) × ForkStep program ran s'))
execute-returns_example = execute-returns program 0 7 ran program-ran
