-- ===== src/Copy/Solution.antt =====
-- STY25/vika10/assignment10-templates/p2/sol.c: `doCopy` with a loop round `write`, and `parseCopyArgs`, which
-- copy.c has too. Each call of `write`, `lseek` and `getopt` is answered by the arguments.
pub mod Arguments
pub mod Writes
mod Tests
mod Witnesses
use sty_linux.Base.{
  ℕ, zero, suc, ◌+◌, ◌-◌, ◌==◌, ltb, if◌then◌else◌, Bool, true, false, ◌&&◌, List, [], ◌∷◌, length,
  Option, none, some, ℤ, pos, negsuc, Run, done, out_of_fuel, ◌>>=◌,
}
use sty_linux.Copy.{
  File, Process, write, seek_by, first, all_zero_bytes, is_zero, open_one, close_one, cleanup,
  permissions,
}

-- How a call of `write` ends.
pub data Written : Type 0 where
  wrote : ℕ → Written
  failed : Written

-- What `read` gives: bytes, with the outcomes of the calls for them, or an error.
pub data Event : Type 0 where
  block : List ℕ → (seeks : Bool) → List Written → Event
  read_error : Event

abbrev pub drop : ℕ → List ℕ → List ℕ
drop zero bs = bs
drop (suc n) [] = []
drop (suc n) (b ∷ bs) = drop n bs

-- The loop that writes until all is written: whether it has come to its end, and the destination. It is out of
-- fuel where it needs more calls than there are answers.
unfoldable pub write_all : List Written → List ℕ → File → Run (Bool × File)
write_all ws [] f = done (true, f)
write_all [] (b ∷ bs) f = out_of_fuel
write_all (failed ∷ ws) (b ∷ bs) f = done (false, f)
write_all (wrote n ∷ ws) (b ∷ bs) f = write_all ws (drop n (b ∷ bs)) (write (first n (b ∷ bs)) f)

-- The loop of `doCopy`: its result and the destination.
unfoldable pub copy_all : List Event → File → Run (ℤ × File)
copy_all [] f = done (pos 0, f)
copy_all (read_error ∷ es) f = done (negsuc 0, f)
copy_all (block bs seeks ws ∷ es) f =
    let go_on = λ (f' : File). copy_all es f' in
    let skips = if seeks then go_on (seek_by (length bs) f) else done (negsuc 0, f) in
    let writes = write_all ws bs f >>= λ (all, f'). if all then go_on f' else done (negsuc 0, f') in
    if all_zero_bytes bs then skips else writes

pub record Calls : Type 0 where
  pub src_opens : Bool
  pub src_mode : Option ℕ
  pub dst_opens : Bool
  pub has_memory : Bool
  pub events : List Event
  pub chmod_works : Bool

-- 0666
abbrev pub open_file : (umask : ℕ) → File
open_file umask = record { bytes = []; position = 0; mode = permissions 9 438 umask }

unfoldable pub copy_file : (args_null : Bool) → Calls → Process → Run (ℤ × Process)
copy_file args_null sys p =
    let opened = open_one p in
    let created = record (open_one opened) { dst = some (open_file p.umask) } in
    let allocated = record created { buffers = created.buffers + 1 } in
    let ended = λ (mode : ℕ) (r : ℤ × File).
      let f = if is_zero r.0 && sys.chmod_works then record r.1 { mode = mode } else r.1 in
      let end : ℤ × Process = (r.0, cleanup (record allocated { dst = some f })) in end in
    if args_null
    then done (negsuc 0, p)
    else if sys.src_opens
    then elim sys.src_mode [
      | none ↦ done (negsuc 0, close_one opened)
      | some mode ↦
          if sys.dst_opens
          then (if sys.has_memory
              then (copy_all sys.events (open_file p.umask) >>= λ r. done (ended mode r))
              else done (negsuc 0, close_one (close_one created)))
          else done (negsuc 0, close_one opened)
    ]
    else done (negsuc 0, p)
