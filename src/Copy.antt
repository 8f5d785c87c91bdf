-- ===== src/Copy.antt =====
-- `doCopy` of STY25/vika10/assignment10-templates/p2/copy.c. What the system calls answer is an argument,
-- `System`; the file that they write is modelled as they document it.
pub mod Content
pub mod Errors
pub mod Resources
pub mod Solution
mod Tests
mod Witnesses
use sty_linux.Base.{
  ℕ, zero, suc, ◌+◌, ◌-◌, ◌*◌, ◌/◌, ◌%◌, ◌==◌, if◌then◌else◌, Bool, true, false, ◌&&◌, List, [],
  ◌∷◌, length, Option, none, some, ℤ, pos, negsuc,
}

-- How `write` or `lseek` ends: a short write puts some of the bytes only.
pub data Outcome : Type 0 where
  succeeds : Outcome
  short : ℕ → Outcome
  fails : Outcome

-- What `read` gives: bytes, with the outcome of the call for them that follows, or an error. Where the
-- list ends, the source ends.
pub data Event : Type 0 where
  block : List ℕ → Outcome → Event
  read_error : Event

pub record System : Type 0 where
  pub src_opens : Bool
  pub src_mode : Option ℕ
  pub dst_opens : Bool
  pub has_memory : Bool
  pub events : List Event
  pub chmod_works : Bool

-- The destination: its bytes, the offset of its descriptor, and its permissions.
pub record File : Type 0 where
  pub bytes : List ℕ
  pub position : ℕ
  pub mode : ℕ

-- The descriptors and buffers in use, the umask, and the destination once it exists.
pub record Process : Type 0 where
  pub descriptors : ℕ
  pub buffers : ℕ
  pub umask : ℕ
  pub dst : Option File

-- Bytes are put over what is there; a gap behind the end is filled with zeros.
abbrev pub write_at : ℕ → List ℕ → List ℕ → List ℕ
write_at zero [] file = file
write_at zero (b ∷ bs) [] = b ∷ bs
write_at zero (b ∷ bs) (x ∷ file) = b ∷ write_at zero bs file
write_at (suc p) bs [] = 0 ∷ write_at p bs []
write_at (suc p) bs (x ∷ file) = x ∷ write_at p bs file

abbrev pub write : List ℕ → File → File
write bs f = record f { bytes = write_at f.position bs f.bytes; position = f.position + length bs }

abbrev pub seek_by : ℕ → File → File
seek_by n f = record f { position = f.position + n }

abbrev pub first : ℕ → List ℕ → List ℕ
first zero bs = []
first (suc n) [] = []
first (suc n) (b ∷ bs) = b ∷ first n bs

-- The loop over the bytes of a block.
abbrev pub all_zero_bytes : List ℕ → Bool
all_zero_bytes [] = true
all_zero_bytes (b ∷ bs) = if b == 0 then all_zero_bytes bs else false

-- The loop of `doCopy`: its result and the destination.
unfoldable pub copy_loop : List Event → File → ℤ × File
copy_loop [] f = (pos 0, f)
copy_loop (read_error ∷ es) f = (negsuc 0, f)
copy_loop (block bs fails ∷ es) f = (negsuc 0, f)
copy_loop (block bs succeeds ∷ es) f =
    copy_loop es (if all_zero_bytes bs then seek_by (length bs) f else write bs f)
copy_loop (block bs (short n) ∷ es) f =
    copy_loop es (if all_zero_bytes bs then seek_by (length bs) f else write (first n bs) f)

abbrev pub is_zero : ℤ → Bool
is_zero (pos n) = n == 0
is_zero (negsuc n) = false

abbrev pub open_one : Process → Process
open_one p = record p { descriptors = p.descriptors + 1 }

abbrev pub close_one : Process → Process
close_one p = record p { descriptors = p.descriptors - 1 }

-- The lowest `n` bits of `mode & ~umask`, the permissions that `open` gives a new file.
abbrev pub permissions : (n mode umask : ℕ) → ℕ
permissions zero mode umask = 0
permissions (suc n) mode umask =
    let higher = permissions n (mode / 2) (umask / 2) in
    (if umask % 2 == 1 then 0 else mode % 2) + 2 * higher

-- 0644, and the label `cleanup`
abbrev pub new_file : (umask : ℕ) → File
new_file umask = record { bytes = []; position = 0; mode = permissions 9 420 umask }

abbrev pub cleanup : Process → Process
cleanup p = close_one (close_one (record p { buffers = p.buffers - 1 }))

unfoldable pub do_copy : (args_null : Bool) → System → Process → ℤ × Process
do_copy args_null sys p =
    let opened = open_one p in
    let created = record (open_one opened) { dst = some (new_file p.umask) } in
    let allocated = record created { buffers = created.buffers + 1 } in
    let (result, f) = copy_loop sys.events (new_file p.umask) in
    let set_mode =
      λ (mode : ℕ). if is_zero result && sys.chmod_works then record f { mode = mode } else f in
    if args_null
    then (negsuc 0, p)
    else if sys.src_opens
    then elim sys.src_mode [
      | none ↦ (negsuc 0, close_one opened)
      | some mode ↦
          if sys.dst_opens
          then (if sys.has_memory
              then (result, cleanup (record allocated { dst = some (set_mode mode) }))
              else (negsuc 0, close_one (close_one created)))
          else (negsuc 0, close_one opened)
    ]
    else (negsuc 0, p)
