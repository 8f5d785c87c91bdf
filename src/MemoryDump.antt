-- ===== src/MemoryDump.antt =====
-- The program of STY25/vika7/P7/assignment07-templates/p2: main.c, and the functions of analyse-mem.c that it
-- calls, which are not written yet. The dump is its bytes; what open, fstat, mmap, malloc and strtoull
-- answer is an argument.
pub mod Main
pub mod Words
pub mod Paths
mod Tests
mod Witnesses
use Prim.Native.Char.{code}
use Prim.Native.String.{String}
use sty_linux.Base.{
  ℕ, zero, suc, ◌+◌, ◌-◌, ◌^◌, ◌==◌, ltb, leb, if◌then◌else◌, Bool, true, false, ◌&&◌, ◌||◌, List,
  [], ◌∷◌, ◌++◌, length, Run, done, fault, out_of_fuel, ◌>>=◌,
}

-- A text is its characters.
abbrev pub Text : Type 0
Text = List ℕ

abbrev pub codes : String → Text
codes String.[] = []
codes (String.◌∷◌ c s) = code c ∷ codes s

-- `strcmp(a, b) == 0`
abbrev pub same_text : Text → Text → Bool
same_text [] [] = true
same_text [] (b ∷ bs) = false
same_text (a ∷ as') [] = false
same_text (a ∷ as') (b ∷ bs) = if a == b then same_text as' bs else false

-- `dump_base` and `dump_size`
pub record Dump : Type 0 where
  pub byte : ℕ → ℕ
  pub size : ℕ

-- The bytes from `pos` on, so many.
abbrev pub slice : Dump → ℕ → ℕ → Text
slice d zero pos = []
slice d (suc n) pos = d.byte pos ∷ slice d n (suc pos)

-- The loops over bytes that are not null, and over null bytes, up to `end`: where they stop.
unfoldable pub skip_text : ℕ → Dump → (end pos : ℕ) → Run ℕ
skip_text zero d end pos = out_of_fuel
skip_text (suc f) d end pos =
    let rest = skip_text f d end (suc pos) in
    if ltb pos end then (if d.byte pos == 0 then done pos else rest) else done pos

unfoldable pub skip_nulls : ℕ → Dump → (end pos : ℕ) → Run ℕ
skip_nulls zero d end pos = out_of_fuel
skip_nulls (suc f) d end pos =
    let rest = skip_nulls f d end (suc pos) in
    if ltb pos end then (if d.byte pos == 0 then rest else done pos) else done pos

-- What is printed, a line each; an error prints on stderr and is left out.
abbrev pub Lines : Type 0
Lines = List Text

unfoldable pub print_string : (has_memory : ℕ → Bool) → Dump → ℕ → Run Lines
print_string has_memory d phys =
    let print =
      (skip_text (d.size + 1) d d.size phys >>= λ end.
      let len = end - phys in done (if has_memory (len + 1) then slice d len phys ∷ [] else [])) in
    if leb d.size phys then done [] else print

-- The loop of print_null_terminated_strings_in_range.
unfoldable pub range_loop : (has_memory : ℕ → Bool) → ℕ → Dump → (end cur : ℕ) → Lines → Run Lines
range_loop has_memory zero d end cur out = out_of_fuel
range_loop has_memory (suc f) d end cur out =
    let round =
      (skip_text (d.size + 1) d end cur >>= λ pos.
      let len = pos - cur in
      let go_on = λ (out' : Lines).
        skip_nulls (d.size + 1) d end pos >>= λ next. range_loop has_memory f d end next out' in
      let found = if has_memory (len + 1) then go_on (out ++ slice d len cur ∷ []) else done out in
      if ltb cur pos then found else go_on out) in
    if ltb cur end then round else done out

unfoldable pub print_range : (has_memory : ℕ → Bool) → Dump → (start end : ℕ) → Run Lines
print_range has_memory d start end =
    let print = range_loop has_memory (d.size + 1) d end start [] in
    if leb d.size start || (ltb d.size end || leb end start) then done [] else print

-- `ADDR_ERROR`, and `translate` and `pcb_to_pgd` of analyse-mem.c as they stand.
abbrev pub addr_error : ℕ
addr_error = 2 ^ 64 - 1

unfoldable pub translate : (pgd vaddr : ℕ) → ℕ
translate pgd vaddr = addr_error

unfoldable pub pcb_to_pgd : (kernel_pgd pcb_vaddr offset_mm offset_pgd : ℕ) → ℕ
pcb_to_pgd kernel_pgd pcb_vaddr offset_mm offset_pgd = addr_error

-- `mapped_pages_t` and calculate_mapped_memory as it stands.
pub record MappedPages : Type 0 where
  pub pages4k : ℕ
  pub pages2m : ℕ
  pub pages1g : ℕ

unfoldable pub calculate_mapped_memory : (pgd : ℕ) → (kernel_only : Bool) → MappedPages
calculate_mapped_memory pgd kernel_only = record { pages4k = 0; pages2m = 0; pages1g = 0 }
