-- ===== src/PageTable.antt =====
-- The page tables of STY25/vika7/P7/assignment07-templates/p1/page_table.c with page_table.h.
-- `posix_memalign` is not modelled: what it gives, none on failure, is the argument `fresh`. An access
-- through a pointer that holds no table faults, as a failed assertion does.
pub mod Bits
pub mod View
pub mod Tables
pub mod Map
pub mod Translate
pub mod Unmap
mod Tests
mod Witnesses
use sty_linux.Base.{
  ℕ, zero, suc, ◌+◌, ◌-◌, ◌/◌, ◌%◌, ◌^◌, ◌==◌, if◌then◌else◌, Bool, true, false, ◌&&◌, ◌||◌, Option,
  none, some, Run, done, fault, ◌>>=◌, update, ℤ, pos, negsuc,
}
use sty_linux.Base.Bits.{has_bit, set_bit, clear_bit}
use sty_linux.Memory.{null}

abbrev pub invalid_address : ℕ
invalid_address = 2 ^ 32 - 1

abbrev pub entries_per_table : ℕ
entries_per_table = 1024

abbrev pub page_present_mask : ℕ
page_present_mask = 1

abbrev pub page_readwrite_mask : ℕ
page_readwrite_mask = 2

abbrev pub page_usermode_mask : ℕ
page_usermode_mask = 4

abbrev pub page_accessed_mask : ℕ
page_accessed_mask = 32

pub data ReadWrite : Type 0 where
  access_read : ReadWrite
  access_write : ReadWrite

pub data PrivilegeLevel : Type 0 where
  user_mode : PrivilegeLevel
  kernel_mode : PrivilegeLevel

abbrev pub is_write : ReadWrite → Bool
is_write access_read = false
is_write access_write = true

abbrev pub is_user : PrivilegeLevel → Bool
is_user user_mode = true
is_user kernel_mode = false

-- `entries` of a `PageDirectory` or a `PageTable`
abbrev pub Entries : Type 0
Entries = ℕ → ℕ

-- `_cr3`, and the directories and tables in memory.
pub record Paging : Type 0 where
  pub cr3 : ℕ
  pub directories : ℕ → Entries
  pub tables : ℕ → Option Entries

abbrev pub set_page_directory : ℕ → Paging → Paging
set_page_directory directory s = record s { cr3 = directory }

abbrev pub page_directory_index : ℕ → ℕ
page_directory_index address = address / 2 ^ 22

abbrev pub page_table_index : ℕ → ℕ
page_table_index address = address / 2 ^ 12 % entries_per_table

abbrev pub offset : ℕ → ℕ
offset address = address % 2 ^ 12

-- `entry & PAGE_DIRECTORY_ADDRESS_MASK` and `entry & PAGE_TABLE_ADDRESS_MASK`
abbrev pub address_bits : ℕ → ℕ
address_bits entry = entry - entry % 2 ^ 12

abbrev pub is_present : ℕ → Bool
is_present entry = has_bit page_present_mask entry

-- `_cr3->entries`
abbrev pub current : Paging → Entries
current s = s.directories s.cr3

abbrev pub set_pde : ℕ → ℕ → Paging → Paging
set_pde d v s = record s { directories = update s.directories s.cr3 (update (current s) d v) }

-- `pageTable->entries[i] = v`
unfoldable pub write_entry : (table i v : ℕ) → Paging → Run Paging
write_entry table i v s = elim (s.tables table) [
  | none ↦ fault
  | some t ↦ done (record s { tables = update s.tables table (some (update t i v)) })
]

unfoldable pub make_pte : ℕ → ReadWrite → PrivilegeLevel → ℕ
make_pte physical mode privileges =
    let p1 = set_bit page_present_mask physical in
    let p2 = if is_write mode then set_bit page_readwrite_mask p1 else p1 in
    if is_user privileges then set_bit page_usermode_mask p2 else p2

unfoldable pub map_page :
    (fresh : Option ℕ) (virtual physical : ℕ)
    → ReadWrite
    → PrivilegeLevel
    → Paging
    → Run (ℤ × Paging)
map_page fresh virtual physical mode privileges s =
    let d = page_directory_index virtual in
    let i = page_table_index virtual in
    let pde = current s d in
    let pte = make_pte physical mode privileges in
    let add = λ (a : ℕ).
      write_entry a i pte (
        set_pde d (set_bit page_present_mask a)
          (record s { tables = update s.tables a (some (λ _. 0)) }))
      >>= λ s1. done (pos 0, s1) in
    if offset virtual == 0 && offset physical == 0
    then (if s.cr3 == null
        then fault
        else if is_present pde
        then (write_entry (address_bits pde) i pte s >>= λ s1. done (pos 0, s1))
        else elim fresh [ none ↦ done (negsuc 0, s) | some a ↦ add a ])
    else done (negsuc 0, s)

-- The checks of the privileges in `translatePageTable`.
unfoldable pub is_permitted : ReadWrite → PrivilegeLevel → ℕ → Bool
is_permitted mode privileges pte =
    if is_user privileges
    then (if is_write mode && (if has_bit page_readwrite_mask pte then false else true)
        then false
        else has_bit page_usermode_mask pte)
    else true

unfoldable pub translate_page_table : ℕ → ReadWrite → PrivilegeLevel → Paging → Run (ℕ × Paging)
translate_page_table virtual mode privileges s =
    let i = page_table_index virtual in
    let pde = current s (page_directory_index virtual) in
    let table = address_bits pde in
    let hit = λ (t : Entries).
      let pte = t i in
      if is_present pte
      then (if is_permitted mode privileges pte
          then (write_entry table i (set_bit page_accessed_mask pte) s >>= λ s1.
              done ((address_bits pte + offset virtual) % 2 ^ 32, s1))
          else done (invalid_address, s))
      else done (invalid_address, s) in
    if s.cr3 == null
    then fault
    else if is_present pde
    then elim (s.tables table) [ none ↦ fault | some t ↦ hit t ]
    else done (invalid_address, s)

-- The loop of `unmapPage`, from index `i`.
unfoldable pub all_unmapped : (rounds i : ℕ) → Entries → Bool
all_unmapped zero i t = true
all_unmapped (suc n) i t =
    let rest = all_unmapped n (suc i) t in if is_present (t i) then false else rest

unfoldable pub unmap_page : ℕ → Paging → Run (ℤ × Paging)
unmap_page virtual s =
    let d = page_directory_index virtual in
    let i = page_table_index virtual in
    let pde = current s d in
    let table = address_bits pde in
    let clear = λ (t : Entries).
      let t1 = update t i (clear_bit page_present_mask (t i)) in
      let s1 = record s { tables = update s.tables table (some t1) } in
      if is_present (t i)
      then (if all_unmapped entries_per_table 0 t1
          then done (
            pos 0,
            set_pde d (clear_bit page_present_mask pde)
                (record s1 { tables = update s1.tables table none }),
          )
          else done (pos 0, s1))
      else done (negsuc 0, s) in
    if offset virtual == 0
    then (if s.cr3 == null
        then fault
        else if is_present pde
        then elim (s.tables table) [ none ↦ fault | some t ↦ clear t ]
        else done (negsuc 0, s))
    else done (negsuc 0, s)
