-- ===== src/PageTable/View.antt =====
-- What the two levels of page_table.c map, and how writes to them change it.
use sty_linux.Base.{
  ℕ, ◌<◌, ◌≡◌, ◌≢◌, refl, sym, inl, inr, Bool-cases, ==→eq, ==→ne, ==_self, ne→==, ◌==◌,
  if◌then◌else◌, true, ◌&&◌, Option, none, some, update,
}
use mathlib.Core.Path.{subst}
use sty_linux.Memory.{null}
use sty_linux.PageTable.{Entries, Paging, current, is_present, address_bits, entries_per_table}

-- The entry if it is present.
abbrev pub shown : ℕ → Option ℕ
shown e = if is_present e then some e else none

abbrev pub entry_of : Option Entries → ℕ → Option ℕ
entry_of none i = none
entry_of (some t) i = shown (t i)

-- The entry that stands for page `i` of directory entry `d`, if the page is mapped.
abbrev pub walk : Entries → (ℕ → Option Entries) → ℕ → ℕ → Option ℕ
walk dir tables d i =
    if is_present (dir d) then entry_of (tables (address_bits (dir d))) i else none

abbrev pub mapping : Paging → ℕ → ℕ → Option ℕ
mapping s = walk (current s) s.tables

-- Present directory entries lead to tables, each to its own.
pub record Paged (dir : Entries) (tables : ℕ → Option Entries) : Type 0 where
  pub leads :
      (d : ℕ)
      → d < entries_per_table
      → is_present (dir d) ≡ true
      → (t : Entries) × (tables (address_bits (dir d)) ≡ some t)
  pub apart :
      (d e : ℕ)
      → d < entries_per_table
      → e < entries_per_table
      → d ≢ e
      → is_present (dir d) ≡ true
      → is_present (dir e) ≡ true
      → address_bits (dir d) ≢ address_bits (dir e)

pub record IsPaging (s : Paging) : Type 0 where
  pub has_directory : s.cr3 ≢ null
  pub paged : Paged (current s) s.tables

-- A view in which one page is changed.
abbrev pub Changed : (ℕ → ℕ → Option ℕ) → ℕ → ℕ → Option ℕ → (ℕ → ℕ → Option ℕ) → Type 0
Changed old d i x new =
    (e : ℕ)
    → e < entries_per_table
    → (j : ℕ) → j < entries_per_table
    → new e j ≡ (if e == d && j == i then x else old e j)

module _ (dir : Entries) (tables : ℕ → Option Entries) (is : Paged dir tables) (d : ℕ)
    (bound : d < entries_per_table) where
  -- A write to an entry of a table.
  module _ (t : Entries) (present : is_present (dir d) ≡ true)
      (here : tables (address_bits (dir d)) ≡ some t) (i v : ℕ) where
    pub write-Paged : Paged dir (update tables (address_bits (dir d)) (some (update t i v)))
    write-Paged = record {
      leads = λ e b p. elim (Bool-cases (address_bits (dir e) == address_bits (dir d))) [
        | inl same ↦ (update t i v, rw same refl)
        | inr ne ↦ (let (t', at) = is.leads e b p in (t', rw ne at))
      ];
      apart = is.apart;
    }

    pub write-Changed :
        Changed
          (walk dir tables)
          d
          i
          (shown v)
          (walk dir (update tables (address_bits (dir d)) (some (update t i v))))
    write-Changed e b j j_b = elim (Bool-cases (e == d)) [
      | inl same ↦
          let eq : e ≡ d = ==→eq e d same in
          rw same (
            subst
              (λ z.
                walk dir (update tables (address_bits (dir d)) (some (update t i v))) z j
                ≡ (if j == i then shown v else walk dir tables z j))
              (sym eq) (rw (present, ==_self (address_bits (dir d)), here) (at_entry j)))
      | inr ne ↦ rw ne (elsewhere (==→ne e d ne))
    ]
      where
        at_entry : (j : ℕ) → shown (update t i v j) ≡ (if j == i then shown v else shown (t j))
        at_entry j = elim (Bool-cases (j == i)) [ inl x ↦ rw x refl | inr x ↦ rw x refl ]

        elsewhere :
            e ≢ d
            → walk dir (update tables (address_bits (dir d)) (some (update t i v))) e j
              ≡ walk dir tables e j
        elsewhere ne = elim (Bool-cases (is_present (dir e))) [
          | inl p ↦
              rw
                (
                  p,
                  ne→== (address_bits (dir e)) (address_bits (dir d))
                      (is.apart e d b bound ne p present),
                )
                refl
          | inr p ↦ rw p refl
        ]
