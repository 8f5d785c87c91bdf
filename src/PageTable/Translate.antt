-- ===== src/PageTable/Translate.antt =====
-- `translatePageTable` of page_table.c.
use sty_linux.Base.{
  ℕ, ◌<◌, ◌+◌, ◌%◌, ◌^◌, ◌≡◌, refl, sym, ap, ◌∙◌, inl, inr, Bool-cases, ==_self, ne→==,
  if◌then◌else◌, Bool, true, false, ◌&&◌, none, some, Run, done, pos, arith,
}
use mathlib.Core.Path.{subst}
use sty_linux.Base.Bits.{has_bit, set_bit}
use sty_linux.Memory.{null}
use sty_linux.PageTable.{
  Paging, current, is_present, address_bits, entries_per_table, make_pte, map_page,
  translate_page_table, is_permitted, ReadWrite, access_read, access_write, PrivilegeLevel,
  user_mode, kernel_mode, page_directory_index, page_table_index, offset, invalid_address, is_write,
  is_user,
}
use sty_linux.PageTable.Bits.{make_pte_lem, accessed_lem}
use sty_linux.PageTable.View.{mapping, shown, IsPaging, Changed}
use sty_linux.PageTable.Map.{write_entry-Changed, map_page-Mapped}

-- What an entry allows: the kernel everything, a user what the user and the write bit say.
abbrev pub rights : ReadWrite → PrivilegeLevel → ℕ → Bool
rights access_read kernel_mode pte = true
rights access_write kernel_mode pte = true
rights access_read user_mode pte = has_bit 4 pte
rights access_write user_mode pte = has_bit 2 pte && has_bit 4 pte

is_permitted_lem :
    (mode : ReadWrite) (privileges : PrivilegeLevel) (pte : ℕ)
    → is_permitted mode privileges pte ≡ rights mode privileges pte
unfolding is_permitted
is_permitted_lem access_read kernel_mode pte = refl
is_permitted_lem access_write kernel_mode pte = refl
is_permitted_lem access_read user_mode pte = refl
is_permitted_lem access_write user_mode pte = elim (Bool-cases (has_bit 2 pte)) [
  | inl e ↦ rw e refl
  | inr e ↦ rw e refl
]

-- What `translatePageTable` does, by case.
pub data Translated (s : Paging) (virtual : ℕ) (mode : ReadWrite) (privileges : PrivilegeLevel)
    (r : Run (ℕ × Paging)) : Type 0 where
  hit :
      (pte : ℕ) (s' : Paging)
      → mapping s (page_directory_index virtual) (page_table_index virtual) ≡ some pte
      → rights mode privileges pte ≡ true
      → r ≡ done ((address_bits pte + offset virtual) % 2 ^ 32, s')
      → IsPaging s'
      → Changed
          (mapping s)
          (page_directory_index virtual)
          (page_table_index virtual)
          (some (set_bit 32 pte))
          (mapping s')
      → Translated s virtual mode privileges r
  refused :
      (pte : ℕ)
      → mapping s (page_directory_index virtual) (page_table_index virtual) ≡ some pte
      → rights mode privileges pte ≡ false
      → r ≡ done (invalid_address, s)
      → Translated s virtual mode privileges r
  unmapped :
      mapping s (page_directory_index virtual) (page_table_index virtual) ≡ none
      → r ≡ done (invalid_address, s)
      → Translated s virtual mode privileges r

-- In well-formed page tables translatePageTable ends for every 32-bit address. If the page is mapped and
-- the entry allows the access, it returns the frame's address plus the offset, sets the accessed bit of
-- the entry, changes no other page and keeps the tables well formed. If not, it returns INVALID_ADDRESS
-- and changes nothing.
pub translate_page_table-Translated :
    (virtual : ℕ) (mode : ReadWrite) (privileges : PrivilegeLevel) (s : Paging)
    → IsPaging s
    → virtual < 2 ^ 32
    → Translated s virtual mode privileges (translate_page_table virtual mode privileges s)
unfolding translate_page_table
translate_page_table-Translated virtual mode privileges s is word =
    let d = page_directory_index virtual in
    let i = page_table_index virtual in
    let bound : d < entries_per_table = omega arith in
    let there = ne→== s.cr3 null is.has_directory in
    elim (Bool-cases (is_present (current s d))) [
      | inr absent ↦ unmapped (rw absent refl) (rw (there, absent) refl)
      | inl present ↦
          let (t, here) = is.paged.leads d bound present in
          elim (Bool-cases (is_present (t i))) [
            | inr absent ↦
                unmapped (rw (present, here, absent) refl) (rw (there, present, here, absent) refl)
            | inl shows ↦
                let maps : mapping s d i ≡ some (t i) = rw (present, here, shows) refl in
                let permit = is_permitted_lem mode privileges (t i) in
                elim (Bool-cases (rights mode privileges (t i))) [
                  | inr denied ↦
                      refused (t i) maps denied
                        (rw (there, present, here, shows, permit, denied) refl)
                  | inl allowed ↦
                      let (s', runs, is', changed) =
                        write_entry-Changed s d (address_bits (current s d)) i (set_bit 32 (t i)) t
                          is bound present refl here in
                      let still : shown (set_bit 32 (t i)) ≡ some (set_bit 32 (t i)) =
                        rw ((accessed_lem (t i)).0, shows) refl in
                      hit (t i) s' maps allowed
                        (rw (there, present, here, shows, permit, allowed, runs) refl) is'
                        (subst (λ z. Changed (mapping s) d i z (mapping s')) still changed)
                ]
          ]
    ]

-- What a page that is mapped for `mode` and `privileges` allows.
abbrev pub granted :
    (mode : ReadWrite) (privileges : PrivilegeLevel) → ReadWrite → PrivilegeLevel → Bool
granted mode privileges access_read kernel_mode = true
granted mode privileges access_write kernel_mode = true
granted mode privileges access_read user_mode = is_user privileges
granted mode privileges access_write user_mode = is_write mode && is_user privileges

granted_lem :
    (p : ℕ) (mode : ReadWrite) (privileges : PrivilegeLevel) (mode' : ReadWrite)
    (privileges' : PrivilegeLevel)
    → offset p ≡ 0
    → rights mode' privileges' (make_pte p mode privileges)
      ≡ granted mode privileges mode' privileges'
granted_lem p mode privileges access_read kernel_mode ok = refl
granted_lem p mode privileges access_write kernel_mode ok = refl
granted_lem p mode privileges access_read user_mode ok = (make_pte_lem p mode privileges ok).3
granted_lem p mode privileges access_write user_mode ok =
    rw ((make_pte_lem p mode privileges ok).2, (make_pte_lem p mode privileges ok).3) refl

translate_mapped :
    (pte virtual : ℕ) (mode : ReadWrite) (privileges : PrivilegeLevel) (s : Paging)
    → mapping s (page_directory_index virtual) (page_table_index virtual) ≡ some pte
    → Translated s virtual mode privileges (translate_page_table virtual mode privileges s)
    → (s' : Paging) × (translate_page_table virtual mode privileges s
        ≡ done (
          (if rights mode privileges pte
              then (address_bits pte + offset virtual) % 2 ^ 32
              else invalid_address),
          s',
        ))
translate_mapped pte virtual mode privileges s maps (hit pte' s' maps' allowed runs is' changed) =
    let same : pte' ≡ pte = cc in
    (
      s',
      subst
          (λ z.
            translate_page_table virtual mode privileges s
            ≡ done (
              (if rights mode privileges z
                  then (address_bits z + offset virtual) % 2 ^ 32
                  else invalid_address),
              s',
            ))
          same (rw allowed runs),
    )
translate_mapped pte virtual mode privileges s maps (refused pte' maps' denied runs) =
    let same : pte' ≡ pte = cc in
    (
      s,
      subst
          (λ z.
            translate_page_table virtual mode privileges s
            ≡ done (
              (if rights mode privileges z
                  then (address_bits z + offset virtual) % 2 ^ 32
                  else invalid_address),
              s,
            ))
          same (rw denied runs),
    )
translate_mapped pte virtual mode privileges s maps (unmapped maps' runs) = absurd (cc)

-- After mapPage of an aligned page and frame, with an aligned address that is not in use from
-- posix_memalign, each address of the page translates to the frame's address plus the offset if the
-- mapping grants the access, and to INVALID_ADDRESS otherwise.
pub map_page-translate :
    (a v p o : ℕ) (mode : ReadWrite) (privileges : PrivilegeLevel) (mode' : ReadWrite)
    (privileges' : PrivilegeLevel) (s : Paging)
    → IsPaging s
    → v < 2 ^ 32
    → p < 2 ^ 32
    → offset v ≡ 0
    → offset p ≡ 0
    → o < 2 ^ 12
    → a % 2 ^ 12 ≡ 0
    → s.tables a ≡ none
    → (s1 : Paging) × (s2 : Paging) × (map_page (some a) v p mode privileges s ≡ done (pos 0, s1))
      × (translate_page_table (v + o) mode' privileges' s1
          ≡ done
              ((if granted mode privileges mode' privileges' then p + o else invalid_address), s2))
map_page-translate a v p o mode privileges mode' privileges' s is v_word p_word v_ok p_ok o_small
      aligned free =
    let pte = make_pte p mode privileges in
    let (s1, runs, is1, changed) =
      map_page-Mapped a v p mode privileges s is v_word v_ok p_ok aligned free in
    let word : v + o < 2 ^ 32 = omega arith in
    let d_same : page_directory_index (v + o) ≡ page_directory_index v = omega arith in
    let i_same : page_table_index (v + o) ≡ page_table_index v = omega arith in
    let bound : page_directory_index v < entries_per_table = omega arith in
    let at : mapping s1 (page_directory_index v) (page_table_index v) ≡ some pte =
      changed (page_directory_index v) bound (page_table_index v) (omega arith)
      ∙ rw (==_self (page_directory_index v), ==_self (page_table_index v)) refl in
    let maps : mapping s1 (page_directory_index (v + o)) (page_table_index (v + o)) ≡ some pte =
      subst (λ z. mapping s1 z (page_table_index (v + o)) ≡ some pte) (sym d_same)
        (subst (λ z. mapping s1 (page_directory_index v) z ≡ some pte) (sym i_same) at) in
    let (s2, translates) =
      translate_mapped pte (v + o) mode' privileges' s1 maps
        (translate_page_table-Translated (v + o) mode' privileges' s1 is1 word) in
    let sum : (address_bits pte + offset (v + o)) % 2 ^ 32 ≡ p + o =
      ap (λ z. (z + offset (v + o)) % 2 ^ 32) (make_pte_lem p mode privileges p_ok).1
      ∙ omega arith in
    (
      s1,
      s2,
      runs,
      translates
          ∙ ap
              (λ z.
                let r : ℕ × Paging =
                  ((if rights mode' privileges' pte then z else invalid_address), s2) in
                done r)
              sum
          ∙ ap (λ z. let r : ℕ × Paging = ((if z then p + o else invalid_address), s2) in done r)
              (granted_lem p mode privileges mode' privileges' p_ok),
    )
