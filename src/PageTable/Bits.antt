-- ===== src/PageTable/Bits.antt =====
-- The bits of page table entries of page_table.c.
use sty_linux.Base.{ℕ, ◌%◌, ◌^◌, true, false, ◌≡◌, arith}
use sty_linux.Base.Bits.{has_bit, set_bit, clear_bit}
use sty_linux.PageTable.{
  is_present, address_bits, make_pte, ReadWrite, access_read, access_write, PrivilegeLevel,
  user_mode, kernel_mode, is_write, is_user,
}

-- The address of an aligned table is kept beside the present bit.
pub present_table :
    (a : ℕ) → a % 2 ^ 12 ≡ 0 → (is_present (set_bit 1 a) ≡ true) × (address_bits (set_bit 1 a) ≡ a)
unfolding set_bit
present_table a h = (ground arith, ground arith)

pub clear_present : (e : ℕ) → is_present (clear_bit 1 e) ≡ false
unfolding clear_bit
clear_present e = ground arith

-- What an entry made for an aligned frame says.
pub make_pte_lem :
    (p : ℕ) (mode : ReadWrite) (privileges : PrivilegeLevel)
    → p % 2 ^ 12 ≡ 0
    → (is_present (make_pte p mode privileges) ≡ true)
      × (address_bits (make_pte p mode privileges) ≡ p)
      × (has_bit 2 (make_pte p mode privileges) ≡ is_write mode)
      × (has_bit 4 (make_pte p mode privileges) ≡ is_user privileges)
unfolding make_pte set_bit
make_pte_lem p access_read user_mode h = (ground arith, ground arith, ground arith, ground arith)
make_pte_lem p access_read kernel_mode h = (ground arith, ground arith, ground arith, ground arith)
make_pte_lem p access_write user_mode h = (ground arith, ground arith, ground arith, ground arith)
make_pte_lem p access_write kernel_mode h = (ground arith, ground arith, ground arith, ground arith)

-- The accessed bit changes nothing else.
pub accessed_lem :
    (e : ℕ)
    → (is_present (set_bit 32 e) ≡ is_present e)
      × (address_bits (set_bit 32 e) ≡ address_bits e)
      × (has_bit 2 (set_bit 32 e) ≡ has_bit 2 e)
      × (has_bit 4 (set_bit 32 e) ≡ has_bit 4 e)
      × (has_bit 32 (set_bit 32 e) ≡ true)
unfolding set_bit
accessed_lem e = (ground arith, ground arith, ground arith, ground arith, ground arith)
