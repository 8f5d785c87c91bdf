-- ===== src/PageTable/Tests.antt =====
-- The page tables that main.c of vika7 sets up, and calls on them.
use sty_linux.Base.{
  ℕ, ◌+◌, ◌≡◌, refl, List, [], ◌∷◌, Run, done, ◌>>=◌, none, some, Option, pos, negsuc, ℤ, update,
}
use sty_linux.Base.Bits.{set_bit, clear_bit}
use sty_linux.PageTable.{
  Paging, Entries, write_entry, make_pte, map_page, is_permitted, translate_page_table,
  all_unmapped, unmap_page, ReadWrite, access_read, access_write, PrivilegeLevel, user_mode,
  kernel_mode,
}

-- 0x02000000
abbrev frame : ℕ
frame = 33554432

-- The directory stands at 0x1000, the tables at 0x2000 and 0x3000.
abbrev pub directory : Entries
directory = update (update (λ _. 0) 0 8193) 64 12289

abbrev pub table1 : Entries
table1 =
    update
      (update (update (update (λ _. 0) 0 (frame + 7)) 1 (frame + 4096 + 7)) 2 (frame + 8192 + 5)) 3
      (frame + 12288 + 5)

abbrev pub table2 : Entries
table2 =
    update (update (update (λ _. 0) 0 (frame + 65536 + 7)) 1 (frame + 131072 + 1)) 1023
      (frame + 196608 + 1)

abbrev pub board : Paging
board = record {
  cr3 = 4096;
  directories = λ _. directory;
  tables = update (update (λ _. none) 8192 (some table1)) 12288 (some table2);
}

-- The answers to a list of accesses, one after the other.
answers : List (ℕ × ReadWrite × PrivilegeLevel) → Paging → Run (List ℕ)
answers [] s = done []
answers ((a, mode, privileges) ∷ xs) s =
    translate_page_table a mode privileges s >>= λ (r, s1). answers xs s1 >>= λ rs. done (r ∷ rs)

main_accesses :
    answers
      ((0, access_read, kernel_mode)
        ∷ (4096, access_write, user_mode)
        ∷ (8192, access_write, user_mode)
        ∷ (12288, access_read, user_mode)
        ∷ (268439552, access_read, user_mode)
        ∷ (272625682, access_write, kernel_mode)
        ∷ (4293918975, access_read, kernel_mode)
        ∷ [])
      board
    ≡ done (
        frame
        ∷ (frame + 4096)
        ∷ 4294967295
        ∷ (frame + 12288)
        ∷ 4294967295
        ∷ (frame + 196608 + 18)
        ∷ 4294967295
        ∷ [])
unfolding answers write_entry is_permitted translate_page_table set_bit
main_accesses = refl

-- A page in a new table, used, unmapped, and unmapped once more.
one_page : Run (ℤ × ℕ × ℤ × ℤ × Option Entries)
one_page =
    map_page (some 16384) 16793600 (frame + 16384) access_write user_mode board >>= λ (x, s1).
    translate_page_table 16796348 access_write user_mode s1 >>= λ (y, s2).
    unmap_page 16793600 s2 >>= λ (z, s3).
    unmap_page 16793600 s3 >>= λ (w, s4). done (x, y, z, w, s4.tables 16384)

one_page_lem : one_page ≡ done (pos 0, frame + 16384 + 2748, pos 0, negsuc 0, none)
unfolding one_page map_page make_pte write_entry is_permitted translate_page_table all_unmapped
    unmap_page set_bit clear_bit
one_page_lem = refl
