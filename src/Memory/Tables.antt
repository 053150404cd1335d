-- ===== src/Memory/Tables.antt =====
-- mm/memory.c: `free_page_tables` and `copy_page_tables`. A page directory entry covers 4 MB and
-- points to a table of 1024 entries. `invalidate()`, which flushes the processor's own copy of the
-- tables, has no effect on this state.
use learn_linux.Common.{
  ℕ, zero, suc, ◌+◌, ◌-◌, ◌*◌, ◌/◌, ◌%◌, ◌^◌, Bool, false, true, ◌||◌, not, ◌==◌, ltb,
  if◌then◌else◌,
}
use learn_linux.Common.Int.{ℤ, pos, neg}
use learn_linux.Memory.{
  done, panic, M, pure, ◌>>=◌, ◌>>◌, load, store, low_mem, map_nr, set_count, get_free_page,
  free_page,
}

-- 1 & e
abbrev pub present : ℕ → Bool
present e = e % 2 == 1

-- 0xfffff000 & e
abbrev pub frame : ℕ → ℕ
frame e = e / 4096 * 4096

-- e & ~2
abbrev pub read_only : ℕ → ℕ
read_only e = if e / 2 % 2 == 1 then e - 2 else e

-- e | 2
abbrev pub writable : ℕ → ℕ
writable e = if e / 2 % 2 == 1 then e else e + 2

-- e | 7
abbrev pub user_entry : ℕ → ℕ
user_entry e = e / 8 * 8 + 7

-- (address >> 20) & 0xffc, the address of the directory entry
abbrev pub dir_entry : ℕ → ℕ
dir_entry address = address / 2 ^ 22 % 1024 * 4

-- (size + 0x3fffff) >> 22, in 32 bits
abbrev pub dirs_of : ℕ → ℕ
dirs_of size = (size + 0x3fffff) % 2 ^ 32 / 2 ^ 22

abbrev free_entry : ℕ → M (Unit {0})
free_entry pg_table = do
  e ← load pg_table
  if present e then free_page (frame e) else pure tt
  store pg_table 0

unfoldable pub free_entries : (nr pg_table : ℕ) → M (Unit {0})
unfolding free_page
free_entries zero pg_table = pure tt
free_entries (suc nr) pg_table = do free_entry pg_table; free_entries nr (pg_table + 4)

abbrev free_dir : ℕ → M (Unit {0})
free_dir dir = do
  e ← load dir
  if not (present e)
      then pure tt
      else do free_entries 1024 (frame e); free_page (frame e); store dir 0

unfoldable pub free_dirs : (size dir : ℕ) → M (Unit {0})
unfolding free_entries
free_dirs zero dir = pure tt
free_dirs (suc size) dir = do free_dir dir; free_dirs size (dir + 4)

unfoldable pub free_page_tables : (from size : ℕ) → M ℤ
unfolding free_dirs
free_page_tables from size s =
    if not (from % 0x400000 == 0)
    then panic
    else if from == 0
    then panic
    else (free_dirs (dirs_of size) (dir_entry from) >> pure (pos 0)) s

-- mem_map[i]++
abbrev pub count_more : ℕ → M (Unit {0})
count_more i s = set_count i ((s.mem_map i + 1) % 256) s

-- A page above the kernel's megabyte is shared: read-only on both sides, and counted once more.
abbrev pub share_entry : (from_entry this_page : ℕ) → M (Unit {0})
share_entry from_entry this_page = do store from_entry this_page; count_more (map_nr this_page)

unfoldable pub copy_entry : (from_entry to_entry : ℕ) → M (Unit {0})
copy_entry from_entry to_entry = do
  e ← load from_entry
  if not (present e) then pure tt else do
    store to_entry (read_only e)
    if ltb low_mem (read_only e) then share_entry from_entry (read_only e) else pure tt

unfoldable pub copy_entries : (nr from_entry to_entry : ℕ) → M (Unit {0})
copy_entries zero from_entry to_entry = pure tt
copy_entries (suc nr) from_entry to_entry = do
  copy_entry from_entry to_entry
  copy_entries nr (from_entry + 4) (to_entry + 4)

abbrev pub copy_table : (nr from_page_table to_dir : ℕ) → M Bool
copy_table nr from_page_table to_dir = do
  to_page_table ← get_free_page
  if to_page_table == 0 then pure false else do
    store to_dir (user_entry to_page_table)
    copy_entries nr from_page_table to_page_table
    pure true

-- One round of the loop over the directory; false where it returns -1.
abbrev pub copy_dir : (nr from_dir to_dir : ℕ) → M Bool
copy_dir nr from_dir to_dir s =
    if present (s.word to_dir)
    then panic
    else if not (present (s.word from_dir))
    then done true s
    else copy_table nr (frame (s.word from_dir)) to_dir s

unfoldable pub copy_dirs : (nr size from_dir to_dir : ℕ) → M ℤ
unfolding copy_entry copy_entries get_free_page
copy_dirs nr zero from_dir to_dir = pure (pos 0)
copy_dirs nr (suc size) from_dir to_dir = do
  more ← copy_dir nr from_dir to_dir
  if more then copy_dirs nr size (from_dir + 4) (to_dir + 4) else pure (neg 1)

unfoldable pub copy_page_tables : (from to size : ℕ) → M ℤ
unfolding copy_dirs
copy_page_tables from to size s =
    if not (from % 0x400000 == 0) || not (to % 0x400000 == 0)
    then panic
    else copy_dirs (if from == 0 then 0xA0 else 1024) (dirs_of size) (dir_entry from) (dir_entry to)
        s
