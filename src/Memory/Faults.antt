-- ===== src/Memory/Faults.antt =====
-- mm/memory.c: what the two page faults do to the tables of the current task.
use learn_linux.Common.{ℕ, ◌+◌, ◌*◌, ◌/◌, ◌%◌, Bool, ◌&&◌, not, ◌==◌, leb, if◌then◌else◌}
use learn_linux.Memory.{
  Mm, oom, M, pure, ◌>>=◌, ◌>>◌, load, store, low_mem, map_nr, set_count, copy_page, get_free_page,
  free_page,
}
use learn_linux.Memory.Tables.{present, frame, writable, user_entry, dir_entry}

-- (address >> 12) & 0x3ff, as an offset of words; (address >> 10) & 0xffc is the same number
abbrev pub table_offset : ℕ → ℕ
table_offset address = address / 4096 % 1024 * 4

-- page_table[(address >> 12) & 0x3ff] = page | 7
abbrev pub enter : (page_table page address : ℕ) → M ℕ
enter page_table page address = do
  store (page_table + table_offset address) (user_entry page)
  pure page

-- The same in a new table, or 0 if there is no page for it.
abbrev pub enter_new : (page address : ℕ) → M ℕ
enter_new page address = do
  tmp ← get_free_page
  if tmp == 0 then pure 0 else do store (dir_entry address) (user_entry tmp); enter tmp page address

-- The two complaints that are printed change no state and are left out.
unfoldable pub put_page : (page address : ℕ) → M ℕ
unfolding get_free_page
put_page page address = do
  e ← load (dir_entry address)
  if present e then enter (frame e) page address else enter_new page address

-- The page is the task's own, and is made writable.
abbrev pub is_private : ℕ → Mm → Bool
is_private old_page s = leb low_mem old_page && s.mem_map (map_nr old_page) == 1

-- mem_map[i]--
abbrev pub count_less : ℕ → M (Unit {0})
count_less i s = set_count i ((s.mem_map i + 255) % 256) s

-- A private copy of `old_page` is entered at `table_entry`.
abbrev pub give_copy : (table_entry old_page : ℕ) → M (Unit {0})
give_copy table_entry old_page = do
  new_page ← get_free_page
  if new_page == 0 then (λ _. oom) else do
    if leb low_mem old_page then count_less (map_nr old_page) else pure tt
    store table_entry (user_entry new_page)
    copy_page old_page new_page

unfoldable pub un_wp_page : (table_entry : ℕ) → M (Unit {0})
unfolding get_free_page
un_wp_page table_entry s =
    let old_page = frame (s.word table_entry) in
    if is_private old_page s
    then store table_entry (writable (s.word table_entry)) s
    else give_copy table_entry old_page s

-- The entry of `address` in the table of its directory entry.
unfoldable pub do_wp_page : (address : ℕ) → M (Unit {0})
unfolding un_wp_page
do_wp_page address = do
  dir ← load (dir_entry address)
  un_wp_page (table_offset address + frame dir)

-- (3 & e) == 1: present and not writable
unfoldable pub write_verify : (address : ℕ) → M (Unit {0})
unfolding un_wp_page
write_verify address = do
  page ← load (dir_entry address)
  if not (present page) then pure tt else do
    e ← load (frame page + table_offset address)
    if e % 4 == 1 then un_wp_page (frame page + table_offset address) else pure tt

unfoldable pub get_empty_page : (address : ℕ) → M (Unit {0})
unfolding put_page free_page
get_empty_page address = do
  tmp ← get_free_page
  if tmp == 0 then (λ _. oom) else do
    put ← put_page tmp address
    if put == 0 then (do free_page tmp; (λ _. oom)) else pure tt
