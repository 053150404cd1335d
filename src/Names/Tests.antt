-- ===== src/Names/Tests.antt =====
-- Runs of linux-0.11/fs/namei.c and fs/open.c.
use learn_linux.Common.{
  ℕ, zero, suc, ◌≡◌, refl, true, false, ◌&&◌, ◌||◌, Option, none, some, List, [], ◌∷◌, ◌==◌,
  if◌then◌else◌, arith,
}
use learn_linux.Inodes.{
  DInode, Inode, no_d_inode, no_inode, DirEntry, Volume, Fs, Outcome, done, no_inodes, bad_put,
  stops, never_ends, no_fuel, ◌>>◌,
}
use learn_linux.Names.{
  is_dotdot, name_len, Caller, find_entry, is_match, shorten, search_entries, same_bytes,
}
use learn_linux.Names.Adding.{byte_at, add_entry, add_from, number_entry}
use learn_linux.Names.Dirs.{no_entries, empty_dir, sys_mkdir, sys_rmdir}
use learn_linux.Names.Walk.{next_name, walk, get_dir, namei, basename}
use learn_linux.Inodes.Making.{new_inode}
use learn_linux.Inodes.Table.{
  search_empty, write_inode, get_empty_inode, truncate, free_inode, iput, find_inode, iget_loop,
  iget,
}
use learn_linux.Bitmap.{Map, find_spot, spot_in, find_first_zero, zero_in_words, low_zero}
use learn_linux.Names.Calls.{sys_unlink, sys_link}
use learn_linux.Names.Making.{open_namei, OpenFlag}
use learn_linux.Names.Files.{sys_chdir}
use learn_linux.Names.Found.{FindsAt, add_entry-find_entry}
use learn_linux.Names.Twins.{is_text, NamesDiffer, DifferEnd, number_entry-DifferEnd}
use learn_linux.Names.Tasks.{
  NameTask, NameCall, unlink, link, open_file, close_file, mkdir, rmdir, chdir, run_calls, Counted,
  CountedEnd,
}
use learn_linux.Names.History.{run_calls-CountedEnd}

-- A root directory with the entries ".", ".." and "a", and the file "a"
abbrev root_inode : Inode
root_inode = record no_inode {
  d = record no_d_inode { i_mode = 16877; i_size = 48; i_nlinks = 2 };
  i_dev = 1;
  i_num = 1;
  i_count = 2;
}

abbrev entry_of : (num : ℕ) (name : List ℕ) → DirEntry
entry_of num name = record { inode = num; name = byte_at name }

abbrev root_block : ℕ → DirEntry
root_block i =
    if i == 0
    then entry_of 1 (46 ∷ [])
    else if i == 1
    then entry_of 1 (46 ∷ 46 ∷ [])
    else if i == 2
    then entry_of 2 (97 ∷ [])
    else entry_of 0 []

abbrev file_a : DInode
file_a = record no_d_inode { i_mode = 33188; i_nlinks = 1 }

abbrev used_map : Map
used_map = record { bits = λ j. j == 0 || j == 1 || j == 2; b_dirt = false }

abbrev volume : Volume
volume = record {
  s_imount = some 0;
  s_ninodes = 100;
  s_imap = λ i. if i == 0 then some used_map else none;
}

abbrev small_table : ℕ → Inode
small_table zero = root_inode
small_table (suc p) = no_inode

abbrev small_fs : Fs
small_fs = record {
  inode_table = small_table;
  last_inode = 0;
  d_inode = λ dev num. if num == 2 then file_a else no_d_inode;
  block = λ dev num k. if num == 1 && k == 0 then some root_block else none;
  super = λ dev. if dev == 1 then some volume else none;
  mounted = λ p. none;
  room = λ dev num k. true;
}

abbrev superuser : Caller
superuser = record { euid = 0; egid = 0; umask = 18; root = 0; pwd = 0; now = 5 }

abbrev first_task : NameTask
first_task = record { task_root = 0; task_pwd = 0; files = [] }

abbrev creating : OpenFlag
creating = record { accmode = 2; creat = true; excl = false; trunc = true }

-- The directory /d is made, the task works in it, opens /a, makes and opens b there, links /c to /a,
-- removes /a, cannot remove /d, and closes what it has opened.
abbrev some_calls : List (Caller × NameCall)
some_calls =
    (superuser, mkdir (47 ∷ 100 ∷ []) 493)
    ∷ (superuser, chdir (47 ∷ 100 ∷ []))
    ∷ (superuser, open_file true (47 ∷ 97 ∷ []) creating 420)
    ∷ (superuser, open_file true (98 ∷ []) creating 420)
    ∷ (superuser, link (47 ∷ 97 ∷ []) (47 ∷ 99 ∷ []))
    ∷ (superuser, unlink (46 ∷ 46 ∷ 47 ∷ 97 ∷ []))
    ∷ (superuser, rmdir (47 ∷ 100 ∷ []))
    ∷ (superuser, close_file 1)
    ∷ (superuser, close_file 0)
    ∷ []

small_fs-Counted : Counted (λ j. 0) first_task small_fs
small_fs-Counted zero = refl
small_fs-Counted (suc j) = let apart : (0 == suc j) ≡ false = ground arith in rw apart refl

run_calls-CountedEnd_example : CountedEnd (λ j. 0) (run_calls some_calls first_task small_fs)
run_calls-CountedEnd_example =
    run_calls-CountedEnd (λ j. 0) some_calls first_task small_fs (λ j. omega arith) (omega arith)
      small_fs-Counted

abbrev task_after : Outcome NameTask → Option NameTask
task_after (done t s) = some t
task_after no_inodes = none
task_after bad_put = none
task_after stops = none
task_after never_ends = none
task_after no_fuel = none

-- The calls are done: the task works in the inode 1 of the table and has no file open.
calls_are_done :
    task_after (run_calls some_calls first_task small_fs)
    ≡ some (record { task_root = 0; task_pwd = 1; files = [] })
unfolding run_calls sys_unlink sys_link sys_mkdir sys_rmdir open_namei sys_chdir basename find_entry
    is_match shorten search_entries same_bytes byte_at add_entry add_from no_entries empty_dir
    next_name walk get_dir namei new_inode search_empty write_inode get_empty_inode truncate
    free_inode iput find_inode iget_loop iget find_spot spot_in find_first_zero zero_in_words
    low_zero
calls_are_done = refl

-- b is not in the root directory, and gets the place after a.
abbrev with_b : Outcome (Option ℕ) → Fs
with_b (done o s) = s
with_b no_inodes = small_fs
with_b bad_put = small_fs
with_b stops = small_fs
with_b never_ends = small_fs
with_b no_fuel = small_fs

abbrev fs_with_b : Fs
fs_with_b = with_b (add_entry superuser 0 (98 ∷ []) small_fs)

b_is_unknown : find_entry superuser 0 (98 ∷ []) small_fs ≡ done (0, none) small_fs
unfolding find_entry shorten search_entries is_match same_bytes byte_at
b_is_unknown = refl

b_is_added : add_entry superuser 0 (98 ∷ []) small_fs ≡ done (some 3) fs_with_b
unfolding add_entry add_from shorten byte_at
b_is_added = refl

b_is_plain : is_dotdot (shorten name_len (98 ∷ [])) ≡ false
unfolding shorten
b_is_plain = refl

add_entry-find_entry_example :
    FindsAt 0 3 ((number_entry 0 3 7 >> find_entry superuser 0 (98 ∷ [])) fs_with_b)
add_entry-find_entry_example =
    add_entry-find_entry superuser 0 (98 ∷ []) 7 3 small_fs fs_with_b b_is_plain refl (omega arith)
      b_is_unknown b_is_added

-- A directory with the entry "." alone
abbrev one_table : ℕ → Inode
one_table p = record root_inode { d = record root_inode.d { i_size = 16 } }

abbrev one_fs : Fs
one_fs = record small_fs { inode_table = one_table }

abbrev one_with_b : Fs
one_with_b = with_b (add_entry superuser 0 (98 ∷ []) one_fs)

one_fs-NamesDiffer : NamesDiffer 0 one_fs
one_fs-NamesDiffer name j k text lt1 lt2 h1 h2 = omega arith

b_is_not_there : find_entry superuser 0 (98 ∷ []) one_fs ≡ done (0, none) one_fs
unfolding find_entry shorten search_entries is_match same_bytes byte_at
b_is_not_there = refl

b_is_second : add_entry superuser 0 (98 ∷ []) one_fs ≡ done (some 1) one_with_b
unfolding add_entry add_from shorten byte_at
b_is_second = refl

b_is_text : is_text (98 ∷ []) ≡ true
unfolding is_text
b_is_text = refl

number_entry-DifferEnd_example : DifferEnd 0 (number_entry 0 1 7 one_with_b)
number_entry-DifferEnd_example =
    number_entry-DifferEnd superuser 0 (98 ∷ []) 7 1 one_fs one_with_b b_is_text b_is_plain refl
      one_fs-NamesDiffer b_is_not_there b_is_second
