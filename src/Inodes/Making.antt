-- ===== src/Inodes/Making.antt =====
-- new_inode of linux-0.11/fs/bitmap.c for a caller with the user and the group.
use learn_linux.Common.{ℕ, ◌+◌, ◌*◌, true, Option, none, some, ltb, if◌then◌else◌}
use learn_linux.Bitmap.{Map, Spot, find_spot}
use learn_linux.Inodes.{Inode, Volume, FsRun, pure, ◌>>=◌, ◌>>◌, halt, change}
use learn_linux.Inodes.Table.{get_empty_inode, iput, write_imap}

abbrev pub init_inode : (now euid egid dev num : ℕ) → Inode → Inode
init_inode now euid egid dev num x = record x {
  d = record x.d { i_nlinks = 1; i_uid = euid; i_gid = egid; i_mtime = now };
  i_dev = dev;
  i_dirt = true;
  i_num = num;
  i_atime = now;
  i_ctime = now;
}

abbrev pub give_up : (now p : ℕ) → FsRun (Option ℕ)
give_up now p = do iput now p; pure none

-- The inode has one use already.
abbrev pub make_inode : (now euid egid dev p num : ℕ) → Volume → Map → FsRun (Option ℕ)
make_inode now euid egid dev p num v m = do
  write_imap dev num true v m
  change p (init_inode now euid egid dev num)
  pure (some p)

abbrev pub take_number : (now euid egid dev p : ℕ) → Volume → Option Spot → FsRun (Option ℕ)
take_number now euid egid dev p v none = give_up now p
take_number now euid egid dev p v (some s) =
    if ltb v.s_ninodes (s.j + s.i * 8192)
    then give_up now p
    else if s.map.bits s.j
    then halt
    else make_inode now euid egid dev p (s.j + s.i * 8192) v s.map

abbrev pub number_on : (now euid egid dev p : ℕ) → Option Volume → FsRun (Option ℕ)
number_on now euid egid dev p none = halt
number_on now euid egid dev p (some v) = take_number now euid egid dev p v (find_spot v.s_imap 0 8)

abbrev pub number_inode : (now euid egid dev p : ℕ) → FsRun (Option ℕ)
number_inode now euid egid dev p s = number_on now euid egid dev p (s.super dev) s

unfoldable pub new_inode : (now euid egid dev : ℕ) → FsRun (Option ℕ)
unfolding get_empty_inode iput find_spot
new_inode now euid egid dev = do p ← get_empty_inode; number_inode now euid egid dev p
