-- ===== src/Names/Dirs.antt =====
-- sys_mkdir, empty_dir and sys_rmdir of linux-0.11/fs/namei.c.

use learn_linux.Common.{
  ℕ, zero, suc, ◌+◌, ◌/◌, ◌%◌, Bool, true, false, not, ◌&&◌, ◌||◌, Option, none, some, List, [],
  ◌∷◌, ◌==◌, ltb, leb, if◌then◌else◌,
}
use learn_linux.Common.Int.{ℤ, pos, neg}
use learn_linux.Inodes.{Inode, DirEntry, Fs, FsRun, pure, ◌>>=◌, ◌>>◌, halt, get_inode, change}
use learn_linux.Inodes.Table.{is_dir, iput, iget}
use learn_linux.Inodes.Making.{new_inode}
use learn_linux.Names.{Caller, find_entry}
use learn_linux.Names.Walk.{basename}
use learn_linux.Names.Adding.{zero_block, set_block, write_entry, byte_at, add_entry, number_entry}
use learn_linux.Names.Calls.{
  enoent, eexist, enotdir, enospc, eperm, put_all, get_at, number_new, is_sticky,
}
use learn_linux.Names.Making.{new_beside, one_link_less, masked, super_call}

abbrev pub enotempty : ℤ
enotempty = neg 39

abbrev pub init_dir : (now : ℕ) → Inode → Inode
init_dir now x = record x {
  d = record x.d { i_size = 32; i_mtime = now };
  i_atime = now;
  i_dirt = true;
}

-- new_block for the first zone: a block with zeros, or none
abbrev pub first_zone_block : (p : ℕ) → FsRun Bool
first_zone_block p s =
    let i = s.inode_table p in
    (if s.room i.i_dev i.i_num 0 then set_block p 0 zero_block >> pure true else pure false) s

abbrev pub dot : (num : ℕ) → DirEntry
dot num = record { inode = num; name = byte_at (46 ∷ []) }

abbrev pub dotdot : (num : ℕ) → DirEntry
dotdot num = record { inode = num; name = byte_at (46 ∷ 46 ∷ []) }

abbrev pub is_made : (mode : ℕ) → Inode → Inode
is_made mode x = record x { d = record x.d { i_nlinks = 2; i_mode = 16384 + mode }; i_dirt = true }

abbrev pub one_link_more : Inode → Inode
one_link_more x = record x { d = record x.d { i_nlinks = (x.d.i_nlinks + 1) % 256 }; i_dirt = true }

-- Where the directory has no room for the entry, the block is freed, and iput of the new inode, which has
-- no links, frees it again: free_block panics.
abbrev pub mkdir_added : Caller → (dir p : ℕ) → Option ℕ → FsRun ℤ
mkdir_added who dir p none = iput who.now dir >> halt
mkdir_added who dir p (some i) = do
  number_new dir i p
  change dir one_link_more
  put_all who (dir ∷ p ∷ []) (pos 0)

abbrev pub fill_dir : Caller → (mode dir p : ℕ) → (base : List ℕ) → (room : Bool) → FsRun ℤ
fill_dir who mode dir p base false = do
  iput who.now dir
  change p one_link_less
  put_all who (p ∷ []) enospc
fill_dir who mode dir p base true = do
  i ← get_inode p
  d ← get_inode dir
  write_entry p 0 (dot i.i_num)
  write_entry p 1 (dotdot d.i_num)
  change p (is_made (masked who mode))
  at ← add_entry who dir base
  mkdir_added who dir p at

abbrev pub mkdir_made : Caller → (mode dir : ℕ) → (base : List ℕ) → Option ℕ → FsRun ℤ
mkdir_made who mode dir base none = put_all who (dir ∷ []) enospc
mkdir_made who mode dir base (some p) = do
  change p (init_dir who.now)
  room ← first_zone_block p
  fill_dir who mode dir p base room

abbrev pub mkdir_found : Caller → (mode : ℕ) → (base : List ℕ) → ℕ × Option ℕ → FsRun ℤ
mkdir_found who mode base (dir, some i) = put_all who (dir ∷ []) eexist
mkdir_found who mode base (dir, none) = do p ← new_beside who dir; mkdir_made who mode dir base p

unfoldable pub sys_mkdir : Caller → (path : List ℕ) → (mode : ℕ) → FsRun ℤ
unfolding basename find_entry new_inode add_entry iput byte_at
sys_mkdir who path mode = super_call who path (mkdir_found who mode (basename path path))

-- The entries from nr on, of which n are left at most, have no inode.
unfoldable pub no_entries : (block : ℕ → Option (ℕ → DirEntry)) (len n nr : ℕ) → Bool
no_entries block len zero nr = true
no_entries block len (suc n) nr =
    let entry = block (nr / 64) in
    let next : ℕ = elim entry [ none ↦ nr + 64 | some b ↦ nr + 1 ] in
    let is_here : Bool = elim entry [ none ↦ false | some b ↦ not ((b (nr % 64)).inode == 0) ] in
    let rest = no_entries block len n next in
    if leb len nr then true else if is_here then false else rest

-- strcmp(".",de->name) and strcmp("..",de->name) are 0.
abbrev pub is_dot : DirEntry → Bool
is_dot de = de.name 0 == 46 && de.name 1 == 0

abbrev pub is_dots : DirEntry → Bool
is_dots de = de.name 0 == 46 && de.name 1 == 46 && de.name 2 == 0

abbrev pub empty_from :
    (len num : ℕ) (block : ℕ → Option (ℕ → DirEntry)) → Option (ℕ → DirEntry) → Bool
empty_from len num block none = false
empty_from len num block (some b) =
    if ltb len 2
    then false
    else if not ((b 0).inode == num)
        || (b 1).inode == 0
        || not (is_dot (b 0))
        || not (is_dots (b 1))
    then false
    else no_entries block len len 2

unfoldable pub empty_dir : (p : ℕ) → Fs → Bool
unfolding no_entries
empty_dir p s =
    let i = s.inode_table p in
    let block = s.block i.i_dev i.i_num in empty_from (i.d.i_size / 16) i.i_num block (block 0)

abbrev pub lose_dir : (now : ℕ) → Inode → Inode
lose_dir now x = record x {
  d = record x.d { i_nlinks = (x.d.i_nlinks + 255) % 256; i_mtime = now };
  i_ctime = now;
  i_dirt = true;
}

abbrev pub gone : Inode → Inode
gone x = record x { d = record x.d { i_nlinks = 0 }; i_dirt = true }

abbrev pub remove_dir : Caller → (dir i p : ℕ) → FsRun ℤ
remove_dir who dir i p = do
  number_entry dir i 0
  change p gone
  change dir (lose_dir who.now)
  put_all who (dir ∷ p ∷ []) (pos 0)

abbrev pub rmdir_inode : Caller → (dir i p : ℕ) → FsRun ℤ
rmdir_inode who dir i p s =
    let d = s.inode_table dir in
    let n = s.inode_table p in
    (if is_sticky d && not (who.euid == 0) && not (n.d.i_uid == who.euid)
        then put_all who (dir ∷ p ∷ []) eperm
        else if not (n.i_dev == d.i_dev) || ltb 1 n.i_count
        then put_all who (dir ∷ p ∷ []) eperm
        else if p == dir
        then put_all who (p ∷ dir ∷ []) eperm
        else if not (is_dir n.d.i_mode)
        then put_all who (p ∷ dir ∷ []) enotdir
        else if not (empty_dir p s)
        then put_all who (p ∷ dir ∷ []) enotempty
        else remove_dir who dir i p)
      s

abbrev pub rmdir_found : Caller → ℕ × Option ℕ → FsRun ℤ
rmdir_found who (dir, none) = put_all who (dir ∷ []) enoent
rmdir_found who (dir, some i) = do p ← get_at who dir i; rmdir_inode who dir i p

unfoldable pub sys_rmdir : Caller → (path : List ℕ) → FsRun ℤ
unfolding basename find_entry iget iput empty_dir
sys_rmdir who path = super_call who path (rmdir_found who)
