-- ===== src/Names/Calls.antt =====
-- sys_unlink and sys_link of linux-0.11/fs/namei.c, with the parts that other calls share.
use Prim.Native.Nat.{bit_and}
use learn_linux.Common.{
  ℕ, ◌+◌, ◌-◌, ◌%◌, Bool, true, not, ◌&&◌, Option, none, some, List, [], ◌∷◌, length, ◌==◌,
  if◌then◌else◌,
}
pub use learn_linux.Task.{eperm}
use learn_linux.Common.Int.{ℤ, pos, neg}
use learn_linux.Inodes.{Inode, Fs, done, FsRun, pure, ◌>>=◌, ◌>>◌, change}
use learn_linux.Inodes.Table.{is_dir, iput, iget}
use learn_linux.Names.{Caller, is_suser, may_write, permission, find_entry}
use learn_linux.Names.Walk.{number_at, basename, dir_namei, namei}
use learn_linux.Names.Adding.{add_entry, number_entry}

abbrev pub enoent : ℤ
enoent = neg 2

abbrev pub eacces : ℤ
eacces = neg 13

abbrev pub eexist : ℤ
eexist = neg 17

abbrev pub exdev : ℤ
exdev = neg 18

abbrev pub enotdir : ℤ
enotdir = neg 20

abbrev pub eisdir : ℤ
eisdir = neg 21

abbrev pub enospc : ℤ
enospc = neg 28

-- The inodes are put in the order of the list, and the result is r.
abbrev pub put_all : {A : Type 0} → Caller → (l : List ℕ) → A → FsRun A
put_all who [] r = pure r
put_all who (p ∷ l) r = do iput who.now p; put_all who l r

-- i_nlinks is an unsigned char.
abbrev pub link_less : (now : ℕ) → Inode → Inode
link_less now x = record x {
  d = record x.d { i_nlinks = (if x.d.i_nlinks == 0 then 1 else x.d.i_nlinks) - 1 };
  i_dirt = true;
  i_ctime = now;
}

abbrev pub link_more : (now : ℕ) → Inode → Inode
link_more now x = record x {
  d = record x.d { i_nlinks = (x.d.i_nlinks + 1) % 256 };
  i_ctime = now;
  i_dirt = true;
}

-- Does the sticky bit of the directory keep the caller from the inode?
abbrev pub is_sticky : (dir : Inode) → Bool
is_sticky dir = not (bit_and dir.d.i_mode 512 == 0)

abbrev pub may_not_unlink : Caller → (dir i : Inode) → Bool
may_not_unlink who dir i =
    is_sticky dir
    && not (is_suser who)
    && not (who.euid == i.d.i_uid)
    && not (who.euid == dir.d.i_uid)

abbrev pub drop_link : Caller → (dir i p : ℕ) → FsRun ℤ
drop_link who dir i p = do
  number_entry dir i 0
  change p (link_less who.now)
  put_all who (p ∷ dir ∷ []) (pos 0)

-- The inode p of the entry i is in use by this call.
abbrev pub unlink_inode : Caller → (dir i p : ℕ) → FsRun ℤ
unlink_inode who dir i p s =
    let d = s.inode_table dir in
    let n = s.inode_table p in
    (if may_not_unlink who d n
        then put_all who (dir ∷ p ∷ []) eperm
        else if is_dir n.d.i_mode
        then put_all who (p ∷ dir ∷ []) eperm
        else drop_link who dir i p)
      s

-- iget(dir->i_dev, de->inode)
abbrev pub get_at : Caller → (dir i : ℕ) → FsRun ℕ
get_at who dir i s = iget who.now (s.inode_table dir).i_dev (number_at s dir i) s

abbrev pub unlink_found : Caller → ℕ × Option ℕ → FsRun ℤ
unlink_found who (dir, none) = put_all who (dir ∷ []) enoent
unlink_found who (dir, some i) = do p ← get_at who dir i; unlink_inode who dir i p

-- The entry of the name is looked for, and `next` goes on with it.
abbrev pub with_entry :
    {A : Type 0} → Caller → (dir : ℕ) → (name : List ℕ) → (ℕ × Option ℕ → FsRun A) → FsRun A
with_entry who dir name next = do found ← find_entry who dir name; next found

abbrev pub may_change : Caller → (dir : ℕ) → Fs → Bool
may_change who dir s = permission who (s.inode_table dir) may_write

abbrev pub unlink_in : Caller → (base : List ℕ) → Option ℕ → FsRun ℤ
unlink_in who base none s = done enoent s
unlink_in who base (some dir) s =
    (if length base == 0
        then put_all who (dir ∷ []) enoent
        else if not (may_change who dir s)
        then put_all who (dir ∷ []) eperm
        else with_entry who dir base (unlink_found who))
      s

unfoldable pub sys_unlink : Caller → (path : List ℕ) → FsRun ℤ
unfolding basename find_entry iget iput
sys_unlink who path = do dir ← dir_namei who path; unlink_in who (basename path path) dir

-- The entry gets the number of the inode.
abbrev pub number_new : (dir i p : ℕ) → FsRun (Unit {0})
number_new dir i p s = number_entry dir i (s.inode_table p).i_num s

abbrev pub link_added : Caller → (old dir : ℕ) → Option ℕ → FsRun ℤ
link_added who old dir none = put_all who (dir ∷ old ∷ []) enospc
link_added who old dir (some i) = do
  number_new dir i old
  iput who.now dir
  change old (link_more who.now)
  put_all who (old ∷ []) (pos 0)

abbrev pub link_found : Caller → (old : ℕ) → (base : List ℕ) → ℕ × Option ℕ → FsRun ℤ
link_found who old base (dir, some i) = put_all who (dir ∷ old ∷ []) eexist
link_found who old base (dir, none) = do at ← add_entry who dir base; link_added who old dir at

abbrev pub link_in : Caller → (old : ℕ) → (base : List ℕ) → Option ℕ → FsRun ℤ
link_in who old base none s = put_all who (old ∷ []) eacces s
link_in who old base (some dir) s =
    (if length base == 0
        then put_all who (old ∷ dir ∷ []) eperm
        else if not ((s.inode_table dir).i_dev == (s.inode_table old).i_dev)
        then put_all who (dir ∷ old ∷ []) exdev
        else if not (may_change who dir s)
        then put_all who (dir ∷ old ∷ []) eacces
        else with_entry who dir base (link_found who old base))
      s

abbrev pub link_to : Caller → (path : List ℕ) → (old : ℕ) → FsRun ℤ
link_to who path old = do dir ← dir_namei who path; link_in who old (basename path path) dir

abbrev pub link_old : Caller → (path : List ℕ) → Option ℕ → FsRun ℤ
link_old who path none s = done enoent s
link_old who path (some old) s =
    (if is_dir (s.inode_table old).d.i_mode
        then put_all who (old ∷ []) eperm
        else link_to who path old)
      s

unfoldable pub sys_link : Caller → (oldname newname : List ℕ) → FsRun ℤ
unfolding basename find_entry add_entry namei iput
sys_link who oldname newname = do old ← namei who oldname; link_old who newname old
