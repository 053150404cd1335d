-- ===== src/Names/Making.antt =====
-- sys_mknod and open_namei of linux-0.11/fs/namei.c.
use Prim.Native.Nat.{bit_and, bit_xor}
use learn_linux.Common.{
  ℕ, ◌+◌, ◌%◌, Bool, true, not, ◌&&◌, ◌||◌, Option, none, some, List, [], ◌∷◌, length, ◌==◌,
  if◌then◌else◌,
}
use learn_linux.Common.Int.{ℤ, pos}
use learn_linux.Inodes.{Inode, done, FsRun, pure, ◌>>=◌, ◌>>◌, change}
use learn_linux.Inodes.Table.{is_dir, is_type, truncate, iput, iget}
use learn_linux.Inodes.Making.{new_inode}
use learn_linux.Names.{Caller, is_suser, permission, find_entry}
use learn_linux.Names.Walk.{number_at, basename, dir_namei}
use learn_linux.Names.Adding.{add_entry}
use learn_linux.Names.Calls.{
  enoent, eacces, eexist, eisdir, enospc, eperm, put_all, with_entry, may_change, number_new,
}

-- The device of a special file is in its first zone.
abbrev pub init_node : (now mode dev : ℕ) → Inode → Inode
init_node now mode dev x = record x {
  d = record x.d {
    i_mode = mode;
    i_zone0 = if is_type 24576 mode || is_type 8192 mode then dev else x.d.i_zone0;
    i_mtime = now;
  };
  i_atime = now;
  i_dirt = true;
}

abbrev pub no_links : Inode → Inode
no_links x = record x { d = record x.d { i_nlinks = 0 } }

abbrev pub mknod_added : Caller → (dir p : ℕ) → Option ℕ → FsRun ℤ
mknod_added who dir p none = do iput who.now dir; change p no_links; put_all who (p ∷ []) enospc
mknod_added who dir p (some i) = do number_new dir i p; put_all who (dir ∷ p ∷ []) (pos 0)

abbrev pub mknod_made : Caller → (mode dev dir : ℕ) → (base : List ℕ) → Option ℕ → FsRun ℤ
mknod_made who mode dev dir base none = put_all who (dir ∷ []) enospc
mknod_made who mode dev dir base (some p) = do
  change p (init_node who.now mode dev)
  at ← add_entry who dir base
  mknod_added who dir p at

-- new_inode(dir->i_dev)
abbrev pub new_beside : Caller → (dir : ℕ) → FsRun (Option ℕ)
new_beside who dir s = new_inode who.now who.euid who.egid (s.inode_table dir).i_dev s

abbrev pub mknod_found : Caller → (mode dev : ℕ) → (base : List ℕ) → ℕ × Option ℕ → FsRun ℤ
mknod_found who mode dev base (dir, some i) = put_all who (dir ∷ []) eexist
mknod_found who mode dev base (dir, none) = do
  p ← new_beside who dir
  mknod_made who mode dev dir base p

-- The beginning that sys_mknod, sys_mkdir and sys_rmdir have in common
abbrev pub in_dir : Caller → (base : List ℕ) → (next : ℕ × Option ℕ → FsRun ℤ) → Option ℕ → FsRun ℤ
in_dir who base next none s = done enoent s
in_dir who base next (some dir) s =
    (if length base == 0
        then put_all who (dir ∷ []) enoent
        else if not (may_change who dir s)
        then put_all who (dir ∷ []) eperm
        else with_entry who dir base next)
      s

abbrev pub super_call : Caller → (path : List ℕ) → (next : ℕ × Option ℕ → FsRun ℤ) → FsRun ℤ
super_call who path next =
    if not (is_suser who)
    then pure eperm
    else (dir_namei who path >>= in_dir who (basename path path) next)

unfoldable pub sys_mknod : Caller → (path : List ℕ) → (mode dev : ℕ) → FsRun ℤ
unfolding basename find_entry new_inode add_entry iput
sys_mknod who path mode dev = super_call who path (mknod_found who mode dev (basename path path))

-- flag & O_ACCMODE, and the flags O_CREAT, O_EXCL and O_TRUNC
pub record OpenFlag : Type 0 where
  pub accmode : ℕ
  pub creat : Bool
  pub excl : Bool
  pub trunc : Bool

-- O_TRUNC asks for O_WRONLY at least.
abbrev pub with_trunc : OpenFlag → OpenFlag
with_trunc f = if f.trunc && f.accmode == 0 then record f { accmode = 1 } else f

-- ACC_MODE(flag): the string's character for the access mode; \377 is -1 as a char.
abbrev pub is_allowed : Caller → Inode → (accmode : ℕ) → Bool
is_allowed who i accmode =
    if accmode == 0
    then permission who i 4
    else if accmode == 1
    then permission who i 2
    else if accmode == 2
    then permission who i 6
    else is_suser who && not (not (i.i_dev == 0) && i.d.i_nlinks == 0)

abbrev pub Opened : Type 0
Opened = ℤ × Option ℕ

abbrev pub opens : (p : ℕ) → Opened
opens p = (pos 0, some p)

abbrev pub fails : ℤ → Opened
fails e = (e, none)

abbrev pub init_file : (euid mode : ℕ) → Inode → Inode
init_file euid mode x = record x { d = record x.d { i_uid = euid; i_mode = mode }; i_dirt = true }

abbrev pub one_link_less : Inode → Inode
one_link_less x = record x { d = record x.d { i_nlinks = (x.d.i_nlinks + 255) % 256 } }

abbrev pub create_added : Caller → (dir p : ℕ) → Option ℕ → FsRun Opened
create_added who dir p none = do change p one_link_less; put_all who (p ∷ dir ∷ []) (fails enospc)
create_added who dir p (some i) = do number_new dir i p; put_all who (dir ∷ []) (opens p)

abbrev pub create_made : Caller → (mode dir : ℕ) → (base : List ℕ) → Option ℕ → FsRun Opened
create_made who mode dir base none = put_all who (dir ∷ []) (fails enospc)
create_made who mode dir base (some p) = do
  change p (init_file who.euid mode)
  at ← add_entry who dir base
  create_added who dir p at

abbrev pub create_file :
    Caller → (flag : OpenFlag) → (mode dir : ℕ) → (base : List ℕ) → FsRun Opened
create_file who flag mode dir base s =
    (if not flag.creat
        then put_all who (dir ∷ []) (fails enoent)
        else if not (may_change who dir s)
        then put_all who (dir ∷ []) (fails eacces)
        else (new_beside who dir >>= create_made who mode dir base))
      s

abbrev pub touch : (now : ℕ) → Inode → Inode
touch now x = record x { i_atime = now }

abbrev pub open_inode : Caller → (flag : OpenFlag) → (p : ℕ) → FsRun Opened
open_inode who flag p s =
    let i = s.inode_table p in
    (if (is_dir i.d.i_mode && not (flag.accmode == 0)) || not (is_allowed who i flag.accmode)
        then put_all who (p ∷ []) (fails eperm)
        else (do
          change p (touch who.now)
          (if flag.trunc then truncate who.now p else pure tt)
          pure (opens p)))
      s

abbrev pub open_found :
    Caller → (flag : OpenFlag) → (mode : ℕ) → (base : List ℕ) → ℕ × Option ℕ → FsRun Opened
open_found who flag mode base (dir, none) s = create_file who flag mode dir base s
open_found who flag mode base (dir, some i) s =
    let inr = number_at s dir i in
    let dev = (s.inode_table dir).i_dev in
    (do
      iput who.now dir
      if flag.excl then pure (fails eexist) else (iget who.now dev inr >>= open_inode who flag))
      s

abbrev pub open_in :
    Caller → (flag : OpenFlag) → (mode : ℕ) → (base : List ℕ) → Option ℕ → FsRun Opened
open_in who flag mode base none = pure (fails enoent)
open_in who flag mode base (some dir) =
    if length base == 0
    then (if flag.accmode == 0 && not flag.creat && not flag.trunc
        then pure (opens dir)
        else put_all who (dir ∷ []) (fails eisdir))
    else with_entry who dir base (open_found who flag mode base)

-- mode & 0777 & ~umask
abbrev pub masked : Caller → (mode : ℕ) → ℕ
masked who mode = bit_and (bit_and mode 511) (bit_xor (bit_and who.umask 511) 511)

-- A regular file is made where there is none: mode | I_REGULAR.
unfoldable pub open_namei : Caller → (path : List ℕ) → OpenFlag → (mode : ℕ) → FsRun Opened
unfolding basename find_entry new_inode add_entry iget iput truncate
open_namei who path flag mode = do
  dir ← dir_namei who path
  open_in who (with_trunc flag) (32768 + masked who mode) (basename path path) dir
