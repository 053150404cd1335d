-- ===== src/Names/Files.antt =====
-- The calls of linux-0.11/fs/open.c that find an inode by its name, and sys_stat of fs/stat.c.
use Prim.Native.Nat.{bit_and, bit_or}
use learn_linux.Common.{
  ℕ, ◌/◌, ◌%◌, true, not, ◌&&◌, ◌||◌, Option, none, some, List, [], ◌∷◌, ◌==◌, if◌then◌else◌,
}
use learn_linux.Common.Int.{ℤ, pos}
use learn_linux.Inodes.{Inode, FsRun, pure, ◌>>=◌, ◌>>◌, get_inode, change}
use learn_linux.Inodes.Table.{is_dir, iput}
use learn_linux.Names.{Caller, is_suser}
use learn_linux.Names.Walk.{namei}
use learn_linux.Names.Calls.{enoent, eacces, enotdir, put_all}

-- Where the name has no inode, the call returns r.
abbrev pub on_name : {A : Type 0} → (r : A) → (next : ℕ → FsRun A) → Option ℕ → FsRun A
on_name r next none = pure r
on_name r next (some p) = next p

abbrev pub with_name :
    {A : Type 0} → Caller → (path : List ℕ) → (r : A) → (next : ℕ → FsRun A) → FsRun A
with_name who path r next = namei who path >>= on_name r next

-- The inode is changed and put.
abbrev pub change_and_put : Caller → (Inode → Inode) → (p : ℕ) → FsRun ℤ
change_and_put who f p = do change p f; put_all who (p ∷ []) (pos 0)

abbrev pub set_times : (actime modtime : ℕ) → Inode → Inode
set_times actime modtime x = record x {
  d = record x.d { i_mtime = modtime };
  i_atime = actime;
  i_dirt = true;
}

-- Without times of the caller's, both are CURRENT_TIME.
abbrev pub times_or_now : Caller → Option (ℕ × ℕ) → Inode → Inode
times_or_now who none = set_times who.now who.now
times_or_now who (some (actime, modtime)) = set_times actime modtime

unfoldable pub sys_utime : Caller → (filename : List ℕ) → (times : Option (ℕ × ℕ)) → FsRun ℤ
unfolding namei iput
sys_utime who filename times =
    with_name who filename enoent (change_and_put who (times_or_now who times))

-- The bits of the owner for the owner and the group, as the code has it
abbrev pub res_for : (uid gid res : ℕ) → Inode → ℕ
res_for uid gid res i =
    if uid == i.d.i_uid then res / 64 else if gid == i.d.i_gid then res / 64 else res

abbrev pub access_of : (uid gid mode i_mode : ℕ) → Inode → ℤ
access_of uid gid mode i_mode i =
    if bit_and (bit_and (res_for uid gid i_mode i) 7) mode == mode
    then pos 0
    else if uid == 0 && (bit_and mode 1 == 0 || not (bit_and i_mode 73 == 0))
    then pos 0
    else eacces

-- The inode is put before its owner is read.
abbrev pub access_inode : Caller → (uid gid mode : ℕ) → (p : ℕ) → FsRun ℤ
access_inode who uid gid mode p = do
  before ← get_inode p
  iput who.now p
  after ← get_inode p
  pure (access_of uid gid mode (bit_and before.d.i_mode 511) after)

unfoldable pub sys_access : Caller → (uid gid : ℕ) → (filename : List ℕ) → (mode : ℕ) → FsRun ℤ
unfolding namei iput
sys_access who uid gid filename mode =
    with_name who filename eacces (access_inode who uid gid (bit_and mode 7))

-- The inode takes the place of the directory `old`, which is put.
abbrev pub replace_dir : Caller → (old : ℕ) → (p : ℕ) → FsRun (ℤ × ℕ)
replace_dir who old p s =
    (if not (is_dir (s.inode_table p).d.i_mode)
        then put_all who (p ∷ []) (enotdir, old)
        else put_all who (old ∷ []) (pos 0, p))
      s

-- The result, and the working directory after the call
unfoldable pub sys_chdir : Caller → (filename : List ℕ) → FsRun (ℤ × ℕ)
unfolding namei iput
sys_chdir who filename = with_name who filename (enoent, who.pwd) (replace_dir who who.pwd)

-- The result, and the root after the call
unfoldable pub sys_chroot : Caller → (filename : List ℕ) → FsRun (ℤ × ℕ)
unfolding namei iput
sys_chroot who filename = with_name who filename (enoent, who.root) (replace_dir who who.root)

abbrev pub set_mode : (mode : ℕ) → Inode → Inode
set_mode mode x = record x {
  d = record x.d { i_mode = bit_or (bit_and mode 4095) (bit_and x.d.i_mode 61440) };
  i_dirt = true;
}

abbrev pub chmod_inode : Caller → (mode : ℕ) → (p : ℕ) → FsRun ℤ
chmod_inode who mode p s =
    (if not (who.euid == (s.inode_table p).d.i_uid) && not (is_suser who)
        then put_all who (p ∷ []) eacces
        else change_and_put who (set_mode mode) p)
      s

unfoldable pub sys_chmod : Caller → (filename : List ℕ) → (mode : ℕ) → FsRun ℤ
unfolding namei iput
sys_chmod who filename mode = with_name who filename enoent (chmod_inode who mode)

-- i_uid is an unsigned short, i_gid an unsigned char.
abbrev pub set_owner : (uid gid : ℕ) → Inode → Inode
set_owner uid gid x = record x {
  d = record x.d { i_uid = uid % 65536; i_gid = gid % 256 };
  i_dirt = true;
}

abbrev pub chown_inode : Caller → (uid gid : ℕ) → (p : ℕ) → FsRun ℤ
chown_inode who uid gid p =
    if not (is_suser who)
    then put_all who (p ∷ []) eacces
    else change_and_put who (set_owner uid gid) p

unfoldable pub sys_chown : Caller → (filename : List ℕ) → (uid gid : ℕ) → FsRun ℤ
unfolding namei iput
sys_chown who filename uid gid = with_name who filename enoent (chown_inode who uid gid)

pub record Stat : Type 0 where
  pub st_dev : ℕ
  pub st_ino : ℕ
  pub st_mode : ℕ
  pub st_nlink : ℕ
  pub st_uid : ℕ
  pub st_gid : ℕ
  pub st_rdev : ℕ
  pub st_size : ℕ
  pub st_atime : ℕ
  pub st_mtime : ℕ
  pub st_ctime : ℕ

abbrev pub cp_stat : Inode → Stat
cp_stat i = record {
  st_dev = i.i_dev;
  st_ino = i.i_num;
  st_mode = i.d.i_mode;
  st_nlink = i.d.i_nlinks;
  st_uid = i.d.i_uid;
  st_gid = i.d.i_gid;
  st_rdev = i.d.i_zone0;
  st_size = i.d.i_size;
  st_atime = i.i_atime;
  st_mtime = i.d.i_mtime;
  st_ctime = i.i_ctime;
}

abbrev pub stat_inode : Caller → (p : ℕ) → FsRun (ℤ × Option Stat)
stat_inode who p s =
    let stat = cp_stat (s.inode_table p) in put_all who (p ∷ []) (pos 0, some stat) s

-- The result, and what is copied to user space
unfoldable pub sys_stat : Caller → (filename : List ℕ) → FsRun (ℤ × Option Stat)
unfolding namei iput
sys_stat who filename = with_name who filename (enoent, none) (stat_inode who)
