-- ===== src/Inodes.antt =====
-- The inodes in memory: inode_table of linux-0.11/fs/inode.c, with what the calls on them need of the
-- disk. A pointer to an inode is its place in the table. The calls run with no other task in between:
-- where one would sleep for a lock or a transfer, it goes on, and every transfer succeeds.
pub mod Table
pub mod Making
pub mod Held
pub mod Balance
pub mod Gets
use learn_linux.Common.{
  ℕ, zero, suc, ◌+◌, ◌%◌, ◌-◌, Bool, true, false, ◌&&◌, Option, none, some, ◌==◌, if◌then◌else◌,
  update,
}
use learn_linux.Bitmap.{Map}

-- struct d_inode. Of i_zone there is the device number of a special file.
pub record DInode : Type 0 where
  pub i_mode : ℕ
  pub i_uid : ℕ
  pub i_size : ℕ
  pub i_mtime : ℕ
  pub i_gid : ℕ
  pub i_nlinks : ℕ
  pub i_zone0 : ℕ

-- struct m_inode: what is on the disk as well, and the rest
pub record Inode : Type 0 where
  pub d : DInode
  pub i_atime : ℕ
  pub i_ctime : ℕ
  pub i_dev : ℕ
  pub i_num : ℕ
  pub i_count : ℕ
  pub i_dirt : Bool
  pub i_pipe : Bool
  pub i_mount : Bool

abbrev pub no_d_inode : DInode
no_d_inode = record {
  i_mode = 0;
  i_uid = 0;
  i_size = 0;
  i_mtime = 0;
  i_gid = 0;
  i_nlinks = 0;
  i_zone0 = 0;
}

-- memset(inode,0,sizeof(*inode))
abbrev pub no_inode : Inode
no_inode = record {
  d = no_d_inode;
  i_atime = 0;
  i_ctime = 0;
  i_dev = 0;
  i_num = 0;
  i_count = 0;
  i_dirt = false;
  i_pipe = false;
  i_mount = false;
}

pub record DirEntry : Type 0 where
  pub inode : ℕ
  pub name : ℕ → ℕ

-- What a call needs of a super block: s_imount, s_ninodes and s_imap
pub record Volume : Type 0 where
  pub s_imount : Option ℕ
  pub s_ninodes : ℕ
  pub s_imap : ℕ → Option Map

-- The table of inodes; the inodes on the disks; the blocks of the directories, each with 64 entries, by
-- device, inode number and place in the directory, none where bmap gives no block; the super blocks by
-- device; the device that is mounted on an inode; and whether create_block finds room for a missing block.
pub record Fs : Type 0 where
  pub inode_table : ℕ → Inode
  pub last_inode : ℕ
  pub d_inode : (dev num : ℕ) → DInode
  pub block : (dev num : ℕ) → ℕ → Option (ℕ → DirEntry)
  pub super : (dev : ℕ) → Option Volume
  pub mounted : ℕ → Option ℕ
  pub room : (dev num k : ℕ) → Bool

-- A call ends with a result; or with "No free inodes in mem"; or with the panic of iput on an inode that
-- is free; or with another panic; or the kernel goes on for ever: iget through mounted devices, where each
-- is mounted on the root of another one, or get_empty_inode with a dirty inode of no device; or a loop has
-- not ended on its fuel.
pub data Outcome (A : Type 0) : Type 0 where
  done : A → Fs → Outcome A
  no_inodes : Outcome A
  bad_put : Outcome A
  stops : Outcome A
  never_ends : Outcome A
  no_fuel : Outcome A

abbrev pub FsRun : Type 0 → Type 0
FsRun A = Fs → Outcome A

abbrev pub pure : {A : Type 0} → A → FsRun A
pure a s = done a s

infixl 5 ◌>>=◌ ◌>>◌
abbrev pub ◌>>=◌ : {A B : Type 0} → FsRun A → (A → FsRun B) → FsRun B
◌>>=◌ m f s = elim (m s) [
  | done a s' ↦ f a s'
  | no_inodes ↦ no_inodes
  | bad_put ↦ bad_put
  | stops ↦ stops
  | never_ends ↦ never_ends
  | no_fuel ↦ no_fuel
]

abbrev pub ◌>>◌ : {B : Type 0} → FsRun (Unit {0}) → FsRun B → FsRun B
m >> k = m >>= λ _. k

abbrev pub halt : {A : Type 0} → FsRun A
halt s = stops

abbrev pub get_inode : (p : ℕ) → FsRun Inode
get_inode p s = done (s.inode_table p) s

-- Any change of an inode but that of its use count
abbrev pub change : (p : ℕ) → (Inode → Inode) → FsRun (Unit {0})
change p f s =
    let old = s.inode_table p in
    let new = record (f old) { i_count = old.i_count } in
    done tt (record s { inode_table = update s.inode_table p new })

abbrev pub set_uses : (p n : ℕ) → FsRun (Unit {0})
set_uses p n s =
    let new = record (s.inode_table p) { i_count = n } in
    done tt (record s { inode_table = update s.inode_table p new })

-- i_count++, of an unsigned short
abbrev pub hold : (p : ℕ) → FsRun (Unit {0})
hold p = do i ← get_inode p; set_uses p ((i.i_count + 1) % 65536)
