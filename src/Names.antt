-- ===== src/Names.antt =====
-- linux-0.11/fs/namei.c: permissions and the entries of a directory. A name in user space is a list of
-- bytes.
pub mod Walk
pub mod Adding
pub mod Calls
pub mod Making
pub mod Dirs
pub mod Entries
pub mod Added
pub mod Numbers
pub mod Found
pub mod Twins
pub mod Paths
pub mod Kept
pub mod Unlinking
pub mod Creating
pub mod Opening
pub mod Removing
pub mod Files
pub mod Owning
pub mod Tasks
pub mod Limits
pub mod History
mod Tests
use Prim.Native.Nat.{bit_and}
use learn_linux.Common.{
  ℕ, zero, suc, ◌+◌, ◌-◌, ◌*◌, ◌/◌, ◌%◌, Bool, true, false, not, ◌&&◌, ◌||◌, Option, none, some,
  List, [], ◌∷◌, length, ◌==◌, ltb, leb, if◌then◌else◌, update,
}
use learn_linux.Inodes.{
  DInode, Inode, DirEntry, Volume, Fs, Outcome, done, stops, FsRun, pure, ◌>>=◌, ◌>>◌, halt,
  get_inode, change, hold,
}
use learn_linux.Inodes.Table.{iput, root_ino}

-- What the calls read of the current task, and CURRENT_TIME
pub record Caller : Type 0 where
  pub euid : ℕ
  pub egid : ℕ
  pub umask : ℕ
  pub root : ℕ
  pub pwd : ℕ
  pub now : ℕ

abbrev pub is_suser : Caller → Bool
is_suser who = who.euid == 0

abbrev pub may_exec : ℕ
may_exec = 1

abbrev pub may_write : ℕ
may_write = 2

-- The mode's bits for the owner, the group or others, from the lowest on
abbrev pub mode_for : Caller → Inode → ℕ
mode_for who i =
    if who.euid == i.d.i_uid
    then i.d.i_mode / 64
    else if who.egid == i.d.i_gid
    then i.d.i_mode / 8
    else i.d.i_mode

abbrev pub permission : Caller → Inode → (mask : ℕ) → Bool
permission who i mask =
    if not (i.i_dev == 0) && i.d.i_nlinks == 0
    then false
    else bit_and (bit_and (mode_for who i) mask) 7 == mask || is_suser who

abbrev pub name_len : ℕ
name_len = 14

-- The bytes of the name are those of the entry from the place i on.
unfoldable pub same_bytes : (name : List ℕ) → (at : ℕ → ℕ) (i : ℕ) → Bool
same_bytes [] at i = true
same_bytes (c ∷ cs) at i = c == at i && same_bytes cs at (i + 1)

-- match
unfoldable pub is_match : (name : List ℕ) → DirEntry → Bool
unfolding same_bytes
is_match name de =
    let len = length name in
    if de.inode == 0 || ltb name_len len
    then false
    else if ltb len name_len && not (de.name len == 0)
    then false
    else same_bytes name de.name 0

-- At most the first n bytes
unfoldable pub shorten : (n : ℕ) → List ℕ → List ℕ
shorten zero name = []
shorten (suc n) [] = []
shorten (suc n) (c ∷ cs) = c ∷ shorten n cs

abbrev pub dir_entries_per_block : ℕ
dir_entries_per_block = 64

-- A block of a directory: one entry is looked at, unless the block is missing; then the search goes on
-- at the next block, and n bounds the entries that are left.
unfoldable pub search_entries :
    (block : ℕ → Option (ℕ → DirEntry)) (name : List ℕ) (entries n i : ℕ) → Option ℕ
unfolding is_match
search_entries block name entries zero i = none
search_entries block name entries (suc n) i =
    let entry = block (i / dir_entries_per_block) in
    let is_here : Bool = elim entry [
      | none ↦ false
      | some b ↦ is_match name (b (i % dir_entries_per_block))
    ] in
    let next : ℕ = elim entry [ none ↦ i + dir_entries_per_block | some b ↦ i + 1 ] in
    let rest = search_entries block name entries n next in
    if leb entries i then none else if is_here then some i else rest

abbrev pub is_some_block : {A : Type 0} → Option A → Bool
is_some_block none = false
is_some_block (some a) = true

-- The search of a directory; without its first block nothing is found.
abbrev pub search_dir :
    (entries : ℕ) → (name : List ℕ) → (block : ℕ → Option (ℕ → DirEntry)) → Option ℕ
search_dir entries name block =
    if is_some_block (block 0) then search_entries block name entries entries 0 else none

-- The entry at a place of the directory p, where it is in a block
abbrev pub entry_at : Fs → (p i : ℕ) → Option DirEntry
entry_at s p i =
    let dir = s.inode_table p in
    elim (s.block dir.i_dev dir.i_num (i / dir_entries_per_block)) [
      | none ↦ none
      | some b ↦ some (b (i % dir_entries_per_block))
    ]

-- ..
abbrev pub is_dotdot : (name : List ℕ) → Bool
is_dotdot (a ∷ b ∷ []) = a == 46 && b == 46
is_dotdot name = false

-- The inode that the device of the directory is mounted on
abbrev pub covered : Fs → (dir : ℕ) → Option ℕ
covered s dir = elim (s.super (s.inode_table dir).i_dev) [ none ↦ none | some v ↦ v.s_imount ]

-- The directory in which `..` of the root of a mounted device is looked for
abbrev pub leave_mount : Caller → (dir : ℕ) → Option ℕ → FsRun ℕ
leave_mount who dir none = pure dir
leave_mount who dir (some m) = do iput who.now dir; hold m; pure m

-- The directory, which `..` changes at a mounted root, and the place of the entry
unfoldable pub find_entry : Caller → (dir : ℕ) → (name : List ℕ) → FsRun (ℕ × Option ℕ)
unfolding search_entries iput shorten
find_entry who dir long s =
    let name = shorten name_len long in
    let entries = (s.inode_table dir).d.i_size / 16 in
    let at_root = is_dotdot name && dir == who.root in
    let wanted = if at_root then 46 ∷ [] else name in
    let up = is_dotdot name && not (dir == who.root) && (s.inode_table dir).i_num == root_ino in
    (do
      d ← leave_mount who dir (if up then covered s dir else none)
      i ← get_inode d
      λ s'.
          done
            (
              d,
              (if length name == 0
                  then none
                  else search_dir entries wanted (s'.block i.i_dev i.i_num)),
            )
            s')
      s
