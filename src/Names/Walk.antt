-- ===== src/Names/Walk.antt =====
-- Path names: get_dir, dir_namei and namei of linux-0.11/fs/namei.c. A path name is the list of its bytes,
-- without the 0 at its end. iget gives an inode or panics, so that its callers' test for NULL is left out.
use learn_linux.Common.{
  ℕ, zero, suc, ◌+◌, Bool, true, ◌&&◌, ◌||◌, Option, none, some, List, [], ◌∷◌, length, ◌==◌,
  if◌then◌else◌,
}
use learn_linux.Inodes.{Inode, Fs, no_fuel, FsRun, pure, ◌>>=◌, ◌>>◌, halt, change, hold}
use learn_linux.Inodes.Table.{is_dir, iput, iget}
use learn_linux.Names.{Caller, may_exec, permission, entry_at, find_entry}

-- The bytes up to the next /, and what follows it, or none at the end of the path name
unfoldable pub next_name : (path : List ℕ) → List ℕ × Option (List ℕ)
next_name [] = ([], none)
next_name (c ∷ cs) = let r = next_name cs in if c == 47 then ([], some cs) else (c ∷ r.0, r.1)

-- The number of the inode of an entry
abbrev pub number_at : Fs → (p i : ℕ) → ℕ
number_at s p i = elim (entry_at s p i) [ none ↦ 0 | some de ↦ de.inode ]

abbrev pub leave_dir : {A : Type 0} → Caller → (p : ℕ) → FsRun (Option A)
leave_dir who p = do iput who.now p; pure none

-- The inode of an entry that was found in the directory, which is put
abbrev pub enter_at : Caller → (dir i : ℕ) → FsRun ℕ
enter_at who dir i s =
    let inr = number_at s dir i in
    let idev = (s.inode_table dir).i_dev in (do iput who.now dir; iget who.now idev inr) s

-- What `find_entry` has given is followed, and the rest of the path name is walked.
abbrev pub follow_name :
    Caller → (again : (p : ℕ) → FsRun (Option ℕ)) → ℕ × Option ℕ → FsRun (Option ℕ)
follow_name who again (dir, none) = leave_dir who dir
follow_name who again (dir, some i) = do p ← enter_at who dir i; again p

abbrev pub walk_on :
    Caller
    → (p : ℕ) → (name : List ℕ) → Option (List ℕ)
    → (again : List ℕ → (p : ℕ) → FsRun (Option ℕ)) → FsRun (Option ℕ)
walk_on who p name none again = pure (some p)
walk_on who p name (some rest) again = do
  found ← find_entry who p name
  follow_name who (again rest) found

-- May the walk go through the inode?
abbrev pub is_passable : Caller → Inode → Bool
is_passable who i = is_dir i.d.i_mode && permission who i may_exec

unfoldable pub walk : Caller → (fuel : ℕ) → (path : List ℕ) → (p : ℕ) → FsRun (Option ℕ)
unfolding next_name find_entry iput iget
walk who zero path p s = no_fuel
walk who (suc fuel) path p s =
    let r = next_name path in
    (if is_passable who (s.inode_table p)
        then walk_on who p r.0 r.1 (walk who fuel)
        else leave_dir who p)
      s

-- Is there no root or no working directory?
abbrev pub is_lost : Caller → Fs → Bool
is_lost who s = (s.inode_table who.root).i_count == 0 || (s.inode_table who.pwd).i_count == 0

abbrev pub walk_from : Caller → (path : List ℕ) → (p : ℕ) → FsRun (Option ℕ)
walk_from who path p = do hold p; walk who (length path + 1) path p

abbrev pub start_walk : Caller → (path : List ℕ) → FsRun (Option ℕ)
start_walk who [] = pure none
start_walk who (c ∷ path) =
    if c == 47 then walk_from who path who.root else walk_from who (c ∷ path) who.pwd

-- The fuel is enough, since each round takes a byte of the path name at least.
unfoldable pub get_dir : Caller → (path : List ℕ) → FsRun (Option ℕ)
unfolding walk
get_dir who path s = (if is_lost who s then halt else start_walk who path) s

-- What follows the last / of the path name
unfoldable pub basename : (path base : List ℕ) → List ℕ
basename [] base = base
basename (c ∷ cs) base = basename cs (if c == 47 then cs else base)

-- The directory of the path name's last name, which is `basename path path`
abbrev pub dir_namei : Caller → (path : List ℕ) → FsRun (Option ℕ)
dir_namei who path = get_dir who path

abbrev pub touch_atime : (now : ℕ) → Inode → Inode
touch_atime now x = record x { i_atime = now; i_dirt = true }

abbrev pub found_name : Caller → ℕ × Option ℕ → FsRun (Option ℕ)
found_name who (dir, none) = leave_dir who dir
found_name who (dir, some i) = do
  p ← enter_at who dir i
  change p (touch_atime who.now)
  pure (some p)

abbrev pub find_base : Caller → (base : List ℕ) → (dir : ℕ) → FsRun (Option ℕ)
find_base who base dir = do found ← find_entry who dir base; found_name who found

abbrev pub name_in : Caller → (base : List ℕ) → Option ℕ → FsRun (Option ℕ)
name_in who base none = pure none
name_in who base (some dir) = if length base == 0 then pure (some dir) else find_base who base dir

unfoldable pub namei : Caller → (path : List ℕ) → FsRun (Option ℕ)
unfolding get_dir basename find_entry iput iget
namei who path = do dir ← dir_namei who path; name_in who (basename path path) dir
