-- ===== src/Names/Adding.antt =====
-- add_entry of linux-0.11/fs/namei.c.
use learn_linux.Common.{
  ℕ, zero, suc, ◌+◌, ◌*◌, ◌/◌, ◌%◌, Bool, true, false, ◌&&◌, Option, none, some, List, [], ◌∷◌,
  length, ◌==◌, leb, if◌then◌else◌, update,
}
use learn_linux.Inodes.{Inode, DirEntry, Fs, done, no_fuel, FsRun, pure, ◌>>=◌, ◌>>◌, change}
use learn_linux.Names.{Caller, name_len, shorten, entry_at, is_some_block}

-- A block that new_block has cleared
abbrev pub zero_block : ℕ → DirEntry
zero_block at = record { inode = 0; name = λ j. 0 }

abbrev pub or_zeros : Option (ℕ → DirEntry) → ℕ → DirEntry
or_zeros none = zero_block
or_zeros (some b) = b

-- The block k of the directory p
abbrev pub block_of : Fs → (p k : ℕ) → Option (ℕ → DirEntry)
block_of s p k = let dir = s.inode_table p in s.block dir.i_dev dir.i_num k

abbrev pub set_block : (p k : ℕ) → (ℕ → DirEntry) → FsRun (Unit {0})
set_block p k b s =
    let dir = s.inode_table p in
    done tt (record s {
      block = λ dev num at.
          if dev == dir.i_dev && (num == dir.i_num && at == k) then some b else s.block dev num at;
    })

-- create_block: the block k is there now, or there is no room for it.
abbrev pub create_block : (p k : ℕ) → FsRun Bool
create_block p k s =
    let dir = s.inode_table p in
    (if is_some_block (block_of s p k)
        then pure true
        else if s.room dir.i_dev dir.i_num k
        then set_block p k zero_block >> pure true
        else pure false)
      s

abbrev pub write_entry : (p i : ℕ) → DirEntry → FsRun (Unit {0})
write_entry p i de s =
    set_block p (i / 64) (update (or_zeros (block_of s p (i / 64))) (i % 64) de) s

-- The byte j of the name, and 0 after its end
unfoldable pub byte_at : (name : List ℕ) → (j : ℕ) → ℕ
byte_at [] j = 0
byte_at (c ∷ cs) j = elim j [ zero ↦ c | suc j' ↦ byte_at cs j' ]

abbrev pub grow : (now i : ℕ) → Inode → Inode
grow now i x = record x { d = record x.d { i_size = (i + 1) * 16 }; i_dirt = true; i_ctime = now }

abbrev pub touch_mtime : (now : ℕ) → Inode → Inode
touch_mtime now x = record x { d = record x.d { i_mtime = now } }

-- The entry gets the name; its inode is 0.
abbrev pub put_name : Caller → (p : ℕ) → (name : List ℕ) → (i : ℕ) → FsRun (Option ℕ)
put_name who p name i = do
  change p (touch_mtime who.now)
  write_entry p i record { inode = 0; name = byte_at name }
  pure (some i)

abbrev pub append_name : Caller → (p : ℕ) → (name : List ℕ) → (i : ℕ) → FsRun (Option ℕ)
append_name who p name i = do change p (grow who.now i); put_name who p name i

-- Does the entry have no inode?
abbrev pub is_free_at : Fs → (p i : ℕ) → Bool
is_free_at s p i = elim (entry_at s p i) [ none ↦ false | some de ↦ de.inode == 0 ]

abbrev pub try_place :
    Caller
    → (p : ℕ) → (name : List ℕ) → (i : ℕ) (next : FsRun (Option ℕ)) (there : Bool)
    → FsRun (Option ℕ)
try_place who p name i next false s = done none s
try_place who p name i next true s =
    (if leb (s.inode_table p).d.i_size (i * 16)
        then append_name who p name i
        else if is_free_at s p i
        then put_name who p name i
        else next)
      s

-- The block of an entry within a block is there already, and create_block leaves it.
unfoldable pub add_from : Caller → (p : ℕ) → (name : List ℕ) → (fuel i : ℕ) → FsRun (Option ℕ)
unfolding byte_at
add_from who p name zero i s = no_fuel
add_from who p name (suc fuel) i s =
    (do
      there ← create_block p (i / 64)
      try_place who p name i (add_from who p name fuel (i + 1)) there)
      s

-- The place of the new entry. Past the end of the directory every place is free.
unfoldable pub add_entry : Caller → (p : ℕ) → (name : List ℕ) → FsRun (Option ℕ)
unfolding add_from shorten
add_entry who p long s =
    let name = shorten name_len long in
    let fuel = (s.inode_table p).d.i_size / 16 + 2 in
    (if length name == 0
        then pure none
        else if is_some_block (block_of s p 0)
        then add_from who p name fuel 0
        else pure none)
      s

abbrev pub renumber : (p i nr : ℕ) → Option DirEntry → FsRun (Unit {0})
renumber p i nr none = pure tt
renumber p i nr (some de) = write_entry p i (record de { inode = nr })

-- de->inode = nr
abbrev pub number_entry : (p i nr : ℕ) → FsRun (Unit {0})
number_entry p i nr s = renumber p i nr (entry_at s p i) s
