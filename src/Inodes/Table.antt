-- ===== src/Inodes/Table.antt =====
-- get_empty_inode, iput, iget, read_inode and write_inode of linux-0.11/fs/inode.c, free_inode of
-- linux-0.11/fs/bitmap.c, and truncate of linux-0.11/fs/truncate.c for directories and files, of whose
-- blocks only those of directories are in the state. `now` is CURRENT_TIME.
use Prim.Native.Nat.{bit_and}
use learn_linux.Common.{
  ℕ, zero, suc, ◌+◌, ◌-◌, ◌/◌, ◌%◌, Bool, true, false, not, ◌&&◌, ◌||◌, Option, none, some, ◌==◌,
  ltb, if◌then◌else◌, update,
}
use learn_linux.Bitmap.{Map}
use learn_linux.Inodes.{
  Inode, no_inode, Volume, Outcome, done, stops, no_inodes, bad_put, never_ends, FsRun, pure, ◌>>=◌,
  ◌>>◌, halt, get_inode, change, set_uses, hold,
}

abbrev pub nr_inode : ℕ
nr_inode = 32

-- S_ISREG, S_ISDIR, S_ISBLK and S_ISCHR
abbrev pub is_type : (type mode : ℕ) → Bool
is_type type mode = bit_and mode 61440 == type

abbrev pub is_reg : (mode : ℕ) → Bool
is_reg mode = is_type 32768 mode

abbrev pub is_dir : (mode : ℕ) → Bool
is_dir mode = is_type 16384 mode

-- ++last_inode, back at the start after the end of the table
abbrev pub after_inode : (p : ℕ) → ℕ
after_inode p = if ltb (p + 1) nr_inode then p + 1 else 0

-- n places are left. A free inode that is clean ends the search; the last free one is kept.
unfoldable pub search_empty : (table : ℕ → Inode) (n last : ℕ) (found : Option ℕ) → Option ℕ × ℕ
search_empty table zero last found = (found, last)
search_empty table (suc n) last found =
    let p = after_inode last in
    let free = (table p).i_count == 0 in
    let further = search_empty table n p (if free then some p else found) in
    if free && not (table p).i_dirt then (some p, p) else further

unfoldable pub write_inode : (p : ℕ) → FsRun (Unit {0})
write_inode p s =
    let i = s.inode_table p in
    let written =
      λ (dev num : ℕ). if dev == i.i_dev && num == i.i_num then i.d else s.d_inode dev num in
    let stored : Outcome (Unit {0}) = done tt (record s {
      d_inode = written;
      inode_table = update s.inode_table p (record i { i_dirt = false });
    }) in
    if i.i_dirt && not (i.i_dev == 0)
    then elim (s.super i.i_dev) [ none ↦ stops | some v ↦ stored ]
    else done tt s

-- The inode is cleared, and has one use.
abbrev pub clear_inode : (n p : ℕ) → FsRun (Unit {0})
clear_inode n p s =
    done tt (record s { inode_table = update s.inode_table p (record no_inode { i_count = n }) })

-- The loop that writes the inode while it is dirty: one call of write_inode cleans an inode of a device,
-- and none cleans another one.
abbrev pub clean_inode : (p : ℕ) → FsRun (Unit {0})
clean_inode p = do write_inode p; i ← get_inode p; if i.i_dirt then (λ s. never_ends) else pure tt

abbrev pub take_empty : Option ℕ → FsRun ℕ
take_empty none s = no_inodes
take_empty (some p) s = (do clean_inode p; clear_inode 1 p; pure p) s

unfoldable pub get_empty_inode : FsRun ℕ
unfolding search_empty write_inode
get_empty_inode s =
    let r = search_empty s.inode_table nr_inode s.last_inode none in
    take_empty r.0 (record s { last_inode = r.1 })

-- The blocks of a directory or file are freed.
abbrev pub drop_blocks : (dev num : ℕ) → FsRun (Unit {0})
drop_blocks dev num s =
    done tt (record s { block = λ d n k. if d == dev && n == num then none else s.block d n k })

abbrev pub drop_content : (now p : ℕ) → Inode → FsRun (Unit {0})
drop_content now p i = do
  drop_blocks i.i_dev i.i_num
  change p λ x. record x {
    d = record x.d { i_zone0 = 0; i_size = 0; i_mtime = now };
    i_dirt = true;
    i_ctime = now;
  }

unfoldable pub truncate : (now p : ℕ) → FsRun (Unit {0})
truncate now p = do
  i ← get_inode p
  if is_reg i.d.i_mode || is_dir i.d.i_mode then drop_content now p i else pure tt

-- A bit of the inode bitmap of a device is written.
abbrev pub write_imap : (dev at : ℕ) (bit : Bool) → Volume → Map → FsRun (Unit {0})
write_imap dev at bit v m s =
    let map : Map = record { bits = update m.bits (at % 8192) bit; b_dirt = true } in
    let v' = record v { s_imap = update v.s_imap (at / 8192) (some map) } in
    done tt (record s { super = update s.super dev (some v') })

abbrev pub free_on : (p : ℕ) → Inode → Option Volume → FsRun (Unit {0})
free_on p i none = halt
free_on p i (some v) =
    if ltb i.i_num 1 || ltb v.s_ninodes i.i_num then halt else elim (v.s_imap (i.i_num / 8192)) [
      | none ↦ halt
      | some m ↦ do write_imap i.i_dev i.i_num false v m; clear_inode 0 p
    ]

-- The inode has one use, and is in use by no one else.
unfoldable pub free_inode : (p : ℕ) → FsRun (Unit {0})
free_inode p s =
    let i = s.inode_table p in
    (if i.i_dev == 0
        then clear_inode 0 p
        else if ltb 1 i.i_count
        then halt
        else if not (i.d.i_nlinks == 0)
        then halt
        else free_on p i (s.super i.i_dev))
      s

abbrev pub put_linked : (p : ℕ) → Inode → FsRun (Unit {0})
put_linked p i = do if i.i_dirt then write_inode p else pure tt; set_uses p 0

abbrev pub put_unlinked : (now p : ℕ) → FsRun (Unit {0})
put_unlinked now p = do truncate now p; free_inode p

-- The end of iput, where this was the last use
abbrev pub put_last : (now p : ℕ) → Inode → FsRun (Unit {0})
put_last now p i = if i.d.i_nlinks == 0 then put_unlinked now p else put_linked p i

abbrev pub end_pipe : Inode → Inode
end_pipe x = record x { i_dirt = false; i_pipe = false }

-- The page of a pipe belongs to the state of Memory and is not part of this one.
abbrev pub put_pipe : (p : ℕ) → Inode → FsRun (Unit {0})
put_pipe p i =
    if ltb 1 i.i_count then set_uses p (i.i_count - 1) else (do change p end_pipe; set_uses p 0)

-- sync_inodes: n places from p on are written.
unfoldable pub sync_from : (n p : ℕ) → FsRun (Unit {0})
unfolding write_inode
sync_from zero p = pure tt
sync_from (suc n) p = do
  i ← get_inode p
  if i.i_dirt && not i.i_pipe then write_inode p else pure tt
  sync_from n (p + 1)

-- sync_dev; of the buffers that it writes, those of directories are in the state as they are.
abbrev pub sync_dev : FsRun (Unit {0})
sync_dev = sync_from nr_inode 0

abbrev pub put_more : (now p : ℕ) → Inode → FsRun (Unit {0})
put_more now p i = if ltb 1 i.i_count then set_uses p (i.i_count - 1) else put_last now p i

abbrev pub put_counted : (now p : ℕ) → Inode → FsRun (Unit {0})
put_counted now p i =
    if i.i_pipe
    then put_pipe p i
    else if i.i_dev == 0
    then set_uses p (i.i_count - 1)
    else if is_type 24576 i.d.i_mode
    then (do sync_dev; j ← get_inode p; put_more now p j)
    else put_more now p i

unfoldable pub iput : (now p : ℕ) → FsRun (Unit {0})
unfolding write_inode truncate free_inode sync_from
iput now p = do i ← get_inode p; if i.i_count == 0 then (λ s. bad_put) else put_counted now p i

-- The first place from p on, of n, that has the inode
unfoldable pub find_inode : (table : ℕ → Inode) (dev nr p n : ℕ) → Option ℕ
find_inode table dev nr p zero = none
find_inode table dev nr p (suc n) =
    let further = find_inode table dev nr (p + 1) n in
    if (table p).i_dev == dev && (table p).i_num == nr then some p else further

abbrev pub read_on : (p dev nr : ℕ) → Option Volume → FsRun ℕ
read_on p dev nr none s = stops
read_on p dev nr (some v) s =
    (do change p λ x. record x { i_dev = dev; i_num = nr; d = s.d_inode dev nr }; pure p) s

-- read_inode on the empty inode
abbrev pub read_inode : (p dev nr : ℕ) → FsRun ℕ
read_inode p dev nr s = read_on p dev nr (s.super dev) s

-- On an inode that is found; `again` looks for another one, the root of what is mounted on it.
abbrev pub found_inode : (now empty p : ℕ) (again : (dev : ℕ) → FsRun ℕ) → Option ℕ → FsRun ℕ
found_inode now empty p again none = do iput now empty; pure p
found_inode now empty p again (some dev) = do iput now p; again dev

abbrev pub root_ino : ℕ
root_ino = 1

abbrev pub use_inode :
    (now empty : ℕ) (again : (dev : ℕ) → FsRun ℕ) (dev nr : ℕ) → Option ℕ → FsRun ℕ
use_inode now empty again dev nr none s = read_inode empty dev nr s
use_inode now empty again dev nr (some p) s =
    (do
      hold p
      found_inode now empty p again (if (s.inode_table p).i_mount then s.mounted p else none))
      s

-- More mounts on one another than the table of super blocks has places go in a circle and do not
-- end: from the second round on the inode is the root of a mounted device, and there are 8 devices at
-- most, so that a ninth round means that one has come twice.
unfoldable pub iget_loop : (now empty fuel : ℕ) (nr dev : ℕ) → FsRun ℕ
unfolding find_inode iput
iget_loop now empty zero nr dev s = never_ends
iget_loop now empty (suc fuel) nr dev s =
    use_inode now empty (iget_loop now empty fuel root_ino) dev nr
      (find_inode s.inode_table dev nr 0 nr_inode) s

unfoldable pub iget : (now dev nr : ℕ) → FsRun ℕ
unfolding get_empty_inode iget_loop
iget now dev nr =
    if dev == 0 then halt else (do empty ← get_empty_inode; iget_loop now empty 9 nr dev)
