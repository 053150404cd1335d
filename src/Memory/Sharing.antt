-- ===== src/Memory/Sharing.antt =====
-- mm/memory.c: pages of a program file that tasks share, and the fault on a missing page. A task is
-- given by what the code reads of it; `bmap` and `bread_page` of the file system are parameters.
use learn_linux.Common.{
  ℕ, ◌+◌, ◌-◌, ◌/◌, ◌%◌, ◌^◌, Bool, false, true, ◌&&◌, ◌||◌, not, Option, none, some, List, [], ◌∷◌,
  ◌==◌, ltb, leb, if◌then◌else◌,
}
use learn_linux.Memory.{
  Mm, done, panic, oom, M, pure, ◌>>=◌, ◌>>◌, load, store, low_mem, map_nr, in_page, get_free_page,
  free_page,
}
use learn_linux.Memory.Tables.{present, frame, read_only, user_entry, dir_entry, count_more}
use learn_linux.Memory.Faults.{table_offset, put_page, get_empty_page}

-- What the file system answers: of an inode in memory its count and device, the block of the device
-- for a block of the file, and the memory after four blocks are read into a page.
pub record FileSystem : Type 0 where
  pub i_count : ℕ → ℕ
  pub i_dev : ℕ → ℕ
  pub bmap : ℕ → ℕ → ℕ
  pub bread_page : (page dev : ℕ) (nr : List ℕ) → Mm → Mm

-- `executable` is a pointer to an inode in memory; two tasks share it if the pointers are equal.
pub record Image : Type 0 where
  pub start_code : ℕ
  pub end_data : ℕ
  pub executable : Option ℕ

abbrev pub same_file : Option ℕ → Option ℕ → Bool
same_file none none = true
same_file (some a) (some b) = a == b
same_file _ _ = false

-- The page is entered in the current task's table, which has no entry there yet.
abbrev pub share : (from_page to_page phys_addr : ℕ) → M Bool
share from_page to_page phys_addr = do
  present_already ← load to_page
  if present present_already then (λ _. panic) else do
    e ← load from_page
    store from_page (read_only e)
    e' ← load from_page
    store to_page e'
    count_more (map_nr phys_addr)
    pure true

-- The current task's table, made if there is none.
abbrev pub with_table : (to_page : ℕ) → M ℕ
with_table to_page = do
  to ← load to_page
  if present to then pure to else do
    new ← get_free_page
    if new == 0 then (λ _. oom) else do store to_page (user_entry new); pure new

-- The page is present and clean, and above the kernel's megabyte.
abbrev pub can_share : (phys_addr : ℕ) → Mm → Bool
can_share phys_addr s =
    present phys_addr
    && phys_addr / 64 % 2 == 0
    && not (leb s.high_memory (frame phys_addr) || ltb (frame phys_addr) low_mem)

unfoldable pub try_to_share : (current p : Image) (address : ℕ) → M Bool
unfolding get_free_page
try_to_share current p address = do
  from ← load (dir_entry address + dir_entry p.start_code)
  if not (present from) then pure false else do
    phys_addr ← load (frame from + table_offset address)
    may ← (λ s. done (can_share phys_addr s) s)
    if not may then pure false else do
      to ← with_table (dir_entry address + dir_entry current.start_code)
      share (frame from + table_offset address) (frame to + table_offset address) (frame phys_addr)

-- The loop over the tasks from the last to the second; `others` are those in use, in that order,
-- without the current one.
unfoldable pub share_loop : (current : Image) (address : ℕ) → List Image → M Bool
unfolding try_to_share
share_loop current address [] = pure false
share_loop current address (p ∷ others) =
    if not (same_file p.executable current.executable)
    then share_loop current address others
    else do
      shared ← try_to_share current p address
      if shared then pure true else share_loop current address others

unfoldable pub share_page :
    FileSystem → (current : Image) (others : List Image) (address : ℕ) → M Bool
unfolding share_loop
share_page fs current others address = elim current.executable [
  | none ↦ pure false
  | some inode ↦ if ltb (fs.i_count inode) 2 then pure false else share_loop current address others
]

-- The bytes of the page from the offset `keep` on are set to 0; a word has four, the low one first.
abbrev pub clear_tail : (page keep : ℕ) → (ℕ → ℕ) → ℕ → ℕ
clear_tail page keep w a =
    if not (in_page page a) || leb (a - page + 4) keep
    then w a
    else if leb keep (a - page)
    then 0
    else w a % 256 ^ (keep - (a - page))

abbrev pub read_file_page : FileSystem → (inode page tmp end_data : ℕ) → Mm → Mm
read_file_page fs inode page tmp end_data s =
    let block = 1 + tmp / 1024 in
    let nr =
      fs.bmap inode block
      ∷ fs.bmap inode (block + 1)
      ∷ fs.bmap inode (block + 2)
      ∷ fs.bmap inode (block + 3)
      ∷ [] in
    let t = fs.bread_page page (fs.i_dev inode) nr s in
    record t { word = clear_tail page (end_data - tmp) t.word }

-- A page of the file is read, with what lies behind the end of the data set to 0.
abbrev pub load_file_page : FileSystem → (current : Image) (inode address tmp : ℕ) → M (Unit {0})
load_file_page fs current inode address tmp = do
  page ← get_free_page
  if page == 0 then (λ _. oom) else do
    (λ s. done tt (read_file_page fs inode page tmp current.end_data s))
    put ← put_page page address
    if put == 0 then (do free_page page; (λ _. oom)) else pure tt

abbrev pub no_page :
    FileSystem → (current : Image) (others : List Image) (address tmp : ℕ) → M (Unit {0})
no_page fs current others address tmp = elim current.executable [
  | none ↦ get_empty_page address
  | some inode ↦ if leb current.end_data tmp then get_empty_page address else do
    shared ← share_page fs current others tmp
    if shared then pure tt else load_file_page fs current inode address tmp
]

-- `address - start_code` is a subtraction of 32-bit words.
unfoldable pub do_no_page :
    FileSystem → (current : Image) (others : List Image) (address : ℕ) → M (Unit {0})
unfolding share_page get_empty_page
do_no_page fs current others address =
    no_page fs current others (frame address)
      ((frame address + 2 ^ 32 - current.start_code) % 2 ^ 32)
