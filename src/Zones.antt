-- ===== src/Zones.antt =====
-- The blocks of a file: _bmap of linux-0.11/fs/inode.c.
pub mod Slots
pub mod Mapping
mod Tests
use learn_linux.Common.{
  ℕ, zero, suc, ◌+◌, ◌-◌, ◌*◌, ◌/◌, ◌%◌, Bool, true, false, ◌&&◌, Option, none, some, List, [], ◌∷◌,
  ◌==◌, ltb, leb, if◌then◌else◌, update,
}

-- An inode with the blocks of its device, each of 512 words. `supply` are the blocks that new_block gives,
-- one after the other, until it gives none.
pub record File : Type 0 where
  pub i_zone : ℕ → ℕ
  pub i_dirt : Bool
  pub i_ctime : ℕ
  pub word : (block at : ℕ) → ℕ
  pub supply : List ℕ

-- A place for the number of a block: in the inode, or in a block
pub data Slot : Type 0 where
  in_inode : (n : ℕ) → Slot
  in_block : (b at : ℕ) → Slot

abbrev pub get : File → Slot → ℕ
get f (in_inode n) = f.i_zone n
get f (in_block b at) = f.word b at

-- A number is stored as an unsigned short.
abbrev pub put : (now : ℕ) → Slot → (z : ℕ) → File → File
put now (in_inode n) z f =
    let gone = z % 65536 == 0 in
    record f {
      i_zone = update f.i_zone n (z % 65536);
      i_dirt = if gone then f.i_dirt else true;
      i_ctime = if gone then f.i_ctime else now;
    }
put now (in_block b at) z f = record f {
  word = λ b' at'. if b == b' && at == at' then z % 65536 else f.word b' at';
}

-- The value that _bmap goes on with: what the inode stores, or the result of new_block
abbrev pub given : Slot → (z : ℕ) → ℕ
given (in_inode n) z = z % 65536
given (in_block b at) z = z

-- new_block clears the block that it gives.
abbrev pub fill_slot : (now : ℕ) → Slot → List ℕ → File → ℕ × File
fill_slot now s [] f = (0, f)
fill_slot now s (z ∷ rest) f = (
  given s z,
  put now s z (record f { supply = rest; word = λ b at. if b == z then 0 else f.word b at }),
)

-- The number in a slot; where it is missing and `create` is set, a new block is put there.
abbrev pub slot : (create : Bool) (now : ℕ) → Slot → File → ℕ × File
slot create now s f = if create && get f s == 0 then fill_slot now s f.supply f else (get f s, f)

-- The slot's block holds the next slot, at the first place of the list, and so on. `bad` says which
-- blocks bread cannot read.
unfoldable pub follow_slots :
    (bad : ℕ → Bool) (create : Bool) (now : ℕ) → Slot → (ats : List ℕ) → File → ℕ × File
follow_slots bad create now s [] f = slot create now s f
follow_slots bad create now s (at ∷ ats) f =
    let made = slot create now s f in
    let further = follow_slots bad create now (in_block made.0 at) ats made.1 in
    if made.0 == 0 then (0, made.1) else (if bad made.0 then (0, made.1) else further)

-- The first slot of a block of the file, and the places in the blocks of numbers: none, one or two
abbrev pub way_to : (block : ℕ) → Slot × List ℕ
way_to block =
    if ltb block 7
    then (in_inode block, [])
    else if ltb (block - 7) 512
    then (in_inode 7, (block - 7) ∷ [])
    else (in_inode 8, ((block - 7 - 512) / 512) ∷ ((block - 7 - 512) % 512) ∷ [])

-- none where the kernel panics
unfoldable pub map_block :
    (bad : ℕ → Bool) (create : Bool) (now block : ℕ) → File → Option (ℕ × File)
unfolding follow_slots
map_block bad create now block f =
    if leb (7 + 512 + 512 * 512) block
    then none
    else some (follow_slots bad create now (way_to block).0 (way_to block).1 f)
