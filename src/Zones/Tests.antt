-- ===== src/Zones/Tests.antt =====
-- Runs of _bmap of linux-0.11/fs/inode.c.
use learn_linux.Common.{
  ℕ, ◌≡◌, ◌≢◌, refl, arith, Bool, true, false, Option, none, some, [], ◌∷◌, ◌++◌,
}
use learn_linux.Zones.{File, Slot, get, way_to, follow_slots, map_block}
use learn_linux.Zones.Slots.{trail, slot_in}
use learn_linux.Zones.Mapping.{Clear, map_block-map_block}

-- An empty file, on a device with four free blocks
abbrev empty_file : File
empty_file = record {
  i_zone = λ n. 0;
  i_dirt = false;
  i_ctime = 0;
  word = λ block at. 9;
  supply = 50 ∷ 51 ∷ 52 ∷ 53 ∷ [];
}

abbrev file_of : Option (ℕ × File) → File
file_of none = empty_file
file_of (some (z, f)) = f

abbrev none_bad : ℕ → Bool
none_bad b = false

-- The block 1032 is behind two blocks of numbers, which are made as well.
abbrev larger_file : File
larger_file = file_of (map_block none_bad true 5 1032 empty_file)

block_is_made : map_block none_bad true 5 1032 empty_file ≡ some (52, larger_file)
unfolding map_block follow_slots
block_is_made = refl

empty_file-Clear : Clear (way_to 1032).0 (way_to 1032).1 empty_file
unfolding trail
empty_file-Clear = (refl, refl, refl, refl)

map_block-map_block_example :
    (map_block none_bad false 5 1032 larger_file ≡ some (52, larger_file))
    × ((t : Slot)
        → t ≢ (way_to 1032).0
        → slot_in t (trail (way_to 1032).0 (way_to 1032).1 empty_file ++ empty_file.supply) ≡ false
        → get larger_file t ≡ get empty_file t)
map_block-map_block_example =
    map_block-map_block 5 1032 52 none_bad none_bad empty_file larger_file (λ b e. e)
      empty_file-Clear block_is_made (omega arith)
