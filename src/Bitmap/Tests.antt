-- ===== src/Bitmap/Tests.antt =====
-- Runs of linux-0.11/fs/bitmap.c.
use learn_linux.Common.{
  ◌≡◌, refl, sym, ap, true, false, none, some, [], ◌∷◌, ◌==◌, if◌then◌else◌, arith,
}
use learn_linux.Buffers.{
  hash_fn, find_in, find_buffer, choose, take_buffer, remove_from_queues, insert_into_queues,
  getblk, brelse,
}
use learn_linux.Bitmap.{
  Map, Super, Disk, find_super, get_super, store_super, low_zero, zero_in_words, find_first_zero,
  spot_in, find_spot, Made, zone, no_zone, waits, panics, write_bit, new_block, free_block,
}
use learn_linux.Bitmap.Taking.{NewBlock, new_block-NewBlock}
use learn_linux.Bitmap.Freeing.{GivenBack, new_block-free_block}

abbrev new_map : Map
new_map = record { bits = λ j. j == 0; b_dirt = false }

-- A device 1 with 100 zones, data from zone 10 on, all free
abbrev new_super : Super
new_super = record {
  s_dev = 1;
  s_nzones = 100;
  s_firstdatazone = 10;
  s_zmap = λ i. if i == 0 then some new_map else none;
}

-- The device and two unused buffers
abbrev new_disk : Disk
new_disk = record {
  cache = record {
    nr_buffers = 2;
    buf = λ b. record {
      b_dev = 0;
      b_blocknr = 0;
      b_uptodate = false;
      b_dirt = false;
      b_count = 0;
      b_lock = false;
    };
    hash_table = λ h. [];
    free_list = 0 ∷ 1 ∷ [];
  };
  b_data = λ b at. 7;
  super_block = new_super ∷ [];
}

abbrev disk_after : Made → Disk
disk_after (zone z d) = d
disk_after (no_zone d) = d
disk_after (waits d) = d
disk_after panics = new_disk

abbrev disk_with_one : Disk
disk_with_one = disk_after (new_block 1 new_disk)

first_zone : new_block 1 new_disk ≡ zone 10 disk_with_one
unfolding new_block get_super find_super store_super find_spot spot_in find_first_zero zero_in_words
    low_zero getblk find_buffer find_in choose take_buffer remove_from_queues insert_into_queues
    hash_fn brelse
first_zone = refl

new_block-NewBlock_example : NewBlock 1 new_disk (new_block 1 new_disk)
new_block-NewBlock_example = new_block-NewBlock 1 new_disk (omega arith)

there : get_super 1 new_disk.super_block ≡ some new_super
unfolding get_super find_super
there = refl

new_block-free_block_example : GivenBack 1 new_super (free_block 1 10 disk_with_one)
new_block-free_block_example =
    new_block-free_block 1 new_disk new_super there (omega arith)
      (λ m e. let same : new_map ≡ m = cc in ap (λ (x : Map). x.bits 0) (sym same)) 10 disk_with_one
      (omega arith) first_zone

-- A device whose zones end before that of the first free bit: it gets no zone, and the bit is taken.
abbrev short_disk : Disk
short_disk = record new_disk { super_block = record new_super { s_nzones = 10 } ∷ [] }

bit_is_lost :
    get_super 1 (disk_after (new_block 1 short_disk)).super_block
    ≡ some (write_bit 0 1 true new_map (record new_super { s_nzones = 10 }))
unfolding new_block get_super find_super store_super find_spot spot_in find_first_zero zero_in_words
    low_zero
bit_is_lost = refl
