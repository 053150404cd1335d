-- ===== src/Buffers/Tests.antt =====
-- Runs of linux-0.11/fs/buffer.c.
use learn_linux.Common.{◌≡◌, refl, false, [], ◌∷◌, arith}
use learn_linux.Buffers.{
  Buf, Cache, hash_fn, find_in, find_buffer, cached, given, count_up, set_buf, choose, take_buffer,
  remove_from_queues, insert_into_queues, getblk, released, brelse,
}
use learn_linux.Buffers.Blocks.{IsCache, taken}
use learn_linux.Buffers.Getting.{GotBlock, getblk-GotBlock}
use learn_linux.Buffers.Calls.{getblk-again, getblk-brelse}

abbrev unused_buf : Buf
unused_buf = record {
  b_dev = 0;
  b_blocknr = 0;
  b_uptodate = false;
  b_dirt = false;
  b_count = 0;
  b_lock = false;
}

-- Two buffers without a device.
abbrev empty_cache : Cache
empty_cache = record {
  nr_buffers = 2;
  buf = λ b. unused_buf;
  hash_table = λ h. [];
  free_list = 0 ∷ 1 ∷ [];
}

empty_cache-IsCache : IsCache empty_cache
empty_cache-IsCache = record {
  listed = λ b low real. elim (real refl) [ ];
  unique = λ a b a_low b_low real same. elim (real refl) [ ];
  queued_lt = λ h b e. cc;
  free_lt = λ b e. ground arith;
}

abbrev full_cache : Cache
full_cache = taken empty_cache 1 5 0

first_block : getblk 1 5 empty_cache ≡ given 0 full_cache
unfolding getblk find_buffer find_in choose take_buffer remove_from_queues insert_into_queues
    hash_fn
first_block = refl

second_use : getblk 1 5 full_cache ≡ cached 0 (set_buf 0 (count_up (full_cache.buf 0)) full_cache)
second_use = getblk-again empty_cache 1 5 0 full_cache (omega arith) first_block

getblk-GotBlock_example : GotBlock empty_cache 1 5 (getblk 1 5 empty_cache)
getblk-GotBlock_example = getblk-GotBlock empty_cache 1 5 empty_cache-IsCache (omega arith)

getblk-brelse_example :
    brelse 0 (set_buf 0 (count_up (full_cache.buf 0)) full_cache) ≡ released full_cache
getblk-brelse_example =
    getblk-brelse full_cache 1 5 0 (set_buf 0 (count_up (full_cache.buf 0)) full_cache)
      (omega arith) second_use
