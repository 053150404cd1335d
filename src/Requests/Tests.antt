-- ===== src/Requests/Tests.antt =====
-- A write of a block while another block is being read.
use learn_linux.Common.{true, false, [], ◌∷◌, ◌==◌, if◌then◌else◌}
use learn_linux.Common.Int.{pos, neg}
use learn_linux.Requests.{Request, Buffer, Device}

abbrev busy : Request
busy = record { dev = pos 769; cmd = 0; sector = 10; nr_sectors = 2; bh = 3 }

abbrev one_request : Device
one_request = record {
  request = λ i. if i == 31 then busy else record busy { dev = neg 1 };
  queue = 31 ∷ [];
}

abbrev dirty : Buffer
dirty = record {
  number = 5;
  b_dev = 769;
  b_blocknr = 40;
  b_dirt = true;
  b_uptodate = true;
  b_lock = false;
  sleeper = false;
}
