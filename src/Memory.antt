-- ===== src/Memory.antt =====
-- linux-0.11/mm/memory.c: the allocator of physical pages. The state is the physical memory, word
-- by word at the words' addresses, the use count of each page (`mem_map`, unsigned chars) and the
-- end of memory. A run ends with a result and a state, or in `panic`, which halts the machine, or in
-- `oom`, which kills the current task. The inline assembly is modelled by what it leaves in memory.
pub mod Tables
pub mod Faults
pub mod Sharing
pub mod Pages
pub mod Mapping
pub mod Fork
mod Tests
use learn_linux.Common.{
  ℕ, zero, suc, ◌+◌, ◌-◌, ◌*◌, ◌/◌, ◌%◌, ◌^◌, Bool, ◌&&◌, Option, none, some, ◌==◌, ltb, leb,
  if◌then◌else◌, update,
}

pub record Mm : Type 0 where
  pub word : ℕ → ℕ
  pub mem_map : ℕ → ℕ
  pub high_memory : ℕ

pub data Outcome (A : Type 0) : Type 0 where
  done : A → Mm → Outcome A
  panic : Outcome A
  oom : Outcome A

abbrev pub M : Type 0 → Type 0
M A = Mm → Outcome A

abbrev pub pure : {A : Type 0} → A → M A
pure a s = done a s

infixl 5 ◌>>=◌ ◌>>◌
abbrev pub ◌>>=◌ : {A B : Type 0} → M A → (A → M B) → M B
◌>>=◌ m f s = elim (m s) [ done a s' ↦ f a s' | panic ↦ panic | oom ↦ oom ]

abbrev pub ◌>>◌ : {B : Type 0} → M (Unit {0}) → M B → M B
m >> k = m >>= λ _. k

-- *(unsigned long *) a
abbrev pub load : ℕ → M ℕ
load a s = done (s.word a) s

abbrev pub store : ℕ → ℕ → M (Unit {0})
store a v s = done tt (record s { word = update s.word a v })

abbrev pub low_mem : ℕ
low_mem = 0x100000

abbrev pub paging_pages : ℕ
paging_pages = 3840

abbrev pub used : ℕ
used = 100

-- MAP_NR(addr)
abbrev pub map_nr : ℕ → ℕ
map_nr addr = (addr - low_mem) / 4096

-- mem_map[i] = n
abbrev pub set_count : ℕ → ℕ → M (Unit {0})
set_count i n s = done tt (record s { mem_map = update s.mem_map i n })

abbrev pub in_page : ℕ → ℕ → Bool
in_page page a = leb page a && ltb a (page + 4096)

-- 1024 words from `page` on are set to 0
abbrev pub clear_page : ℕ → (ℕ → ℕ) → ℕ → ℕ
clear_page page w a = if in_page page a then 0 else w a

-- copy_page(from,to)
abbrev pub copy_page : ℕ → ℕ → M (Unit {0})
copy_page from to s =
    done tt (record s { word = λ a. if in_page to a then s.word (from + (a - to)) else s.word a })

-- `std ; repne ; scasb` from the end of the map: the last index below `n` with count 0
unfoldable pub last_free : ℕ → (ℕ → ℕ) → Option ℕ
last_free zero m = none
last_free (suc n) m = if m n == 0 then some n else last_free n m

abbrev take_page : Option ℕ → M ℕ
take_page none s = done 0 s
take_page (some i) s =
    done (low_mem + i * 4096)
      (record s { word = clear_page (low_mem + i * 4096) s.word; mem_map = update s.mem_map i 1 })

unfoldable pub get_free_page : M ℕ
get_free_page s = take_page (last_free paging_pages s.mem_map) s

pub free_page : ℕ → M (Unit {0})
free_page addr s =
    if ltb addr low_mem
    then done tt s
    else if leb s.high_memory addr
    then panic
    else if s.mem_map (map_nr addr) == 0
    then panic
    else set_count (map_nr addr) (s.mem_map (map_nr addr) - 1) s

-- The loop that sets `n` counts from index `i` on to 0.
pub release_range : (n i : ℕ) → (ℕ → ℕ) → ℕ → ℕ
release_range zero i m = m
release_range (suc n) i m = release_range n (i + 1) (update m i 0)

-- Every page is marked as used, and those of the range are then set free. The first loop runs over
-- the whole array, which has `paging_pages` entries.
pub mem_init : (start_mem end_mem : ℕ) → Mm → Mm
unfolding release_range
mem_init start_mem end_mem s = record s {
  high_memory = end_mem;
  mem_map =
      release_range ((end_mem - start_mem) / 4096) (map_nr start_mem)
        (λ i. if ltb i paging_pages then used else s.mem_map i);
}
