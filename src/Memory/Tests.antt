-- ===== src/Memory/Tests.antt =====
-- Runs of the memory manager on a machine with one page table, and the theorems there.
use learn_linux.Common.{ℕ, ◌<◌, ◌≡◌, refl, ◌≢◌, ◌⊎◌, inr, arith, ◌==◌, if◌then◌else◌}
use learn_linux.Memory.{Mm, done, oom, ◌>>=◌, paging_pages, get_free_page, free_page}
use learn_linux.Memory.Tables.{copy_entries}
use learn_linux.Memory.Faults.{un_wp_page}
use learn_linux.Memory.Pages.{Taken, get_free_page-Taken, free_page-get_free_page}
use learn_linux.Memory.Mapping.{IsMapped, IsUnshared, un_wp_page-IsUnshared}
use learn_linux.Memory.Fork.{IsForked, copy_entries-IsForked}

-- The table in page 256 has one entry, for page 512, which two tasks share.
abbrev shared : Mm
shared = record {
  word = λ a. if a == 0x200000 then 0x300005 else if a == 0x300000 then 42 else 0;
  mem_map = λ i. if i == 256 then 1 else if i == 512 then 2 else 0;
  high_memory = 0x1000000;
}

shared-IsMapped : IsMapped shared 0x200000
shared-IsMapped = record {
  is_present = refl;
  apart = refl;
  entry_used = inr (omega arith);
  page_used = inr (omega arith);
}

un_wp_page-IsUnshared_example :
    (((j : ℕ) → j < paging_pages → shared.mem_map j ≢ 0) × (un_wp_page 0x200000 shared ≡ oom))
    ⊎ ((t : Mm) × (un_wp_page 0x200000 shared ≡ done tt t) × IsUnshared shared 0x200000 t)
un_wp_page-IsUnshared_example = un_wp_page-IsUnshared shared 0x200000 shared-IsMapped

get_free_page-Taken_example : Taken shared (get_free_page shared)
get_free_page-Taken_example = get_free_page-Taken shared

free_page-get_free_page_example :
    (get_free_page shared ≡ done 0 shared)
    ⊎ ((u : Mm) × ((get_free_page >>= free_page) shared ≡ done tt u)
        × ((j : ℕ) → u.mem_map j ≡ shared.mem_map j))
free_page-get_free_page_example = free_page-get_free_page shared (omega arith)

copy_entries-IsForked_example :
    (t : Mm) × (copy_entries 1024 0x200000 0x400000 shared ≡ done tt t)
    × IsForked 1024 0x200000 0x400000 shared t
copy_entries-IsForked_example = copy_entries-IsForked 1024 0x200000 0x400000 shared (omega arith)
