-- ===== src/Memory/Pages.antt =====
-- The allocator: what `get_free_page` and `free_page` do to the use counts and to memory.
use native.Mathlib.Decide.{dec_lt}
use learn_linux.Common.{
  ℕ, zero, suc, ◌+◌, ◌-◌, ◌*◌, ◌≤◌, ◌<◌, ◌≡◌, refl, ◌≢◌, ◌⊎◌, inl, inr, none, some, arith, ◌==◌,
  ==_refl, Option-cases, if◌then◌else◌, update,
}
use learn_linux.Memory.{
  Mm, Outcome, done, panic, ◌>>=◌, low_mem, paging_pages, map_nr, in_page, clear_page, last_free,
  take_page, get_free_page, free_page,
}

-- The scan finds a free page, and none behind it is free.
pub last_free_found : (n : ℕ) (m : ℕ → ℕ) (i : ℕ) → last_free n m ≡ some i → (i < n) × (m i ≡ 0)
unfolding last_free
last_free_found zero m i h = cc
last_free_found (suc n) m i h = ground (arith, last_free_found n m i)

pub last_free_last :
    (n : ℕ) (m : ℕ → ℕ) (i j : ℕ) → last_free n m ≡ some i → i < j → j < n → m j ≢ 0
unfolding last_free
last_free_last zero m i j h lt lt' = absurd (omega arith)
last_free_last (suc n) m i j h lt lt' = elim (dec_lt j n) [
  | yes p ↦ ground (arith, last_free_last n m i j)
  | no p ↦ ground arith
]

pub last_free-none : (n : ℕ) (m : ℕ → ℕ) (j : ℕ) → last_free n m ≡ none → j < n → m j ≢ 0
unfolding last_free
last_free-none zero m j h lt = absurd (omega arith)
last_free-none (suc n) m j h lt = elim (dec_lt j n) [
  | yes p ↦ ground (arith, last_free-none n m j)
  | no p ↦ ground arith
]

-- What a call of `get_free_page` leaves: no page was free and nothing is changed; or the page with
-- the highest number that was free is taken. It was free and is now used once, its words are 0, and
-- nothing else is changed.
pub data Taken (s : Mm) : Outcome ℕ → Type 0 where
  full : ((j : ℕ) → j < paging_pages → s.mem_map j ≢ 0) → Taken s (done 0 s)
  taken :
      {i : ℕ} {t : Mm}
      → i < paging_pages
      → s.mem_map i ≡ 0
      → ((j : ℕ) → i < j → j < paging_pages → s.mem_map j ≢ 0)
      → ((j : ℕ) → t.mem_map j ≡ (if i == j then 1 else s.mem_map j))
      → ((a : ℕ) → t.word a ≡ (if in_page (low_mem + i * 4096) a then 0 else s.word a))
      → t.high_memory ≡ s.high_memory
      → Taken s (done (low_mem + i * 4096) t)

-- `get_free_page` takes the last free page, marks it as used once, clears it and changes nothing
-- else; or it returns 0 and changes nothing, and then no page is free.
pub get_free_page-Taken : (s : Mm) → Taken s (get_free_page s)
unfolding get_free_page
get_free_page-Taken s = elim (Option-cases (last_free paging_pages s.mem_map)) [
  | inl nothing ↦ rw nothing (full (λ j. last_free-none paging_pages s.mem_map j nothing))
  | inr (i, found) ↦
      let (fits, free) = last_free_found paging_pages s.mem_map i found in
      rw found (
        taken fits free (λ j. last_free_last paging_pages s.mem_map i j found) (λ j. refl)
          (λ a. refl) refl)
]

map_nr-page : (i : ℕ) → map_nr (low_mem + i * 4096) ≡ i
map_nr-page i = omega arith

-- What is left when the page `i` has been taken and is freed at once.
abbrev given_back : ℕ → Mm → Mm
given_back i s = record s {
  word = clear_page (low_mem + i * 4096) s.word;
  mem_map = update (update s.mem_map i 1) i 0;
}

free_taken :
    (i : ℕ) (s : Mm)
    → i < paging_pages
    → low_mem + paging_pages * 4096 ≤ s.high_memory
    → (take_page (some i) >>= free_page) s ≡ done tt (given_back i s)
unfolding free_page
free_taken i s fits high = rw map_nr-page (ground (arith, ==_refl i))

given_back_counts :
    (i : ℕ) (s : Mm) (j : ℕ) → s.mem_map i ≡ 0 → (given_back i s).mem_map j ≡ s.mem_map j
given_back_counts i s j free = ground arith

-- On a machine with all of the 15 MB that are paged, a page that `get_free_page` takes can be given
-- back at once: either no page is free, or `free_page` succeeds on the page and the use counts of
-- all pages are what they were before both calls.
pub free_page-get_free_page :
    (s : Mm)
    → low_mem + paging_pages * 4096 ≤ s.high_memory
    → (get_free_page s ≡ done 0 s)
      ⊎ ((u : Mm) × ((get_free_page >>= free_page) s ≡ done tt u)
          × ((j : ℕ) → u.mem_map j ≡ s.mem_map j))
unfolding get_free_page
free_page-get_free_page s high = elim (Option-cases (last_free paging_pages s.mem_map)) [
  | inl nothing ↦ inl (rw nothing)
  | inr (i, found) ↦
      let (fits, free) = last_free_found paging_pages s.mem_map i found in
      inr (
        given_back i s,
        rw (found, ◌>>=◌) (free_taken i s fits high),
        λ j. given_back_counts i s j free,
      )
]

-- `free_page` on a page of the machine: it stops the kernel exactly when the page is not in use,
-- and else lowers that page's count by one and no other.
pub free_page_counts :
    (s : Mm) (i : ℕ)
    → low_mem + i * 4096 < s.high_memory
    → ((s.mem_map i ≡ 0) × (free_page (low_mem + i * 4096) s ≡ panic))
      ⊎ ((0 < s.mem_map i)
          × (free_page (low_mem + i * 4096) s
              ≡ done tt (record s { mem_map = update s.mem_map i (s.mem_map i - 1) })))
unfolding free_page
free_page_counts s i h = ground arith
