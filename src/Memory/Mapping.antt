-- ===== src/Memory/Mapping.antt =====
-- What the page tables say after a fault: the entry that `put_page` makes, and the private copy that
-- `un_wp_page` makes of a shared page.
use learn_linux.Common.{
  ℕ, ◌+◌, ◌-◌, ◌*◌, ◌%◌, ◌<◌, ◌≡◌, ◌≢◌, ◌⊎◌, inl, inr, false, true, some, arith, ◌==◌, ==_refl, leb,
  Bool-cases, Option-cases, if◌then◌else◌, update,
}
use learn_linux.Memory.{
  Mm, done, oom, ◌>>=◌, low_mem, paging_pages, map_nr, in_page, clear_page, last_free, take_page,
  get_free_page,
}
use learn_linux.Memory.Tables.{present, frame, writable, user_entry}
use learn_linux.Memory.Faults.{is_private, give_copy, un_wp_page}
use learn_linux.Memory.Pages.{last_free_found, last_free-none}

-- What is true of the tables that a task runs on: the entry at `table_entry` is present and lies in
-- a page that is in use and is not the page it points to, which is in use too.
pub record IsMapped (s : Mm) (table_entry : ℕ) : Type 0 where
  pub is_present : present (s.word table_entry) ≡ true
  pub apart : in_page (frame (s.word table_entry)) table_entry ≡ false
  pub entry_used : (table_entry < low_mem) ⊎ (s.mem_map (map_nr table_entry) ≢ 0)
  pub page_used :
      (frame (s.word table_entry) < low_mem) ⊎ (s.mem_map (map_nr (frame (s.word table_entry))) ≢ 0)

-- The entry is present, is writable, and points to a page of memory that is in use once, with the
-- words that the page had before which it pointed to.
pub record IsUnshared (s : Mm) (table_entry : ℕ) (t : Mm) : Type 0 where
  pub may_write : t.word table_entry % 4 ≡ 3
  pub own : is_private (frame (t.word table_entry)) t ≡ true
  pub contents :
      (off : ℕ)
      → off < 4096
      → t.word (frame (t.word table_entry) + off) ≡ s.word (frame (s.word table_entry) + off)

update_self : (f : ℕ → ℕ) (a v : ℕ) → update f a v a ≡ v
update_self f a v = rw ==_refl

frame-writable : (e : ℕ) → present e ≡ true → frame (writable e) ≡ frame e
frame-writable e h = ground arith

frame-user_entry : (i : ℕ) → frame (user_entry (low_mem + i * 4096)) ≡ low_mem + i * 4096
frame-user_entry i = omega arith

outside : (page a off : ℕ) → in_page page a ≡ false → off < 4096 → (a == page + off) ≡ false
outside page a off h lt = ground arith

inside : (page off : ℕ) → off < 4096 → in_page page (page + off) ≡ true
inside page off lt = ground arith

add-sub : (a b : ℕ) → a + b - a ≡ b
add-sub a b = omega arith

-- Two pages that are not the same page have no address in common.
other_page :
    (e i off : ℕ)
    → off < 4096
    → frame e ≢ low_mem + i * 4096
    → in_page (low_mem + i * 4096) (frame e + off) ≡ false
other_page e i off lt ne = ground arith

-- What `give_copy` leaves when it gets the page `i`.
abbrev counts_after : (s : Mm) (old_page i : ℕ) → ℕ → ℕ
counts_after s old_page i =
    if leb low_mem old_page
    then update (update s.mem_map i 1) (map_nr old_page)
        ((update s.mem_map i 1 (map_nr old_page) + 255) % 256)
    else update s.mem_map i 1

abbrev copied : (s : Mm) (table_entry i : ℕ) → Mm
copied s table_entry i =
    let old_page = frame (s.word table_entry) in
    let new_page = low_mem + i * 4096 in
    let w = update (clear_page new_page s.word) table_entry (user_entry new_page) in
    record s {
      word = λ a. if in_page new_page a then w (old_page + (a - new_page)) else w a;
      mem_map = counts_after s old_page i;
    }

module _ (s : Mm) (table_entry : ℕ) (m : IsMapped s table_entry) where
  own_page-IsUnshared :
      is_private (frame (s.word table_entry)) s ≡ true
      → IsUnshared s table_entry
          (record s { word = update s.word table_entry (writable (s.word table_entry)) })
  own_page-IsUnshared own = record {
    may_write = ground (arith, m.is_present);
    own = rw (update_self, frame-writable _ m.is_present) own;
    contents = λ off h. rw (
      update_self,
      frame-writable _ m.is_present,
      outside (frame (s.word table_entry)) table_entry off m.apart h,
    );
  }

  -- The state that `give_copy` leaves when the page `i` was free.
  module _ (i : ℕ) (free : s.mem_map i ≡ 0) where
    page_ne : frame (s.word table_entry) ≢ low_mem + i * 4096
    page_ne e = elim m.page_used [
      | inl low ↦ omega arith
      | inr busy ↦
          let same : map_nr (frame (s.word table_entry)) ≡ i = omega arith in busy (rw same free)
    ]

    entry_out : in_page (low_mem + i * 4096) table_entry ≡ false
    entry_out = elim (Bool-cases (in_page (low_mem + i * 4096) table_entry)) [
      | inr out ↦ out
      | inl hit ↦ elim m.entry_used [
        | inl low ↦ ground arith
        | inr busy ↦
            let same : map_nr table_entry ≡ i = ground arith in absurd (busy (rw same free))
      ]
    ]

    copied_entry : (copied s table_entry i).word table_entry ≡ user_entry (low_mem + i * 4096)
    copied_entry = rw (entry_out, ==_refl)

    copied_contents :
        (off : ℕ)
        → off < 4096
        → (copied s table_entry i).word (low_mem + i * 4096 + off)
          ≡ s.word (frame (s.word table_entry) + off)
    copied_contents off h = rw (
      inside (low_mem + i * 4096) off h,
      add-sub (low_mem + i * 4096) off,
      outside (frame (s.word table_entry)) table_entry off m.apart h,
      other_page (s.word table_entry) i off h page_ne,
    )

    copied_own : is_private (low_mem + i * 4096) (copied s table_entry i) ≡ true
    copied_own = ground (arith, page_ne)

    copied-IsUnshared : IsUnshared s table_entry (copied s table_entry i)
    copied-IsUnshared = record {
      may_write = rw copied_entry (omega arith);
      own = rw (copied_entry, frame-user_entry) copied_own;
      contents = λ off h. rw (copied_entry, frame-user_entry) (copied_contents off h);
    }

    give_copy-copied :
        last_free paging_pages s.mem_map ≡ some i
        → give_copy table_entry (frame (s.word table_entry)) s ≡ done tt (copied s table_entry i)
    give_copy-copied found =
        let got : get_free_page s ≡ take_page (some i) s = unfold get_free_page in rw found in
        rw (got, give_copy, ◌>>=◌) (ground arith)

  -- A write to a present page that may be shared: `un_wp_page` either finds no page free, or leaves
  -- the entry present and writable, on a page of its own that is in use once and has the words that
  -- the page had before.
  pub un_wp_page-IsUnshared :
      (((j : ℕ) → j < paging_pages → s.mem_map j ≢ 0) × (un_wp_page table_entry s ≡ oom))
      ⊎ ((t : Mm) × (un_wp_page table_entry s ≡ done tt t) × IsUnshared s table_entry t)
  unfolding un_wp_page
  un_wp_page-IsUnshared = elim (Bool-cases (is_private (frame (s.word table_entry)) s)) [
    | inl own ↦ inr (_, rw own, own_page-IsUnshared own)
    | inr shared ↦ elim (Option-cases (last_free paging_pages s.mem_map)) [
      | inl nothing ↦ inl (
        λ j. last_free-none paging_pages s.mem_map j nothing,
        rw (shared, nothing, give_copy, ◌>>=◌),
      )
      | inr (i, found) ↦
          let free = (last_free_found paging_pages s.mem_map i found).1 in
          inr (
            copied s table_entry i,
            rw shared (give_copy-copied i free found),
            copied-IsUnshared i free,
          )
    ]
  ]
