-- ===== src/Pipe/Read.antt =====
-- What `read_pipe` reads.
use learn_linux.Common.{
  ℕ, zero, suc, ◌+◌, ◌-◌, ◌≤◌, ◌<◌, ◌≡◌, refl, ◌∙◌, ◌≢◌, ◌⊎◌, inl, inr, true, false, Option, some,
  List, [], ◌++◌, arith, ◌==◌, Bool-cases, length, length-append,
}
use mathlib.Core.List.{append-nil, append_assoc}
use learn_linux.Pipe.{
  page_size, Pipe, pipe_size, wake, Transfer, returned, sleeps, page_bytes, read_chars, take_out,
  read_waits, read_loop, read_pipe,
}
use learn_linux.Pipe.Ring.{
  contents, IsPipe, take_out-contents, empty_contents, length-page_bytes, same-IsPipe,
  take_out-IsPipe,
}

-- What a call of `read_pipe` for `count` more bytes does, where `read` is read already: it returns,
-- with all that it was asked for or with the pipe empty and no writer; or it sleeps, with the pipe
-- empty and a writer there. What is in the pipe is what was in it, less the bytes read, from its
-- front.
pub data Read (p : Pipe) (count : ℕ) (read : List ℕ) (r : Option Transfer) : Type 0 where
  ends :
      (bytes : List ℕ) (q : Pipe)
      → r ≡ some (returned (read ++ bytes) q)
      → IsPipe q
      → bytes ++ contents q ≡ contents p
      → (length bytes ≡ count) ⊎ ((length bytes < count) × (contents q ≡ []) × (q.i_count ≢ 2))
      → Read p count read r
  waits :
      (bytes : List ℕ) (left : ℕ) (q : Pipe)
      → r ≡ some (sleeps (read ++ bytes) [] left q)
      → IsPipe q
      → bytes ++ contents q ≡ contents p
      → (0 < left) × (length bytes + left ≡ count)
      → (contents q ≡ []) × (q.i_count ≡ 2) × (q.sleeper ≡ true)
      → Read p count read r

module _ (p : Pipe) (c : ℕ) (read : List ℕ) (ok : IsPipe p) where
  read_waits-Read :
      (pipe_size p == 0) ≡ true → Read p (suc c) read (some (read_waits (suc c) read p))
  read_waits-Read empty = elim (Bool-cases (p.i_count == 2)) [
    | inl writer ↦
        waits [] (suc c) (record p { sleeper = true }) (rw (writer, append-nil read) refl)
          (same-IsPipe p true ok) refl (omega arith, omega arith)
          (empty_contents p empty, ground arith, refl)
    | inr alone ↦
        ends [] (wake p) (rw (alone, append-nil read) refl) (same-IsPipe p false ok) refl
          (inr (omega arith, empty_contents p empty, ground arith))
  ]

  -- A round that reads some bytes, before a call for the rest.
  first_round :
      (chars : ℕ) (r : Option Transfer)
      → chars ≤ suc c
      → chars ≤ pipe_size p
      → p.tail + chars ≤ page_size
      → Read (take_out chars p) (suc c - chars) (read ++ page_bytes p.page p.tail chars) r
      → Read p (suc c) read r
  first_round chars r few most low (ends bytes q e ok' same all) =
      let front = page_bytes p.page p.tail chars in
      let long = length-page_bytes p.page p.tail chars in
      let n : length (front ++ bytes) ≡ chars + length bytes =
        length-append front bytes ∙ rw long refl in
      ends (front ++ bytes) q (e ∙ rw (append_assoc read front bytes) refl) ok'
        (append_assoc front bytes (contents q) ∙ rw same (take_out-contents chars p ok most low))
        (elim all [
          | inl full ↦ inl (omega (arith, n, full, few))
          | inr (less, empty, alone) ↦ inr (omega (arith, n, less, few), empty, alone)
        ])
  first_round chars r few most low (waits bytes left q e ok' same count empty) =
      let front = page_bytes p.page p.tail chars in
      let long = length-page_bytes p.page p.tail chars in
      let n : length (front ++ bytes) ≡ chars + length bytes =
        length-append front bytes ∙ rw long refl in
      waits (front ++ bytes) left q (e ∙ rw (append_assoc read front bytes) refl) ok'
        (append_assoc front bytes (contents q) ∙ rw same (take_out-contents chars p ok most low))
        (count.0, omega (arith, n, count.1, few)) empty

read_loop-Read :
    (fuel count : ℕ) (read : List ℕ) (p : Pipe)
    → IsPipe p
    → count ≤ fuel
    → Read p count read (read_loop fuel count read p)
unfolding read_loop
read_loop-Read zero zero read p ok low =
    ends [] (wake p) (rw (append-nil read) refl) (same-IsPipe p false ok) refl (inl refl)
read_loop-Read (suc fuel) zero read p ok low =
    ends [] (wake p) (rw (append-nil read) refl) (same-IsPipe p false ok) refl (inl refl)
read_loop-Read zero (suc c) read p ok low = absurd (omega arith)
read_loop-Read (suc fuel) (suc c) read p ok low = elim (Bool-cases (pipe_size p == 0)) [
  | inl empty ↦ rw empty (read_waits-Read p c read ok empty)
  | inr bytes ↦
      let chars = read_chars (suc c) p in
      let tail_lt = ok.tail_lt in
      let some_chars : 1 ≤ chars = ground (arith, tail_lt) in
      let few : chars ≤ suc c = ground (arith, tail_lt) in
      let most : chars ≤ pipe_size p = ground (arith, tail_lt) in
      let fits : p.tail + chars ≤ page_size = ground (arith, tail_lt) in
      rw bytes (
        first_round p c read ok chars _ few most fits (
          read_loop-Read fuel (suc c - chars) _ (take_out chars p) (take_out-IsPipe chars p ok)
            (omega arith)))
]

-- `read_pipe` ends, for any count, on any pipe whose head and tail are in the page: it returns the
-- count of bytes asked for, or fewer bytes with the pipe then empty and no writer; or it sleeps, with
-- the pipe empty and a writer there, and a positive count left. The bytes read are those that came
-- off the front of the pipe.
pub read_pipe-Read : (count : ℕ) (p : Pipe) → IsPipe p → Read p count [] (read_pipe count p)
unfolding read_pipe
read_pipe-Read count p ok = read_loop-Read count count [] p ok (omega arith)
