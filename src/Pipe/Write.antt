-- ===== src/Pipe/Write.antt =====
-- What `write_pipe` writes.
use learn_linux.Common.{
  ℕ, zero, suc, ◌+◌, ◌-◌, ◌≤◌, ◌<◌, ◌≡◌, refl, sym, ap, ◌∙◌, ◌≢◌, ◌⊎◌, inl, inr, true, false,
  Option, some, List, [], ◌∷◌, ◌++◌, arith, ◌==◌, Bool-cases, length, take,
}
use mathlib.Core.List.{append-nil, append_assoc}
use learn_linux.Pipe.{
  page_size, Pipe, pipe_size, wake, Transfer, returned, sleeps, broken, drop, room, write_chars,
  put_in, write_waits, write_loop, write_pipe,
}
use learn_linux.Pipe.Ring.{contents, IsPipe, put_in-contents, same-IsPipe, put_in-IsPipe}

take-drop : (k : ℕ) (bs : List ℕ) → take k bs ++ drop k bs ≡ bs
take-drop zero bs = refl
take-drop (suc k) [] = refl
take-drop (suc k) (b ∷ bs) = ap (b ∷◌) (take-drop k bs)

length-take : (k : ℕ) (bs : List ℕ) → k ≤ length bs → length (take k bs) ≡ k
length-take zero bs low = refl
length-take (suc k) [] low = absurd (omega arith)
length-take (suc k) (b ∷ bs) low = ap suc (length-take k bs (omega arith))

length-drop : (k : ℕ) (bs : List ℕ) → length (drop k bs) ≡ length bs - k
length-drop zero bs = omega arith
length-drop (suc k) [] = omega arith
length-drop (suc k) (b ∷ bs) = length-drop k bs ∙ omega arith

-- What a call of `write_pipe` with the bytes `buf` left does, where `written` is written already: all
-- is written; or the pipe is full, and the call sleeps if a reader is there, and else ends with
-- SIGPIPE. The bytes written are the first ones of `buf`, and are put at the end of the pipe.
pub data Written (p : Pipe) (buf written : List ℕ) (r : Option Transfer) : Type 0 where
  ends :
      (q : Pipe)
      → r ≡ some (returned (written ++ buf) q)
      → IsPipe q
      → contents q ≡ contents p ++ buf
      → Written p buf written r
  stops :
      (sent left : List ℕ) (q : Pipe)
      → ((r ≡ some (sleeps (written ++ sent) left (length left) q)) × (q.i_count ≡ 2))
        ⊎ ((r ≡ some (broken (written ++ sent) q)) × (q.i_count ≢ 2))
      → IsPipe q
      → contents q ≡ contents p ++ sent
      → sent ++ left ≡ buf
      → (0 < length left) × (pipe_size q ≡ page_size - 1)
      → Written p buf written r

module _ (p : Pipe) (b : ℕ) (bs written : List ℕ) (ok : IsPipe p) where
  write_waits-Written :
      (room p == 0) ≡ true → Written p (b ∷ bs) written (some (write_waits (b ∷ bs) written p))
  write_waits-Written full =
      let none_left : pipe_size p ≡ page_size - 1 = ground arith in
      elim (Bool-cases (p.i_count == 2)) [
        | inl reader ↦
            stops [] (b ∷ bs) (record p { sleeper = true })
              (inl (rw (reader, append-nil written) refl, ground arith)) (same-IsPipe p true ok)
              (sym (append-nil (contents p))) refl (omega arith, none_left)
        | inr alone ↦
            stops [] (b ∷ bs) (wake p) (inr (rw (alone, append-nil written) refl, ground arith))
              (same-IsPipe p false ok) (sym (append-nil (contents p))) refl (omega arith, none_left)
      ]

  -- A round that writes some bytes, before a call for the rest.
  write_more :
      (chars : ℕ) (r : Option Transfer)
      → chars ≤ length (b ∷ bs)
      → chars ≤ room p
      → p.head + chars ≤ page_size
      → (let sent = take chars (b ∷ bs) in
          Written (put_in sent p) (drop chars (b ∷ bs)) (written ++ sent) r)
      → Written p (b ∷ bs) written r
  write_more chars r few most fits done =
      let sent = take chars (b ∷ bs) in
      let rest = drop chars (b ∷ bs) in
      let n : length sent ≡ chars = length-take chars (b ∷ bs) few in
      let put : contents (put_in sent p) ≡ contents p ++ sent =
        put_in-contents sent p ok (omega arith) (omega arith) in
      elim done [
        | ends q e ok' same ↦
            ends q (e ∙ rw (append_assoc written sent rest, take-drop chars (b ∷ bs)) refl) ok'
              (same ∙ rw (put, append_assoc (contents p) sent rest, take-drop chars (b ∷ bs)) refl)
        | stops more left q e ok' same split full ↦
            let e' = append_assoc written sent more in
            stops (sent ++ more) left q
              (elim e [
                | inl (asleep, two) ↦ inl (asleep ∙ rw e' refl, two)
                | inr (pipe, alone) ↦ inr (pipe ∙ rw e' refl, alone)
              ])
              ok' (same ∙ rw (put, append_assoc (contents p) sent more) refl)
              (append_assoc sent more left ∙ rw split (take-drop chars (b ∷ bs))) full
      ]

write_loop-Written :
    (fuel : ℕ) (buf written : List ℕ) (p : Pipe)
    → IsPipe p
    → length buf ≤ fuel
    → Written p buf written (write_loop fuel buf written p)
unfolding write_loop
write_loop-Written zero [] written p ok low =
    ends (wake p) (rw (append-nil written) refl) (same-IsPipe p false ok)
      (sym (append-nil (contents p)))
write_loop-Written (suc fuel) [] written p ok low =
    ends (wake p) (rw (append-nil written) refl) (same-IsPipe p false ok)
      (sym (append-nil (contents p)))
write_loop-Written zero (b ∷ bs) written p ok low = absurd (omega arith)
write_loop-Written (suc fuel) (b ∷ bs) written p ok low = elim (Bool-cases (room p == 0)) [
  | inl full ↦ rw full (write_waits-Written p b bs written ok full)
  | inr free ↦
      let chars = write_chars (length (b ∷ bs)) p in
      let head_lt = ok.head_lt in
      let some_chars : 1 ≤ chars = ground (arith, head_lt) in
      let few : chars ≤ length (b ∷ bs) = ground (arith, head_lt) in
      let most : chars ≤ room p = ground (arith, head_lt) in
      let fits : p.head + chars ≤ page_size = ground (arith, head_lt) in
      let sent = take chars (b ∷ bs) in
      let shorter = length-drop chars (b ∷ bs) in
      rw free (
        write_more p b bs written ok chars _ few most fits (
          write_loop-Written fuel (drop chars (b ∷ bs)) _ (put_in sent p) (put_in-IsPipe sent p ok)
            (omega arith)))
]

-- `write_pipe` ends, for any bytes, on any pipe whose head and tail are in the page: it writes all of
-- them; or the first ones, with the pipe then full, and it sleeps if a reader is there, and else ends
-- with SIGPIPE. The bytes written are put at the end of the pipe, in order, and the bytes that were
-- there stay.
pub write_pipe-Written : (buf : List ℕ) (p : Pipe) → IsPipe p → Written p buf [] (write_pipe buf p)
unfolding write_pipe
write_pipe-Written buf p ok = write_loop-Written (length buf) buf [] p ok (omega arith)
