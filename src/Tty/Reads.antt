-- ===== src/Tty/Reads.antt =====
-- tty_read of linux-0.11/kernel/chr_drv/tty_io.c takes whole lines off the count.
use learn_linux.Common.{
  by_test, ℕ, zero, suc, ◌+◌, ◌-◌, ◌%◌, ◌^◌, ◌≤◌, ◌<◌, ◌≡◌, refl, ap, ◌∙◌, ◌≢◌, inl, inr, Bool,
  true, false, not, ◌&&◌, ◌||◌, List, [], ◌∷◌, length, length-append, arith, ◌==◌, Bool-cases,
  if◌then◌else◌,
}
use learn_linux.Common.Int.{pos}
use learn_linux.Common.Words.{Word, without_bit, any_below}
use learn_linux.Task.{eintr, sigalrm_bit}
use learn_linux.Tty.{Tty, empty, chars, is_char, ends_line}
use learn_linux.Tty.Queues.{passing-le, counted, counted-drop_first}
use learn_linux.Tty.Lines.{IsLine}
use learn_linux.Tty.Reading.{
  Reader, Taken, end_of_file, goes_on, take_first, take_char, take_chars, TtyRead, returned, waits,
  leave, is_first, set_alarm, has_enough, nothing_there, after_chars, read_rounds, tty_read,
}

one_less :
    (b : Bool) (x n : ℕ)
    → x ≡ (if b then 1 else 0) + n
    → x < 4294967296
    → (if b then (x + 2 ^ 32 - 1) % 2 ^ 32 else x) ≡ n
one_less true x n e low = omega arith
one_less false x n e low = omega arith

-- The line is counted after a character is taken.
take_first-IsLine :
    (tty : Tty)
    → IsLine tty.termios tty.secondary
    → empty tty.secondary ≡ false
    → IsLine tty.termios (take_first tty).secondary
take_first-IsLine tty k some_char =
    let t = tty.termios in
    let s = tty.secondary in
    let h = k.queue.head_lt in
    let l = k.queue.tail_lt in
    let bound : counted (ends_line t) s ≤ chars s =
      passing-le (ends_line t) s.buf s.tail (chars s) in
    let split = counted-drop_first (ends_line t) s k.queue some_char in
    let e = k.counts in
    record {
      queue = record { head_lt = h; tail_lt = omega arith };
      counts = one_less (ends_line t (s.buf s.tail)) s.lines _ (k.counts ∙ split) (omega arith);
    }

-- A call for n characters, in which n - r.nr have been read
pub record IsReading (n : ℕ) (r : Reader) : Type 0 where
  pub line : IsLine r.tty.termios r.tty.secondary
  pub count : length r.bytes + r.nr ≡ n

module _ (n : ℕ) where
  abbrev IsTaken : (less : ℕ) → Taken → Type 0
  IsTaken less (end_of_file r) = IsReading n r
  IsTaken less (goes_on r) = IsReading n r × (r.nr < less)

  take_char-IsReading :
      (r : Reader)
      → IsReading n r
      → empty r.tty.secondary ≡ false
      → r.nr ≢ 0
      → IsReading n (take_char r)
  take_char-IsReading r k some_char more =
      let longer = length-append r.bytes (r.tty.secondary.buf r.tty.secondary.tail ∷ []) in
      let c = k.count in
      record { line = take_first-IsLine r.tty k.line some_char; count = omega arith }

  take_chars-IsTaken :
      (fuel less : ℕ) (r : Reader)
      → IsReading n r
      → empty r.tty.secondary ≡ false
      → r.nr ≡ fuel
      → fuel ≢ 0
      → fuel ≤ less
      → IsTaken less (take_chars fuel r)
  unfolding take_chars
  take_chars-IsTaken zero less r k some_char same more le = let no : ⊥ = more refl in elim no [ ]
  take_chars-IsTaken (suc fuel) less r k some_char same more le =
      let after = take_char-IsReading r k some_char (omega arith) in
      let s = r.tty.secondary in
      by_test (IsTaken less) (is_char (s.buf s.tail) r.tty.termios.eof_char && r.tty.termios.icanon)
        (end_of_file (record r { tty = take_first r.tty }))
        (if (take_char r).nr == 0 || empty (take_char r).tty.secondary
          then goes_on (take_char r)
          else take_chars fuel (take_char r))
        (λ e. record { line = take_first-IsLine r.tty k.line some_char; count = k.count })
        λ e.
          by_test (IsTaken less) ((take_char r).nr == 0 || empty (take_char r).tty.secondary)
            (goes_on (take_char r)) _ (λ e'. (after, omega arith))
            λ e'.
              let more' : fuel ≢ 0 = ground arith in
              take_chars-IsTaken fuel less (take_char r) after (ground arith) (omega arith) more'
                (omega arith)

-- How `tty_read` for n characters can end.
pub data ReadTty (n : ℕ) : TtyRead → Type 0 where
  read :
      {o : TtyRead} (r : Reader)
      → o ≡ returned (pos (length r.bytes)) r
      → IsReading n r
      → ReadTty n o
  interrupted :
      {o : TtyRead} (r : Reader)
      → o ≡ returned eintr r
      → any_below 32 r.signal ≡ true
      → r.bytes ≡ []
      → IsReading n r
      → ReadTty n o
  waiting : {o : TtyRead} (r : Reader) → o ≡ waits r → IsReading n r → ReadTty n o

no_bytes : (l : List ℕ) → (length l == 0) ≡ true → l ≡ []
no_bytes [] e = refl
no_bytes (x ∷ xs) e = let no : ⊥ = ground arith in elim no [ ]

module _ (n oldalarm : ℕ) where
  leave-ReadTty : (r : Reader) → IsReading n r → ReadTty n (leave oldalarm r)
  leave-ReadTty r k =
      let r' : Reader = record r { alarm = oldalarm } in
      let k' : IsReading n r' = record { line = k.line; count = k.count } in
      elim (Bool-cases (any_below 32 r.signal && length r.bytes == 0)) [
        | inl stop ↦
            interrupted r'
              (ap (λ (b : Bool). returned (if b then eintr else pos (length r.bytes)) r') stop)
              (ground arith) (no_bytes r.bytes (ground arith)) k'
        | inr through ↦
            read r'
              (ap (λ (b : Bool). returned (if b then eintr else pos (length r.bytes)) r') through)
              k'
      ]

  set_alarm-IsReading :
      (time jiffies : ℕ) (r : Reader)
      → IsReading n r
      → IsReading n (set_alarm oldalarm time jiffies r)
        × ((set_alarm oldalarm time jiffies r).nr ≡ r.nr)
  set_alarm-IsReading time jiffies r k =
      by_test (λ (z : Reader). IsReading n z × (z.nr ≡ r.nr))
        (not (time == 0) && not r.tty.termios.icanon)
        (record r {
          flag = is_first oldalarm time jiffies;
          alarm = if is_first oldalarm time jiffies then time + jiffies else oldalarm;
        })
        r (λ e. (record { line = k.line; count = k.count }, refl)) (λ e. (k, refl))

  module _ (time jiffies minimum : ℕ) where
    after_chars-ReadTty :
        (less : ℕ) (again : Reader → TtyRead)
        → ((r : Reader) → IsReading n r → r.nr < less → ReadTty n (again r))
        → (t : Taken) → IsTaken n less t
        → ReadTty n (after_chars oldalarm time jiffies minimum again t)
    after_chars-ReadTty less again next (end_of_file r) k = read r refl k
    after_chars-ReadTty less again next (goes_on r0) (k, low) =
        let r = set_alarm oldalarm time jiffies r0 in
        let set = set_alarm-IsReading time jiffies r0 k in
        by_test (ReadTty n) (has_enough minimum r) (leave oldalarm r) (again r)
          (λ e. leave-ReadTty r set.0) (λ e. let same = set.1 in next r set.0 (omega arith))

    read_rounds-ReadTty :
        (fuel : ℕ) (r : Reader)
        → IsReading n r
        → r.nr < fuel
        → ReadTty n (read_rounds oldalarm time jiffies minimum fuel r)
    unfolding read_rounds
    read_rounds-ReadTty zero r k low = let no : ⊥ = omega arith in elim no [ ]
    read_rounds-ReadTty (suc fuel) r k low =
        by_test (ReadTty n) (r.nr == 0) _ _ (λ e. leave-ReadTty r k)
          λ e.
            by_test (ReadTty n) (r.flag && r.signal sigalrm_bit) _ _
              (λ e'.
                leave-ReadTty (record r { signal = without_bit r.signal sigalrm_bit })
                  (record { line = k.line; count = k.count }))
              λ e'.
                by_test (ReadTty n) (any_below 32 r.signal) _ _ (λ f. leave-ReadTty r k)
                  λ f.
                    by_test (ReadTty n) (nothing_there r.tty) _ _ (λ g. waiting r refl k)
                      λ g.
                        let some_char : empty r.tty.secondary ≡ false = ground arith in
                        let more : r.nr ≢ 0 = ground arith in
                        after_chars-ReadTty r.nr (read_rounds oldalarm time jiffies minimum fuel)
                          (λ r' k' low'. read_rounds-ReadTty fuel r' k' (omega arith))
                          (take_chars r.nr r)
                          (take_chars-IsTaken n r.nr r.nr r k some_char refl more (omega arith))

-- tty_read for a number of characters, on a terminal whose count of lines is right, whatever the
-- alarm, the signals, VTIME and VMIN are: it returns the number of the characters that it has read,
-- or -EINTR with a signal pending and none read, or it waits; the characters read and those still
-- asked for make the number asked for, so it never reads more, and the count of lines is right
-- again.
pub tty_read-ReadTty :
    (tty : Tty) (vtime vmin nr jiffies oldalarm : ℕ) (signal : Word)
    → IsLine tty.termios tty.secondary
    → ReadTty nr (tty_read tty vtime vmin nr jiffies oldalarm signal)
unfolding tty_read
tty_read-ReadTty tty vtime vmin nr jiffies oldalarm signal k =
    read_rounds-ReadTty nr oldalarm _ jiffies _ (nr + 1) _
      (record { line = k; count = omega arith }) (omega arith)
