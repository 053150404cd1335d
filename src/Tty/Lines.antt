-- ===== src/Tty/Lines.antt =====
-- copy_to_cooked of linux-0.11/kernel/chr_drv/tty_io.c counts the lines that it makes.

use learn_linux.Common.{
  by_test, ℕ, zero, suc, ◌+◌, ◌%◌, ◌^◌, ◌≤◌, ◌<◌, ◌≡◌, sym, ◌∙◌, ◌≢◌, Bool, true, false, not,
  Option, none, some, arith, ◌==◌, if◌then◌else◌,
}
use learn_linux.Tty.{
  Queue, Termios, Tty, empty, full, last, chars, putch, drop_last, is_char, is_control, ends_line,
}
use learn_linux.Tty.Queues.{IsQueue, passing-le, counted, counted-putch, counted-drop_last}
use learn_linux.Tty.Cooking.{
  lower, put_out, write_out, at_line_start, erase_last, kill_line, edit, signal_of, keep_char,
  State, plain, edited, converted,
}

-- The count of lines is that of the characters in the queue that end one.
pub record IsLine (t : Termios) (s : Queue) : Type 0 where
  pub queue : IsQueue s
  pub counts : s.lines ≡ counted (ends_line t) s

add_none : (n : ℕ) (b : Bool) → b ≡ false → n + (if b then 1 else 0) ≡ n
add_none n b e = rw e (omega arith)

count_one :
    (b : Bool) (x n : ℕ)
    → x ≡ n
    → n < 4294967295
    → (if b then (x + 1) % 2 ^ 32 else x) ≡ n + (if b then 1 else 0)
count_one true x n e low = omega arith
count_one false x n e low = omega arith

drop_last-IsLine :
    (t : Termios) (s : Queue)
    → IsLine t s
    → empty s ≡ false
    → ends_line t (last s) ≡ false
    → IsLine t (drop_last s)
drop_last-IsLine t s k some_char inside =
    let i = k.queue in
    let h = i.head_lt in
    let one_less = counted-drop_last (ends_line t) s i some_char in
    let same : counted (ends_line t) s ≡ counted (ends_line t) (drop_last s) =
      one_less ∙ add_none _ (ends_line t (last s)) inside in
    record {
      queue = record { head_lt = omega arith; tail_lt = i.tail_lt };
      counts = k.counts ∙ same;
    }

putch-IsLine :
    (t : Termios) (s : Queue) (c : ℕ)
    → IsLine t s
    → full s ≡ false
    → IsLine t
        (putch c (record s { lines = if ends_line t c then (s.lines + 1) % 2 ^ 32 else s.lines }))
putch-IsLine t s c k room =
    let i = k.queue in
    let h = i.head_lt in
    let one_more = counted-putch (ends_line t) c s i room in
    let bound : counted (ends_line t) s ≤ chars s =
      passing-le (ends_line t) s.buf s.tail (chars s) in
    record {
      queue = record { head_lt = omega arith; tail_lt = i.tail_lt };
      counts = count_one (ends_line t c) s.lines _ k.counts (omega arith) ∙ sym one_more;
    }

-- The line is counted, and the queue of typed characters is r.
abbrev pub Kept : (r : Queue) → Tty → Type 0
Kept r tty = IsLine tty.termios tty.secondary × (tty.read_q ≡ r)

-- Besides the last character of the line, only the queue for the output changes.
pub erase_last-leaves :
    (P : Termios → Queue → Queue → Type 0) (tty : Tty)
    → P tty.termios tty.read_q (drop_last tty.secondary)
    → P (erase_last tty).termios (erase_last tty).read_q (erase_last tty).secondary
unfolding erase_last
erase_last-leaves P tty p =
    let After : Tty → Type 0 = λ z. P z.termios z.read_q (drop_last z.secondary) in
    by_test After tty.termios.echo _ tty
      (λ e. by_test After _ (put_out 127 tty) tty (λ e'. p) (λ e'. p)) (λ e. p)

module _ (r : Queue) where
  pub erase_last-Kept :
      (tty : Tty) → Kept r tty → at_line_start tty ≡ false → Kept r (erase_last tty)
  erase_last-Kept tty k inside =
      let some_char : empty tty.secondary ≡ false = ground arith in
      let inside' : ends_line tty.termios (last tty.secondary) ≡ false = ground arith in
      let dropped : Kept r (record tty { secondary = drop_last tty.secondary }) =
        (drop_last-IsLine tty.termios tty.secondary k.0 some_char inside', k.1) in
      erase_last-leaves (λ t q s. IsLine t s × (q ≡ r)) tty dropped

  kill_line-Kept : (fuel : ℕ) (tty : Tty) → Kept r tty → Kept r (kill_line fuel tty)
  unfolding kill_line
  kill_line-Kept zero tty k = k
  kill_line-Kept (suc fuel) tty k =
      by_test (Kept r) (at_line_start tty) _ _ (λ e. k)
        (λ e. kill_line-Kept fuel (erase_last tty) (erase_last-Kept tty k e))

  -- The loop that kills a line ends, since each round takes a character of it.
  kill_line_ends :
      (fuel : ℕ) (tty : Tty)
      → Kept r tty
      → chars tty.secondary < fuel
      → at_line_start (kill_line fuel tty) ≡ true
  unfolding kill_line
  kill_line_ends zero tty k low = let no : ⊥ = omega arith in elim no [ ]
  kill_line_ends (suc fuel) tty k low =
      by_test (λ (z : Tty). at_line_start z ≡ true) (at_line_start tty) _ _ (λ e. e)
        λ e.
          let some_char : empty tty.secondary ≡ false = ground arith in
          let h = k.0.queue.head_lt in
          let t = k.0.queue.tail_lt in
          let some' : tty.secondary.head ≢ tty.secondary.tail = ground arith in
          let fewer : chars (drop_last tty.secondary) < fuel = omega arith in
          kill_line_ends fuel (erase_last tty) (erase_last-Kept tty k e)
            (erase_last-leaves (λ t q s. chars s < fuel) tty fewer)

  abbrev KeptOption : Option Tty → Type 0
  KeptOption none = Unit
  KeptOption (some tty) = Kept r tty

  edit-Kept : (c : ℕ) (tty : Tty) → Kept r tty → KeptOption (edit c tty)
  unfolding edit
  edit-Kept c tty k =
      let t = tty.termios in
      by_test KeptOption (not t.icanon) _ _ (λ e. tt)
        λ e.
          by_test KeptOption (is_char c t.kill_char) _ _ (λ e. kill_line-Kept 1024 tty k)
            λ e.
              by_test KeptOption (is_char c t.erase_char) _ _
                (λ e. by_test (Kept r) (at_line_start tty) _ _ (λ e'. k) (erase_last-Kept tty k))
                λ e.
                  by_test KeptOption (is_char c t.stop_char) _ _ (λ e. k)
                    λ e. by_test KeptOption (is_char c t.start_char) _ _ (λ e. k) (λ e. tt)

  keep_char-Kept :
      (c : ℕ) (tty : Tty) → Kept r tty → full tty.secondary ≡ false → Kept r (keep_char c tty)
  unfolding keep_char
  keep_char-Kept c tty k room =
      let t = tty.termios in
      let s = tty.secondary in
      let base : Tty = record tty {
        secondary = record s { lines = if ends_line t c then (s.lines + 1) % 2 ^ 32 else s.lines };
      } in
      let stored : Kept r (record base { secondary = putch c base.secondary }) =
        (putch-IsLine t s c k.0 room, k.1) in
      let After : Tty → Type 0 = λ z. Kept r (record z { secondary = putch c z.secondary }) in
      by_test After (not t.echo) base _ (λ e. stored)
        λ e.
          by_test (λ z. After (write_out z)) (c == 10) _ _ (λ e. stored)
            λ e.
              by_test (λ z. After (write_out z)) (is_control c) _ _
                (λ e.
                  by_test (λ z. After (write_out z)) t.echoctl _ base (λ e. stored) (λ e. stored))
                (λ e. stored)

  plain-Kept :
      (c : ℕ) (s : State) (o : Option ℕ)
      → Kept r s.tty
      → full s.tty.secondary ≡ false
      → Kept r (plain c s o).tty
  plain-Kept c s none k room = keep_char-Kept c s.tty k room
  plain-Kept c s (some bit) k room = k

  edited-Kept :
      (c : ℕ) (s : State) (o : Option Tty)
      → KeptOption o
      → Kept r s.tty
      → full s.tty.secondary ≡ false
      → Kept r (edited c s o).tty
  edited-Kept c s none ok k room = plain-Kept c s (signal_of s.tty.termios c) k room
  edited-Kept c s (some tty) ok k room = ok

  pub converted-Kept :
      (s : State) (o : Option ℕ)
      → Kept r s.tty
      → full s.tty.secondary ≡ false
      → Kept r (converted s o).tty
  converted-Kept s none k room = k
  converted-Kept s (some c0) k room =
      let c = lower s.tty.termios c0 in edited-Kept c s (edit c s.tty) (edit-Kept c s.tty k) k room
