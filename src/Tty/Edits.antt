-- ===== src/Tty/Edits.antt =====
-- The rounds of copy_to_cooked of linux-0.11/kernel/chr_drv/tty_io.c edit the line.
use learn_linux.Common.{
  by_test, ℕ, zero, suc, ◌+◌, ◌%◌, ◌^◌, ◌<◌, ◌≡◌, ◌≢◌, refl, sym, ap, ◌∙◌, Bool, true, false, not,
  ◌||◌, Option, none, some, List, ◌∷◌, arith, ◌==◌, Bool-cases, inl, inr, if◌then◌else◌,
}
use learn_linux.Tty.{
  Queue, Termios, Tty, empty, full, last, chars, putch, drop_first, drop_last, is_char, is_control,
  ends_line,
}
use learn_linux.Tty.Queues.{IsQueue}
use learn_linux.Tty.Cooking.{
  line_end, lower, write_out, at_line_start, erase_last, kill_line, edit, signal_of, keep_char,
  State, plain, edited, converted, cook_char,
}
use learn_linux.Tty.Lines.{Kept, erase_last-leaves, erase_last-Kept, IsLine}
use learn_linux.Tty.Editing.{
  line_of, without_line, without_last, edit_line, after_signal, after_edit, after_end, type_char,
  line_of-putch, line_of-drop_last, line_of-empty,
}

-- Two results that one test decides
by_both :
    {A B : Type 0} (P : A → B → Type 0) (b : Bool) (x y : A) (z w : B)
    → (b ≡ true → P x z)
    → (b ≡ false → P y w)
    → P (if b then x else y) (if b then z else w)
by_both P true x y z w p q = p refl
by_both P false x y z w p q = q refl

-- The flags are t, and the line is l.
abbrev pub Shows : Termios → (l : List ℕ) → Tty → Type 0
Shows t l tty = (tty.termios ≡ t) × (line_of tty.secondary ≡ l)

module _ (t : Termios) (q : Queue) (i : IsQueue q) where
  -- Nothing is taken off at the start of a line.
  at_start :
      (empty q || ends_line t (last q)) ≡ true
      → (without_line t (line_of q) ≡ line_of q) × (without_last t (line_of q) ≡ line_of q)
  at_start start = elim (Bool-cases (empty q)) [
    | inl e ↦ let nothing = line_of-empty q i e in rw nothing (refl, refl)
    | inr more ↦
        let ends : ends_line t (last q) ≡ true = ground arith in
        rw (line_of-drop_last q i more, ends) (refl, refl)
  ]

  inside :
      (empty q || ends_line t (last q)) ≡ false
      → (without_line t (line_of q) ≡ without_line t (line_of (drop_last q)))
        × (without_last t (line_of q) ≡ line_of (drop_last q))
  inside e =
      let more : empty q ≡ false = ground arith in
      let within : ends_line t (last q) ≡ false = ground arith in
      rw (line_of-drop_last q i more, within) (refl, refl)

erase_last-Shows :
    (tty : Tty) → Shows tty.termios (line_of (drop_last tty.secondary)) (erase_last tty)
erase_last-Shows tty =
    erase_last-leaves (λ t q s. (t ≡ tty.termios) × (line_of s ≡ line_of (drop_last tty.secondary)))
      tty (refl, refl)

module _ (r : Queue) where
  kill_line-Shows :
      (fuel : ℕ) (tty : Tty)
      → Kept r tty
      → chars tty.secondary < fuel
      → Shows tty.termios (without_line tty.termios (line_of tty.secondary)) (kill_line fuel tty)
  unfolding kill_line
  kill_line-Shows zero tty k low = let no : ⊥ = omega arith in elim no [ ]
  kill_line-Shows (suc fuel) tty k low =
      let t = tty.termios in
      let i = k.0.queue in
      by_test (Shows t (without_line t (line_of tty.secondary))) (at_line_start tty) _ _
        (λ e. (refl, sym (at_start t tty.secondary i e).0))
        λ e.
          let h = i.head_lt in
          let t' = i.tail_lt in
          let some_char : tty.secondary.head ≢ tty.secondary.tail = ground arith in
          let fewer : chars (drop_last tty.secondary) < fuel = omega arith in
          let erased = erase_last-Shows tty in
          let (flags, line) =
            kill_line-Shows fuel (erase_last tty) (erase_last-Kept r tty k e)
              (erase_last-leaves (λ t q s. chars s < fuel) tty fewer) in
          (
            flags ∙ erased.0,
            line
                ∙ ap (λ x. without_line x (line_of (erase_last tty).secondary)) erased.0
                ∙ ap (without_line t) erased.1
                ∙ sym (inside t tty.secondary i e).0,
          )

  abbrev ShowsOption : Termios → Option Tty → Option (List ℕ) → Type 0
  ShowsOption t none none = Unit
  ShowsOption t none (some l) = ⊥
  ShowsOption t (some tty) none = ⊥
  ShowsOption t (some tty) (some l) = Shows t l tty

  edit-Shows :
      (c : ℕ) (tty : Tty)
      → Kept r tty
      → ShowsOption tty.termios (edit c tty) (edit_line tty.termios c (line_of tty.secondary))
  unfolding edit
  edit-Shows c tty k =
      let t = tty.termios in
      let i = k.0.queue in
      let Both = ShowsOption t in
      by_both Both (not t.icanon) _ _ _ _ (λ e. tt)
        λ e.
          by_both Both (is_char c t.kill_char) _ _ _ _
            (λ e. kill_line-Shows 1024 tty k (omega arith))
            λ e.
              by_both Both (is_char c t.erase_char) _ _ _ _
                (λ e.
                  by_test (Shows t (without_last t (line_of tty.secondary))) (at_line_start tty) _ _
                    (λ e'. (refl, sym (at_start t tty.secondary i e').1))
                    λ e'.
                      let erased = erase_last-Shows tty in
                      (erased.0, erased.1 ∙ sym (inside t tty.secondary i e').1))
                λ e.
                  by_both Both (is_char c t.stop_char) _ _ _ _ (λ e. (refl, refl))
                    λ e. by_both Both (is_char c t.start_char) _ _ _ _ (λ e. (refl, refl)) (λ e. tt)

  keep_char-Shows :
      (c : ℕ) (tty : Tty)
      → Kept r tty
      → full tty.secondary ≡ false
      → Shows tty.termios (c ∷ line_of tty.secondary) (keep_char c tty)
  unfolding keep_char
  keep_char-Shows c tty k room =
      let t = tty.termios in
      let s = tty.secondary in
      let base : Tty = record tty {
        secondary = record s { lines = if ends_line t c then (s.lines + 1) % 2 ^ 32 else s.lines };
      } in
      let stored : Shows t (c ∷ line_of s) (record base { secondary = putch c base.secondary }) =
        (refl, line_of-putch c s k.0.queue room) in
      let After : Tty → Type 0 =
        λ z. Shows t (c ∷ line_of tty.secondary) (record z { secondary = putch c z.secondary }) in
      by_test After (not t.echo) base _ (λ e. stored)
        λ e.
          by_test (λ z. After (write_out z)) (c == 10) _ _ (λ e. stored)
            λ e.
              by_test (λ z. After (write_out z)) (is_control c) _ _
                (λ e.
                  by_test (λ z. After (write_out z)) t.echoctl _ base (λ e. stored) (λ e. stored))
                (λ e. stored)

  plain-Shows :
      (c : ℕ) (s : State) (o : Option ℕ)
      → Kept r s.tty
      → full s.tty.secondary ≡ false
      → Shows s.tty.termios (after_signal c (line_of s.tty.secondary) o) (plain c s o).tty
  plain-Shows c s none k room = keep_char-Shows c s.tty k room
  plain-Shows c s (some bit) k room = (refl, refl)

  edited-Shows :
      (c : ℕ) (s : State) (o : Option Tty) (a : Option (List ℕ))
      → ShowsOption s.tty.termios o a
      → Kept r s.tty
      → full s.tty.secondary ≡ false
      → Shows s.tty.termios
          (after_edit s.tty.termios c (line_of s.tty.secondary) a)
          (edited c s o).tty
  edited-Shows c s none none both k room = plain-Shows c s (signal_of s.tty.termios c) k room
  edited-Shows c s none (some l) both k room = elim both [ ]
  edited-Shows c s (some tty) none both k room = elim both [ ]
  edited-Shows c s (some tty) (some l) both k room = both

  converted-Shows :
      (s : State) (o : Option ℕ)
      → Kept r s.tty
      → full s.tty.secondary ≡ false
      → Shows s.tty.termios
          (after_end s.tty.termios (line_of s.tty.secondary) o)
          (converted s o).tty
  converted-Shows s none k room = (refl, refl)
  converted-Shows s (some c0) k room =
      let c = lower s.tty.termios c0 in
      edited-Shows c s (edit c s.tty) _ (edit-Shows c s.tty k) k room

-- One round types the first character that waits.
pub cook_char-Shows :
    (s : State)
    → IsLine s.tty.termios s.tty.secondary
    → full s.tty.secondary ≡ false
    → Shows s.tty.termios
        (type_char s.tty.termios (s.tty.read_q.buf s.tty.read_q.tail) (line_of s.tty.secondary))
        (cook_char s).tty
unfolding cook_char
cook_char-Shows s k room =
    let q = s.tty.read_q in
    let got : State = record s { tty = record s.tty { read_q = drop_first q } } in
    converted-Shows (drop_first q) got (line_end s.tty.termios (q.buf q.tail)) (k, refl) room
