-- ===== src/Tty/Editing.antt =====
-- What copy_to_cooked of linux-0.11/kernel/chr_drv/tty_io.c is for: an editor of lists of characters.
use learn_linux.Common.{
  ℕ, zero, suc, ◌+◌, ◌%◌, ◌≤◌, ◌<◌, ◌≡◌, ◌≢◌, refl, sym, ap, ◌∙◌, true, false, not, Option, none,
  some, List, [], ◌∷◌, length, arith, ◌==◌, ==_refl, leb, if◌then◌else◌, update,
}
use learn_linux.Tty.{
  Queue, Termios, dec, empty, full, last, chars, putch, drop_first, drop_last, is_char, ends_line,
}
use learn_linux.Tty.Queues.{IsQueue}
use learn_linux.Tty.Cooking.{line_end, lower, signal_of}

-- The n characters from `tail` on, the last one first
unfoldable pub backwards : (buf : ℕ → ℕ) (tail n : ℕ) → List ℕ
backwards buf tail zero = []
backwards buf tail (suc n) = buf ((tail + n) % 1024) ∷ backwards buf tail n

-- The n characters from `tail` on, the first one first
unfoldable pub forwards : (buf : ℕ → ℕ) (tail n : ℕ) → List ℕ
forwards buf tail zero = []
forwards buf tail (suc n) = buf tail ∷ forwards buf ((tail + 1) % 1024) n

-- The characters of the line queue, the last one first
abbrev pub line_of : Queue → List ℕ
line_of q = backwards q.buf q.tail (chars q)

-- The typed characters, the first one first
abbrev pub typed_of : Queue → List ℕ
typed_of q = forwards q.buf q.tail (chars q)

-- All characters back to the end of the line before are dropped.
abbrev pub without_line : Termios → List ℕ → List ℕ
without_line t [] = []
without_line t (c ∷ l) = if ends_line t c then c ∷ l else without_line t l

-- The last character is dropped, but not the end of the line before.
abbrev pub without_last : Termios → List ℕ → List ℕ
without_last t [] = []
without_last t (c ∷ l) = if ends_line t c then c ∷ l else l

-- What the characters that edit a line make of it; none for any other
abbrev pub edit_line : Termios → (c : ℕ) → List ℕ → Option (List ℕ)
edit_line t c l =
    if not t.icanon
    then none
    else if is_char c t.kill_char
    then some (without_line t l)
    else if is_char c t.erase_char
    then some (without_last t l)
    else if is_char c t.stop_char
    then some l
    else if is_char c t.start_char
    then some l
    else none

-- A character that sends a signal is not kept.
abbrev pub after_signal : (c : ℕ) → List ℕ → Option ℕ → List ℕ
after_signal c l none = c ∷ l
after_signal c l (some bit) = l

abbrev pub after_edit : Termios → (c : ℕ) → List ℕ → Option (List ℕ) → List ℕ
after_edit t c l none = after_signal c l (signal_of t c)
after_edit t c l (some l') = l'

abbrev pub after_end : Termios → List ℕ → Option ℕ → List ℕ
after_end t l none = l
after_end t l (some c0) = let c = lower t c0 in after_edit t c l (edit_line t c l)

abbrev pub type_char : Termios → (c : ℕ) → List ℕ → List ℕ
type_char t c l = after_end t l (line_end t c)

-- Characters are typed into a line, until it has 1023: those that are left, and the line
unfoldable pub type_all : Termios → (typed line : List ℕ) → List ℕ × List ℕ
type_all t [] l = ([], l)
type_all t (c ∷ cs) l =
    let rest = type_all t cs (type_char t c l) in if leb 1023 (length l) then (c ∷ cs, l) else rest

pub type_all-full :
    (t : Termios) (cs l : List ℕ) → leb 1023 (length l) ≡ true → type_all t cs l ≡ (cs, l)
unfolding type_all
type_all-full t [] l full = refl
type_all-full t (c ∷ cs) l full = rw full refl

pub type_all-none : (t : Termios) (l : List ℕ) → type_all t [] l ≡ ([], l)
unfolding type_all
type_all-none t l = refl

pub type_all-step :
    (t : Termios) (c : ℕ) (cs l : List ℕ)
    → leb 1023 (length l) ≡ false
    → type_all t (c ∷ cs) l ≡ type_all t cs (type_char t c l)
unfolding type_all
type_all-step t c cs l room = rw room refl

backwards-length : (buf : ℕ → ℕ) (tail n : ℕ) → length (backwards buf tail n) ≡ n
unfolding backwards
backwards-length buf tail zero = refl
backwards-length buf tail (suc n) = let ih = backwards-length buf tail n in omega arith

pub line_of-length : (q : Queue) → length (line_of q) ≡ chars q
line_of-length q = backwards-length q.buf q.tail (chars q)

-- A character that is stored behind the n first does not stand among them.
backwards-update :
    (buf : ℕ → ℕ) (tail n m c : ℕ)
    → n ≤ m
    → m < 1024
    → backwards (update buf ((tail + m) % 1024) c) tail n ≡ backwards buf tail n
unfolding backwards
backwards-update buf tail zero m c le low = refl
backwards-update buf tail (suc n) m c le low =
    let ih = backwards-update buf tail n m c (omega arith) low in
    let apart : (((tail + m) % 1024) == ((tail + n) % 1024)) ≡ false = ground arith in
    rw (apart, ih) refl

backwards-suc :
    (buf : ℕ → ℕ) (tail n : ℕ)
    → backwards buf tail (suc n) ≡ buf ((tail + n) % 1024) ∷ backwards buf tail n
unfolding backwards
backwards-suc buf tail n = refl

backwards-none : (buf : ℕ → ℕ) (tail : ℕ) → backwards buf tail 0 ≡ []
unfolding backwards
backwards-none buf tail = refl

forwards-none : (buf : ℕ → ℕ) (tail : ℕ) → forwards buf tail 0 ≡ []
unfolding forwards
forwards-none buf tail = refl

forwards-suc :
    (buf : ℕ → ℕ) (tail n : ℕ)
    → forwards buf tail (suc n) ≡ buf tail ∷ forwards buf ((tail + 1) % 1024) n
unfolding forwards
forwards-suc buf tail n = refl

pub line_of-putch :
    (c : ℕ) (q : Queue) → IsQueue q → full q ≡ false → line_of (putch c q) ≡ c ∷ line_of q
line_of-putch c q i room =
    let h = i.head_lt in
    let t = i.tail_lt in
    let n = chars q in
    let room' : n < 1023 = ground arith in
    let longer : chars (putch c q) ≡ suc n = omega arith in
    let place : q.head ≡ (q.tail + n) % 1024 = omega arith in
    let buf = update q.buf q.head c in
    let before : backwards buf q.tail n ≡ backwards q.buf q.tail n =
      ap (λ (a : ℕ). backwards (update q.buf a c) q.tail n) place
      ∙ backwards-update q.buf q.tail n n c (omega arith) (omega arith) in
    let here : buf q.head ≡ c = rw (==_refl q.head) refl in
    let stored : buf ((q.tail + n) % 1024) ≡ c = ap buf (sym place) ∙ here in
    ap (backwards buf q.tail) longer
    ∙ backwards-suc buf q.tail n
    ∙ ap (λ a. a ∷ backwards buf q.tail n) stored
    ∙ ap (λ l. c ∷ l) before

pub line_of-drop_last :
    (q : Queue) → IsQueue q → empty q ≡ false → line_of q ≡ last q ∷ line_of (drop_last q)
line_of-drop_last q i some_char =
    let h = i.head_lt in
    let t = i.tail_lt in
    let n = chars (drop_last q) in
    let some' : q.head ≢ q.tail = ground arith in
    let longer : chars q ≡ suc n = omega arith in
    let place : dec q.head ≡ (q.tail + n) % 1024 = omega arith in
    ap (backwards q.buf q.tail) longer
    ∙ backwards-suc q.buf q.tail n
    ∙ ap (λ (a : ℕ). q.buf a ∷ backwards q.buf q.tail n) (sym place)

pub line_of-empty : (q : Queue) → IsQueue q → empty q ≡ true → line_of q ≡ []
line_of-empty q i e =
    let none_left : chars q ≡ 0 =
      let h = i.head_lt in let same : q.head ≡ q.tail = ground arith in omega arith in
    ap (backwards q.buf q.tail) none_left ∙ backwards-none q.buf q.tail

pub typed_of-empty : (q : Queue) → IsQueue q → empty q ≡ true → typed_of q ≡ []
typed_of-empty q i e =
    let none_left : chars q ≡ 0 =
      let h = i.head_lt in let same : q.head ≡ q.tail = ground arith in omega arith in
    ap (forwards q.buf q.tail) none_left ∙ forwards-none q.buf q.tail

pub typed_of-drop_first :
    (q : Queue) → IsQueue q → empty q ≡ false → typed_of q ≡ q.buf q.tail ∷ typed_of (drop_first q)
typed_of-drop_first q i some_char =
    let h = i.head_lt in
    let t = i.tail_lt in
    let some' : q.head ≢ q.tail = ground arith in
    let longer : chars q ≡ suc (chars (drop_first q)) = omega arith in
    ap (forwards q.buf q.tail) longer ∙ forwards-suc q.buf q.tail (chars (drop_first q))
