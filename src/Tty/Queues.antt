-- ===== src/Tty/Queues.antt =====
-- The queues of linux-0.11/include/linux/tty.h.
use learn_linux.Common.{
  ℕ, zero, suc, ◌+◌, ◌%◌, ◌≤◌, ◌<◌, ◌≡◌, refl, sym, ap, ◌∙◌, ◌≢◌, Bool, false, arith, ◌==◌, ==_refl,
  if◌then◌else◌, update,
}
use learn_linux.Tty.{drop_first, Queue, dec, empty, full, last, chars, putch, drop_last}

-- Both indices are in the buffer.
pub record IsQueue (q : Queue) : Type 0 where
  pub head_lt : q.head < 1024
  pub tail_lt : q.tail < 1024

-- How many of the n characters from `tail` on pass the test?
unfoldable pub passing : (test : ℕ → Bool) (buf : ℕ → ℕ) (tail n : ℕ) → ℕ
passing test buf tail zero = 0
passing test buf tail (suc n) =
    passing test buf tail n + (if test (buf ((tail + n) % 1024)) then 1 else 0)

pub passing-le : (test : ℕ → Bool) (buf : ℕ → ℕ) (tail n : ℕ) → passing test buf tail n ≤ n
unfolding passing
passing-le test buf tail zero = omega arith
passing-le test buf tail (suc n) = let ih = passing-le test buf tail n in ground arith

-- A character that is stored behind the n first does not count among them.
passing-update :
    (test : ℕ → Bool) (buf : ℕ → ℕ) (tail n m c : ℕ)
    → n ≤ m
    → m < 1024
    → passing test (update buf ((tail + m) % 1024) c) tail n ≡ passing test buf tail n
unfolding passing
passing-update test buf tail zero m c le low = refl
passing-update test buf tail (suc n) m c le low =
    let ih = passing-update test buf tail n m c (omega arith) low in
    let apart : (((tail + m) % 1024) == ((tail + n) % 1024)) ≡ false = ground arith in
    rw (apart, ih) refl

passing-suc :
    (test : ℕ → Bool) (buf : ℕ → ℕ) (tail n : ℕ)
    → passing test buf tail (suc n)
      ≡ passing test buf tail n + (if test (buf ((tail + n) % 1024)) then 1 else 0)
unfolding passing
passing-suc test buf tail n = refl

abbrev pub counted : (test : ℕ → Bool) → Queue → ℕ
counted test q = passing test q.buf q.tail (chars q)

pub counted-putch :
    (test : ℕ → Bool) (c : ℕ) (q : Queue)
    → IsQueue q
    → full q ≡ false
    → counted test (putch c q) ≡ counted test q + (if test c then 1 else 0)
counted-putch test c q i room =
    let h = i.head_lt in
    let t = i.tail_lt in
    let n = chars q in
    let room' : n < 1023 = ground arith in
    let longer : chars (putch c q) ≡ suc n = omega arith in
    let place : q.head ≡ (q.tail + n) % 1024 = omega arith in
    let buf = update q.buf q.head c in
    let before : passing test buf q.tail n ≡ passing test q.buf q.tail n =
      ap (λ (a : ℕ). passing test (update q.buf a c) q.tail n) place
      ∙ passing-update test q.buf q.tail n n c (omega arith) (omega arith) in
    let here : buf q.head ≡ c = rw (==_refl q.head) refl in
    let stored : buf ((q.tail + n) % 1024) ≡ c = ap buf (sym place) ∙ here in
    ap (passing test buf q.tail) longer
    ∙ passing-suc test buf q.tail n
    ∙ ap (λ (a : ℕ). a + (if test (buf ((q.tail + n) % 1024)) then 1 else 0)) before
    ∙ ap (λ (a : ℕ). passing test q.buf q.tail n + (if test a then 1 else 0)) stored

pub counted-drop_last :
    (test : ℕ → Bool) (q : Queue)
    → IsQueue q
    → empty q ≡ false
    → counted test q ≡ counted test (drop_last q) + (if test (last q) then 1 else 0)
counted-drop_last test q i some_char =
    let h = i.head_lt in
    let t = i.tail_lt in
    let n = chars (drop_last q) in
    let some' : q.head ≢ q.tail = ground arith in
    let longer : chars q ≡ suc n = omega arith in
    let place : dec q.head ≡ (q.tail + n) % 1024 = omega arith in
    ap (passing test q.buf q.tail) longer
    ∙ passing-suc test q.buf q.tail n
    ∙ ap (λ (a : ℕ). passing test q.buf q.tail n + (if test (q.buf a) then 1 else 0)) (sym place)

-- The first character is counted as the last one is.
passing_front :
    (test : ℕ → Bool) (buf : ℕ → ℕ) (tail n : ℕ)
    → tail < 1024
    → passing test buf tail (suc n)
      ≡ (if test (buf tail) then 1 else 0) + passing test buf ((tail + 1) % 1024) n
unfolding passing
passing_front test buf tail zero low =
    let here : (tail + 0) % 1024 ≡ tail = omega arith in rw here (omega arith)
passing_front test buf tail (suc n) low =
    let ih = passing_front test buf tail n low in
    let there : ((tail + 1) % 1024 + n) % 1024 ≡ (tail + suc n) % 1024 = omega arith in
    rw there (omega arith)

pub counted-drop_first :
    (test : ℕ → Bool) (q : Queue)
    → IsQueue q
    → empty q ≡ false
    → counted test q ≡ (if test (q.buf q.tail) then 1 else 0) + counted test (drop_first q)
counted-drop_first test q i some_char =
    let h = i.head_lt in
    let t = i.tail_lt in
    let some' : q.head ≢ q.tail = ground arith in
    let longer : chars q ≡ suc (chars (drop_first q)) = omega arith in
    ap (passing test q.buf q.tail) longer ∙ passing_front test q.buf q.tail (chars (drop_first q)) t
