-- ===== src/Pipe/Ring.antt =====
-- The ring buffer as a queue of bytes.
use learn_linux.Common.{
  ℕ, zero, suc, ◌+◌, ◌%◌, ◌≤◌, ◌<◌, ◌≡◌, refl, ap, ◌∙◌, ◌⊎◌, Bool, true, false, List, [], ◌∷◌, ◌++◌,
  arith, ◌==◌, ==_refl, update, length,
}
use learn_linux.Pipe.{page_size, Pipe, pipe_size, page_bytes, take_out, store_bytes, room, put_in}

-- The n bytes of the ring from place i on.
unfoldable pub ring : (ℕ → ℕ) → (i n : ℕ) → List ℕ
ring page i zero = []
ring page i (suc n) = page (i % page_size) ∷ ring page (suc i) n

-- The bytes in the pipe, in the order in which they were written.
abbrev pub contents : Pipe → List ℕ
contents p = ring p.page p.tail (pipe_size p)

pub record IsPipe (p : Pipe) : Type 0 where
  pub head_lt : p.head < page_size
  pub tail_lt : p.tail < page_size

pub ring_mod :
    (page : ℕ → ℕ) (i j n : ℕ) → i % page_size ≡ j % page_size → ring page i n ≡ ring page j n
unfolding ring
ring_mod page i j zero e = refl
ring_mod page i j (suc n) e =
    let next : suc i % page_size ≡ suc j % page_size = omega arith in
    rw (e, ring_mod page (suc i) (suc j) n next) refl

pub ring_add :
    (page : ℕ → ℕ) (i k n : ℕ) → ring page i (k + n) ≡ ring page i k ++ ring page (i + k) n
unfolding ring
ring_add page i zero n =
    let e : 0 + n ≡ n = omega arith in let e' : i + 0 ≡ i = omega arith in rw (e, e', ring) refl
ring_add page i (suc k) n =
    let e : suc k + n ≡ suc (k + n) = omega arith in
    let e' : i + suc k ≡ suc i + k = omega arith in rw (e, e', ring, ring_add page (suc i) k n) refl

pub page_bytes-ring :
    (page : ℕ → ℕ) (i k : ℕ) → i + k ≤ page_size → page_bytes page i k ≡ ring page i k
unfolding ring
page_bytes-ring page i zero low = refl
page_bytes-ring page i (suc k) low =
    let e : i % page_size ≡ i = omega arith in
    rw (e, page_bytes-ring page (suc i) k (omega arith)) refl

-- What is read comes off the front.
pub take_out-contents :
    (chars : ℕ) (p : Pipe)
    → IsPipe p
    → chars ≤ pipe_size p
    → p.tail + chars ≤ page_size
    → page_bytes p.page p.tail chars ++ contents (take_out chars p) ≡ contents p
take_out-contents chars p ok most low =
    let e : pipe_size p ≡ chars + pipe_size (take_out chars p) =
      omega (arith, ok.head_lt, ok.tail_lt) in
    rw
      (
        page_bytes-ring p.page p.tail chars low,
        e,
        ring_add p.page p.tail chars (pipe_size (take_out chars p)),
        ring_mod p.page ((p.tail + chars) % page_size) (p.tail + chars)
            (pipe_size (take_out chars p)) (omega arith),
      )
      refl

store_bytes-outside :
    (bs : List ℕ) (i : ℕ) (page : ℕ → ℕ) (x : ℕ)
    → (x < i) ⊎ (i + length bs ≤ x)
    → store_bytes bs i page x ≡ page x
store_bytes-outside [] i page x out = refl
store_bytes-outside (b ∷ bs) i page x out =
    let e : (i == x) ≡ false = ground arith in
    store_bytes-outside bs (suc i) (update page i b) x (omega arith) ∙ rw e refl

ring-store_bytes :
    (page : ℕ → ℕ) (bs : List ℕ) (h t n : ℕ)
    → h ≡ (t + n) % page_size
    → n + length bs < page_size
    → h + length bs ≤ page_size
    → ring (store_bytes bs h page) t n ≡ ring page t n
unfolding ring
ring-store_bytes page bs h t zero e few low = refl
ring-store_bytes page bs h t (suc n) e few low =
    rw
      (
        store_bytes-outside bs h page (t % page_size) (omega arith),
        ring-store_bytes page bs h (suc t) n (omega arith) (omega arith) low,
      )
      refl

ring_stored :
    (page : ℕ → ℕ) (bs : List ℕ) (h : ℕ)
    → h + length bs ≤ page_size
    → ring (store_bytes bs h page) h (length bs) ≡ bs
unfolding ring
ring_stored page [] h low = refl
ring_stored page (b ∷ bs) h low =
    let e : h % page_size ≡ h = omega arith in
    rw
      (
        e,
        store_bytes-outside bs (suc h) (update page h b) h (omega arith),
        ring_stored (update page h b) bs (suc h) (omega arith),
        ==_refl,
      )
      refl

-- What is written goes on at the end.
pub put_in-contents :
    (bs : List ℕ) (p : Pipe)
    → IsPipe p
    → length bs ≤ room p
    → p.head + length bs ≤ page_size
    → contents (put_in bs p) ≡ contents p ++ bs
put_in-contents bs p ok most low =
    let n = pipe_size p in
    let page = store_bytes bs p.head p.page in
    let e : pipe_size (put_in bs p) ≡ n + length bs = omega (arith, ok.head_lt, ok.tail_lt) in
    let e' : p.head ≡ (p.tail + n) % page_size = omega (arith, ok.head_lt, ok.tail_lt) in
    let e2 : (p.tail + n) % page_size ≡ p.head % page_size =
      omega (arith, ok.head_lt, ok.tail_lt) in
    rw
      (
        e,
        ring_add page p.tail n (length bs),
        ring-store_bytes p.page bs p.head p.tail n e' (omega arith) low,
        ring_mod page (p.tail + n) p.head (length bs) e2,
        ring_stored p.page bs p.head low,
      )
      refl

pub empty_contents : (p : Pipe) → (pipe_size p == 0) ≡ true → contents p ≡ []
unfolding ring
empty_contents p e = let none_left : pipe_size p ≡ 0 = ground arith in rw none_left refl

pub length-page_bytes : (page : ℕ → ℕ) (i k : ℕ) → length (page_bytes page i k) ≡ k
length-page_bytes page i zero = refl
length-page_bytes page i (suc k) = ap suc (length-page_bytes page (suc i) k)

pub same-IsPipe : (p : Pipe) (b : Bool) → IsPipe p → IsPipe (record p { sleeper = b })
same-IsPipe p b ok = record { head_lt = ok.head_lt; tail_lt = ok.tail_lt }

pub take_out-IsPipe : (chars : ℕ) (p : Pipe) → IsPipe p → IsPipe (take_out chars p)
take_out-IsPipe chars p ok = record { head_lt = ok.head_lt; tail_lt = omega arith }

pub put_in-IsPipe : (bs : List ℕ) (p : Pipe) → IsPipe p → IsPipe (put_in bs p)
put_in-IsPipe bs p ok = record { head_lt = omega arith; tail_lt = ok.tail_lt }
