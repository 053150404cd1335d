-- ===== src/Pipe.antt =====
-- linux-0.11/fs/pipe.c: `read_pipe` and `write_pipe` on the ring buffer of one page. The calls are cut
-- at `sleep_on`: a call that sleeps ends in a state from which `read_loop` or `write_loop` goes on.
-- The user's buffer is a list of bytes.
pub mod Ring
pub mod Read
pub mod Write
pub mod History
mod Tests
use learn_linux.Common.{
  ℕ, zero, suc, ◌+◌, ◌-◌, ◌%◌, ◌^◌, Bool, false, true, not, Option, none, some, List, [], ◌∷◌, ◌++◌,
  ◌==◌, ltb, if◌then◌else◌, update, length, take,
}

abbrev pub page_size : ℕ
page_size = 4096

-- The inode of a pipe: i_zone[0], i_zone[1], the page at i_size, i_count, and whether a task sleeps
-- on i_wait.
pub record Pipe : Type 0 where
  pub head : ℕ
  pub tail : ℕ
  pub page : ℕ → ℕ
  pub i_count : ℕ
  pub sleeper : Bool

-- (head - tail) & (PAGE_SIZE - 1); head and tail are unsigned shorts
abbrev pub pipe_size : Pipe → ℕ
pipe_size p = (p.head + 2 ^ 16 - p.tail) % page_size

-- wake_up(&inode->i_wait)
abbrev pub wake : Pipe → Pipe
wake p = record p { sleeper = false }

-- if (chars > bound) chars = bound
abbrev pub at_most : (bound chars : ℕ) → ℕ
at_most bound chars = if ltb bound chars then bound else chars

-- How a call ends or stops: it returns; it sleeps, with work left; or it returns after SIGPIPE is
-- set, for a writer without a reader. `moved` is what was moved so far.
pub data Transfer : Type 0 where
  returned : (moved : List ℕ) → Pipe → Transfer
  sleeps : (moved left : List ℕ) → (count : ℕ) → Pipe → Transfer
  broken : (moved : List ℕ) → Pipe → Transfer

-- The bytes i, i + 1, ... of the page.
abbrev pub page_bytes : (ℕ → ℕ) → (i chars : ℕ) → List ℕ
page_bytes page i zero = []
page_bytes page i (suc chars) = page i ∷ page_bytes page (suc i) chars

abbrev pub read_chars : (count : ℕ) → Pipe → ℕ
read_chars count p = at_most (pipe_size p) (at_most count (page_size - p.tail))

abbrev pub take_out : (chars : ℕ) → Pipe → Pipe
take_out chars p = record p { tail = (p.tail + chars) % page_size }

-- No byte in the pipe: with no writer the call returns, else it sleeps.
abbrev pub read_waits : (count : ℕ) → List ℕ → Pipe → Transfer
read_waits count read p =
    if not (p.i_count == 2)
    then returned read (wake p)
    else sleeps read [] count (record p { sleeper = true })

-- while (count>0), on fuel; none if the fuel ran out. A byte at least is read in each round.
unfoldable pub read_loop : (fuel count : ℕ) → List ℕ → Pipe → Option Transfer
read_loop fuel zero read p = some (returned read (wake p))
read_loop zero (suc c) read p = none
read_loop (suc fuel) (suc c) read p =
    let chars = read_chars (suc c) p in
    let rest =
      read_loop fuel (suc c - chars) (read ++ page_bytes p.page p.tail chars) (take_out chars p) in
    if pipe_size p == 0 then some (read_waits (suc c) read p) else rest

unfoldable pub read_pipe : (count : ℕ) → Pipe → Option Transfer
read_pipe count p = read_loop count count [] p

-- Bytes are stored at i, i + 1, ...
abbrev pub store_bytes : List ℕ → (i : ℕ) → (ℕ → ℕ) → ℕ → ℕ
store_bytes [] i page = page
store_bytes (b ∷ bs) i page = store_bytes bs (suc i) (update page i b)

abbrev pub drop : ℕ → List ℕ → List ℕ
drop zero bs = bs
drop (suc n) [] = []
drop (suc n) (b ∷ bs) = drop n bs

abbrev pub room : Pipe → ℕ
room p = page_size - 1 - pipe_size p

abbrev pub write_chars : (count : ℕ) → Pipe → ℕ
write_chars count p = at_most (room p) (at_most count (page_size - p.head))

abbrev pub put_in : (bytes : List ℕ) → Pipe → Pipe
put_in bytes p = record p {
  head = (p.head + length bytes) % page_size;
  page = store_bytes bytes p.head p.page;
}

-- No room: with no reader SIGPIPE is set, else the call sleeps.
abbrev pub write_waits : (buf written : List ℕ) → Pipe → Transfer
write_waits buf written p =
    if not (p.i_count == 2)
    then broken written (wake p)
    else sleeps written buf (length buf) (record p { sleeper = true })

unfoldable pub write_loop : (fuel : ℕ) → (buf written : List ℕ) → Pipe → Option Transfer
write_loop fuel [] written p = some (returned written (wake p))
write_loop zero (b ∷ bs) written p = none
write_loop (suc fuel) (b ∷ bs) written p =
    let chars = write_chars (length (b ∷ bs)) p in
    let sent = take chars (b ∷ bs) in
    let rest = write_loop fuel (drop chars (b ∷ bs)) (written ++ sent) (put_in sent p) in
    if room p == 0 then some (write_waits (b ∷ bs) written p) else rest

unfoldable pub write_pipe : (buf : List ℕ) → Pipe → Option Transfer
write_pipe buf p = write_loop (length buf) buf [] p
