-- ===== src/Pipe/History.antt =====
-- A pipe refines a queue of bytes: any history of calls on it.
use mathlib.Core.List.{append-nil, append_assoc}
use learn_linux.Common.{ℕ, ◌≡◌, sym, ap, ◌∙◌, inl, inr, Option, none, some, List, [], ◌∷◌, ◌++◌}
use learn_linux.Pipe.{Pipe, Transfer, returned, sleeps, broken, read_pipe, write_pipe}
use learn_linux.Pipe.Ring.{contents, IsPipe}
use learn_linux.Pipe.Read.{Read, ends, waits, read_pipe-Read}
use learn_linux.Pipe.Write.{Written, stops, write_pipe-Written}

pub data Call : Type 0 where
  reads : (count : ℕ) → Call
  writes : (buf : List ℕ) → Call

-- What a call moved up to its end or its sleep, and the pipe then. The rest of a call that sleeps is
-- a later call.
abbrev pub after : Pipe → Option Transfer → List ℕ × Pipe
after p none = ([], p)
after p (some (returned moved q)) = (moved, q)
after p (some (sleeps moved left count q)) = (moved, q)
after p (some (broken moved q)) = (moved, q)

-- The bytes that a history read and the bytes that it wrote, in order, and the pipe in the end.
pub record History : Type 0 where
  pub read : List ℕ
  pub written : List ℕ
  pub pipe : Pipe

unfoldable pub run : List Call → Pipe → History
run [] p = record { read = []; written = []; pipe = p }
run (reads count ∷ calls) p =
    let r = after p (read_pipe count p) in
    let h = run calls r.1 in record h { read = r.0 ++ h.read }
run (writes buf ∷ calls) p =
    let r = after p (write_pipe buf p) in
    let h = run calls r.1 in record h { written = r.0 ++ h.written }

-- A read takes its bytes off the front.
after-Read :
    (count : ℕ) (p : Pipe) (r : Option Transfer)
    → Read p count [] r
    → IsPipe (after p r).1 × ((after p r).0 ++ contents (after p r).1 ≡ contents p)
after-Read count p r (ends bytes q e ok same all) = rw e (ok, same)
after-Read count p r (waits bytes left q e ok same n empty) = rw e (ok, same)

-- A write puts its bytes at the end.
after-Written :
    (buf : List ℕ) (p : Pipe) (r : Option Transfer)
    → Written p buf [] r
    → IsPipe (after p r).1 × (contents (after p r).1 ≡ contents p ++ (after p r).0)
after-Written buf p r (Written.ends q e ok same) = rw e (ok, same)
after-Written buf p r (stops sent left q (inl e) ok same split full) = rw (e.0) (ok, same)
after-Written buf p r (stops sent left q (inr e) ok same split full) = rw (e.0) (ok, same)

-- For any history of reads and writes of a pipe whose head and tail are in the page: the bytes read,
-- and after them the bytes still in the pipe, are the bytes that were in the pipe at first, and
-- after them the bytes written, in the same order, with none lost, made up or doubled.
pub run-fifo :
    (calls : List Call) (p : Pipe)
    → IsPipe p
    → (run calls p).read ++ contents (run calls p).pipe ≡ contents p ++ (run calls p).written
unfolding run
run-fifo [] p ok = sym (append-nil (contents p))
run-fifo (reads count ∷ calls) p ok =
    let r = after p (read_pipe count p) in
    let step = after-Read count p _ (read_pipe-Read count p ok) in
    append_assoc r.0 (run calls r.1).read (contents (run calls r.1).pipe)
    ∙ ap (◌++◌ r.0) (run-fifo calls r.1 step.0)
    ∙ sym (append_assoc r.0 (contents r.1) (run calls r.1).written)
    ∙ ap (λ (l : List ℕ). l ++ (run calls r.1).written) step.1
run-fifo (writes buf ∷ calls) p ok =
    let r = after p (write_pipe buf p) in
    let step = after-Written buf p _ (write_pipe-Written buf p ok) in
    run-fifo calls r.1 step.0
    ∙ ap (λ (l : List ℕ). l ++ (run calls r.1).written) step.1
    ∙ append_assoc (contents p) r.0 (run calls r.1).written
