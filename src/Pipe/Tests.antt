-- ===== src/Pipe/Tests.antt =====
-- Runs on a pipe whose bytes go over the end of the page.
use learn_linux.Common.{
  ◌≡◌, refl, true, false, some, List, [], ◌∷◌, ◌++◌, arith, ◌==◌, if◌then◌else◌,
}
use learn_linux.Pipe.{Pipe, returned, read_loop, read_pipe, write_pipe}
use learn_linux.Pipe.Ring.{contents, IsPipe}
use learn_linux.Pipe.History.{Call, reads, writes, run, run-fifo}
use learn_linux.Pipe.Read.{Read, read_pipe-Read}
use learn_linux.Pipe.Write.{Written, write_pipe-Written}

abbrev lap : Pipe
lap = record {
  head = 1;
  tail = 4094;
  page = λ i. if i == 4095 then 8 else 7;
  i_count = 1;
  sleeper = true;
}

lap-IsPipe : IsPipe lap
lap-IsPipe = record { head_lt = omega arith; tail_lt = omega arith }

read_over_the_end :
    read_pipe 5 lap ≡ some (returned (7 ∷ 8 ∷ 7 ∷ []) (record lap { tail = 1; sleeper = false }))
unfolding read_pipe read_loop
read_over_the_end = refl

read_pipe-Read_example : Read lap 5 [] (read_pipe 5 lap)
read_pipe-Read_example = read_pipe-Read 5 lap lap-IsPipe

write_pipe-Written_example : Written lap (3 ∷ 4 ∷ []) [] (write_pipe (3 ∷ 4 ∷ []) lap)
write_pipe-Written_example = write_pipe-Written (3 ∷ 4 ∷ []) lap lap-IsPipe

abbrev exchange : List Call
exchange = writes (1 ∷ 2 ∷ []) ∷ reads 4 ∷ reads 9 ∷ []

run-fifo_example :
    (run exchange lap).read ++ contents (run exchange lap).pipe
    ≡ contents lap ++ (run exchange lap).written
run-fifo_example = run-fifo exchange lap lap-IsPipe
