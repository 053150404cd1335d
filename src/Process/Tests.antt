-- ===== src/Process/Tests.antt =====
-- Runs of the calls on a table with a parent and a child that has ended.
use learn_linux.Common.{arith, ◌≡◌, refl, false, none, some, ◌==◌, if◌then◌else◌}
use learn_linux.Common.Int.{pos, neg}
use learn_linux.Task.{Task, TaskState, Table, plain_task, echild}
use learn_linux.Process.{scan, returns, sys_waitpid}
use learn_linux.Process.Fork.{next_pid, is_taken, find_pid, find_empty_process}
use learn_linux.Process.Pids.{FoundEmpty, find_empty_process-FoundEmpty}
use learn_linux.Descriptors.{first_free}
use learn_linux.Process.Waiting.{WaitedFor, sys_waitpid-WaitedFor}

abbrev parent : Task
parent = record plain_task { pid = 4 }

abbrev child : Task
child = record plain_task { pid = 9; father = pos 4; state = TaskState.zombie; exit_code = 256 }

abbrev family : Table
family i = if i == 1 then some parent else if i == 2 then some child else none

sys_waitpid-WaitedFor_example :
    WaitedFor 1 parent (neg 1) family (sys_waitpid 1 parent (neg 1) false false family)
sys_waitpid-WaitedFor_example = sys_waitpid-WaitedFor 1 parent (neg 1) false false family

-- A stopped child that is not asked for does not count: the call returns -ECHILD.
stopped_is_no_child :
    (let table : Table =
        λ i. if i == 2 then some (record child { state = TaskState.stopped }) else none in
      sys_waitpid 1 parent (neg 1) false false table ≡ returns table echild none)
unfolding sys_waitpid scan
stopped_is_no_child = refl

-- The numbers start again at 1, and those of tasks are passed over.
abbrev crowd : Table
crowd i =
    if i == 0
    then some plain_task
    else if i == 1
    then some (record plain_task { pid = 1 })
    else none

numbers_wrap : find_empty_process 65 2147483647 crowd ≡ some record { last_pid = 2; slot = some 2 }
unfolding find_empty_process find_pid next_pid is_taken first_free
numbers_wrap = refl

find_empty_process-FoundEmpty_example : FoundEmpty crowd (find_empty_process 65 2147483647 crowd)
find_empty_process-FoundEmpty_example = find_empty_process-FoundEmpty crowd 2147483647 (omega arith)
