-- ===== src/Task.antt =====
-- linux-0.11/include/linux/sched.h, signal.h, errno.h: the task structure and the table of tasks.
-- The table is a function of the slot; a pointer to a task is the number of its slot, a null
-- pointer in the table `none`. A bitmap word (`signal`, `blocked`) is a `Word`. What only the
-- processor reads (ldt, tss) and the open files are not in this record.
use learn_linux.Common.{ℕ, Option, Bool, false}
use learn_linux.Common.Int.{ℤ, pos, neg}
use learn_linux.Common.Words.{Word, no_bits}

pub data TaskState : Type 0 where
  running interruptible uninterruptible zombie stopped : TaskState

pub record SigAction : Type 0 where
  pub sa_handler : ℕ
  pub sa_mask : Word
  pub sa_nomask : Bool
  pub sa_oneshot : Bool
  pub sa_restorer : ℕ

abbrev pub plain_action : SigAction
plain_action = record {
  sa_handler = 0;
  sa_mask = no_bits;
  sa_nomask = false;
  sa_oneshot = false;
  sa_restorer = 0;
}

pub record Task : Type 0 where
  pub state : TaskState
  pub counter : ℕ
  pub priority : ℕ
  pub signal : Word
  pub sigaction : ℕ → SigAction
  pub blocked : Word
  pub exit_code : ℕ
  pub end_code : ℕ
  pub brk : ℕ
  pub start_stack : ℕ
  pub pid : ℕ
  pub father : ℤ
  pub pgrp : ℤ
  pub session : ℕ
  pub leader : Bool
  pub uid : ℕ
  pub euid : ℕ
  pub suid : ℕ
  pub gid : ℕ
  pub egid : ℕ
  pub sgid : ℕ
  pub alarm : ℕ
  pub utime : ℕ
  pub stime : ℕ
  pub cutime : ℕ
  pub cstime : ℕ
  pub tty : ℤ
  pub umask : ℕ

-- The values of INIT_TASK.
abbrev pub plain_task : Task
plain_task = record {
  state = TaskState.running;
  counter = 15;
  priority = 15;
  signal = no_bits;
  sigaction = λ _. plain_action;
  blocked = no_bits;
  exit_code = 0;
  end_code = 0;
  brk = 0;
  start_stack = 0;
  pid = 0;
  father = neg 1;
  pgrp = pos 0;
  session = 0;
  leader = false;
  uid = 0;
  euid = 0;
  suid = 0;
  gid = 0;
  egid = 0;
  sgid = 0;
  alarm = 0;
  utime = 0;
  stime = 0;
  cutime = 0;
  cstime = 0;
  tty = neg 1;
  umask = 18;
}

abbrev pub Table : Type 0
Table = ℕ → Option Task

abbrev pub nr_tasks : ℕ
nr_tasks = 64

abbrev pub hz : ℕ
hz = 100

abbrev pub eperm : ℤ
eperm = neg 1

abbrev pub esrch : ℤ
esrch = neg 3

abbrev pub eintr : ℤ
eintr = neg 4

abbrev pub ebadf : ℤ
ebadf = neg 9

abbrev pub echild : ℤ
echild = neg 10

abbrev pub einval : ℤ
einval = neg 22

abbrev pub emfile : ℤ
emfile = neg 24

abbrev pub enosys : ℤ
enosys = neg 38

-- bits of `signal`: the signal's number less one
abbrev pub sighup_bit : ℕ
sighup_bit = 0

abbrev pub sigkill_bit : ℕ
sigkill_bit = 8

abbrev pub sigpipe_bit : ℕ
sigpipe_bit = 12

abbrev pub sigalrm_bit : ℕ
sigalrm_bit = 13

abbrev pub sigchld_bit : ℕ
sigchld_bit = 16

abbrev pub sigstop_bit : ℕ
sigstop_bit = 18
