-- ===== src/Lib.antt =====
-- The Linux 0.11 kernel of this repository (linux-0.11/), modelled function by function.
--
-- Parts, and the files that model them:
--
-- Common: native numbers, Boolean tests, lists, signed integers (Common.Int) and words that are
--   used as sets of bits (Common.Words).
-- Mktime: linux-0.11/kernel/mktime.c, `kernel_mktime`, against a calendar (Mktime.Calendar).
-- Task: the task structure and the task table of linux-0.11/include/linux/sched.h. The table is a
--   function from slots; a pointer to a task is the number of its slot.
-- Ids, Session: the calls of linux-0.11/kernel/sys.c and sched.c on users, groups, sessions, the
--   break, the alarm and the priority.
-- Memory: linux-0.11/mm/memory.c. Memory holds the allocator, Memory.Tables the copying and the
--   freeing of page tables, Memory.Faults the page faults, Memory.Sharing the pages of program
--   files. A run ends in a state, in a halt of the kernel or in the death of the task.
-- Sched: linux-0.11/kernel/sched.c. Sched holds `schedule`, whose endless loop is recursion on fuel
--   (two rounds are enough); Sched.Timers `add_timer` and the list in `do_timer`; Sched.Sleep
--   `sleep_on`, `interruptible_sleep_on` and `wake_up`, as steps of several tasks on one queue.
-- Signals: linux-0.11/kernel/signal.c, and `send_sig` and `sys_kill` of linux-0.11/kernel/exit.c.
-- Pipe: `read_pipe` and `write_pipe` of linux-0.11/fs/pipe.c, cut where they sleep; Pipe.History has
--   histories of calls. The fuel is the number of bytes asked for, which is enough since each round
--   moves one at least.
-- Vsprintf: linux-0.11/kernel/vsprintf.c. Vsprintf.Number holds `skip_atoi` and `number`,
--   Vsprintf.Directives the reading of what follows a %, Vsprintf the loop, whose fuel is the length of
--   the format. The array `tmp` has its 36 places.
-- Process: `release`, `kill_session`, `tell_father` and `sys_waitpid` of linux-0.11/kernel/exit.c;
--   `sys_waitpid` is cut where it sleeps. Process.Fork is `find_empty_process` of
--   linux-0.11/kernel/fork.c; 65 tries are enough for 64 tasks.
-- Requests: `make_request` and `add_request` of linux-0.11/kernel/blk_drv/ll_rw_blk.c, for one device.
-- Descriptors: linux-0.11/fs/fcntl.c, `sys_close` of linux-0.11/fs/open.c and `sys_pipe` of
--   linux-0.11/fs/pipe.c, with the files' use counts.
-- Console: linux-0.11/kernel/chr_drv/console.c. Console holds the cursor, the scrolling and the changes of
--   the text; Console.Escape the state machine of `con_write`.
-- Buffers: linux-0.11/fs/buffer.c. Buffers holds the queues, `getblk`, `brelse` and
--   `invalidate_buffers`, cut where they sleep.
-- Bitmap: `new_block` and `free_block` of linux-0.11/fs/bitmap.c on the buffer cache of Buffers, and
--   `get_super` of linux-0.11/fs/super.c. A buffer that holds a bitmap is its 8192 bits; a search goes
--   over 256 words of 32 bits.
-- Tty: `copy_to_cooked` of linux-0.11/kernel/chr_drv/tty_io.c. Tty holds the queues of
--   linux-0.11/include/linux/tty.h, Tty.Cooking the loop; its fuel of 1024 is enough for a queue of 1023
--   characters. `tty->write` is a field of the terminal. Tty.Editing is an editor of lists of
--   characters, which says what the loop is for.
--   Tty.Reading is `tty_read`; it ends where it would wait, and takes one character a round at least.
-- Inodes: the table of inodes of linux-0.11/fs/inode.c with `iget`, `iput` and `get_empty_inode`, `truncate`
--   of linux-0.11/fs/truncate.c, and `new_inode` and `free_inode` of linux-0.11/fs/bitmap.c. The calls run
--   with no other task in between, and every transfer succeeds. The directories' blocks are a function
--   of device, inode number and place; Fs.room says whether a missing block can be made, and the
--   marks that _bmap sets on the directory's inode then are left out. `iget` gets 9
--   rounds, since it takes more only where devices are mounted on one another's roots in a circle; that
--   is an end of its own, as is the loop of `get_empty_inode` on a dirty inode without a device.
-- Names: linux-0.11/fs/namei.c, from `permission` to `sys_link`, and in Names.Files the calls of
--   linux-0.11/fs/open.c and linux-0.11/fs/stat.c that find an inode by its name. Names.Tasks has
--   histories of these calls, with the limit of `sys_open` on the descriptors. The fuel of a path name
--   is its length and one more, that of add_entry the number of entries and two more. The buffers' use
--   counts are not modelled.
-- Zones: `_bmap` of linux-0.11/fs/inode.c. Its three cases are one walk over slots, the first of them in
--   the inode and the others in blocks of numbers; Zones.way_to gives the slots of a block. Which
--   blocks `bread` cannot read is a parameter.
--
-- Each function of the source is a definition of the same name (in snake_case), which takes the state
-- that the C code reads and returns the state that it leaves; loops with a bound in the source recur
-- on the rounds left. Interrupts, `cli` and `sti`, the flush of the processor's page tables and the
-- messages that are printed have no effect on the modelled state. Wrap-around of words is written
-- out where a value can pass the width.
--
-- Not modelled: the assembly files and the device drivers' port access; mounting, the rest of `sys_open`
-- and the loading of programs; the kernel allocator; and the other programs of the repository.
pub mod Common
pub mod Mktime
pub mod Task
pub mod Ids
pub mod Session
pub mod Inodes
pub mod Memory
pub mod Sched
pub mod Signals
pub mod Names
pub mod Zones
pub mod Pipe
pub mod Tty
pub mod Vsprintf
pub mod Process
pub mod Requests
pub mod Descriptors
pub mod Console
pub mod Bitmap
pub mod Buffers
