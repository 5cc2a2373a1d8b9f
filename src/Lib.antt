-- ===== src/Lib.antt =====
-- A verification library of the C programs of the operating-system course project.
--
-- Parts of the repository and the modules about them
--
-- - `Prelude` (about no file of the program): the library names passed on, Boolean tests on ℕ, lists
--   measured by ℕ, sums of a weight over a list, signed integers.
-- - `Memsim`: project2/part3/memsim.c, a simulator of contiguous memory allocation. It is one
--   program with a menu. `Memsim.Sort` is the insertion sort that the three `sort_free_by_…` and
--   `sort_alloc_by_addr` share; `Memsim.State` the global variables, the sorts, `rearrange`,
--   `insert_free_tail` and `sum_free_memory`; `Memsim.Merge` `merge_free_adjacent`; `Memsim.Alloc`
--   `allocate_mem` and `compact_memory`; `Memsim.Process` the commands of the menu (`set_mem_size`,
--   `set_algorithm`, `new_process`, `kill_process`, `set_min_slice`, `toggle_auto_compact`) and the
--   loop of `main`. `Memsim.Sort.Laws`, `.State.Orders`, `.Merge.Laws`, `.Alloc.Fit`,
--   `.Alloc.Compact`, `.Invariant` and `.Policy` hold the proofs.
-- - `Ext2`: project3, a file system in one image file. Each layer calls the one before it:
--   `Ext2.Bytes` and `Ext2.State` (include/fs.h, include/layout.h, include/errors.h: the structures,
--   their bytes, the result codes, the global variables); `Ext2.Dev` (src/dev.c: `dev_read_block`,
--   `dev_write_block`); `Ext2.Bitmap` (src/bitmap.c: `alloc_block`, `free_block`, `alloc_inode`,
--   `free_inode` and the tests of bits); `Ext2.Inode` (src/inode.c: `read_inode`, `write_inode`,
--   `inode_truncate`); `Ext2.Dir` (src/dir.c: `dir_lookup`, `dir_add`, `dir_remove`, `namei`);
--   `Ext2.Map`, `Ext2.Open` and `Ext2.Io` (src/file.c: permissions and the block map; `fs_open`,
--   `fs_close`, `fs_seek`; `fs_read`, `fs_write`). `Ext2.Text` is what the code uses of the C library on
--   strings and numbers. `Ext2.Accounts` (src/security.c: the lines of /.users and the session text)
--   and `Ext2.Security` (src/security.c over the files: `read_whole_file`, `append_line`,
--   `session_save`, `session_load`, `users_bootstrap`, `users_login`, `users_add`,
--   `users_change_password`); `Ext2.Format` (src/fs.c: `fs_format`, `fs_mount`); `Ext2.Listing`
--   (src/util.c: `mode_to_str`); `Ext2.Command` (src/cli.c: one function per command, and `main`).
--   Their children hold the proofs. A run of the program is `Ext2.Command.Main.main`, which mounts the
--   image first; that loads the two headers, makes /.users if it is missing, and restores the session.
-- - `Spinlock`: project1/part3/spinlock.c, two threads that count under a spin lock.
--   `Spinlock.Invariant` holds the proofs.
-- - `Race` and `Semaphore`: project1/part2/step1_race.c and step2_semaphore.c, a thread that adds and one
--   that subtracts, without and with a semaphore. `Semaphore` uses the workers of `Race`.
-- - `Pipe`: project2/part2/pipe_communication.c, two writers of a pipe, with a lock or without, and the
--   counting of their bytes. `Pipe.Counts`, `.Contents` and `.Progress` hold the proofs.
-- - `Softint`: project2/part1/softint.c, a parent that waits for a signal and then signals two children.
--   `ChildMove` is a child, with `child1_handler` and `wait_flag`; `ParentMove` is `main` behind the
--   forks, with `parent_trigger_handler`. `Softint.Children`, `.Order`, `.Places`, `.ParentSteps`,
--   `.Steps` and `.Wakeup` hold the proofs.
-- - `Process`: the programs of project1/part1 (`Process.Part1`) and step3_exec_in_thread.c,
--   step3_system_in_thread.c and exec_helper.c of project1/part2 (`Process.Part2`), as trees of the calls
--   that they make, and the steps of a task with its child or its thread. `Process.Ends` finds all runs,
--   `.Forks` and `.Threads` state what the programs print.
--
-- How the code is modelled
--
-- - `Memsim`: a state record, passed on. A singly linked list with one owner is a list. Sizes and
--   addresses are `int` in C and stay between 0 and `mem_size`, so they are natural numbers. What
--   `scanf` reads is an argument; `malloc` succeeds; what is printed is left out. `allocate_mem`
--   calls itself behind a compaction: it takes fuel, `activations` = 2 is what the commands give, one
--   for the call and one for the call behind a compaction, which leaves one block for all free memory.
-- - `Ext2`: functions in the monad `M`, of a state with the image and the global variables, with
--   result codes as values. `none` is undefined behaviour of C: an access out of bounds, or a read of
--   a variable that was never set; and a loop that has used up its fuel. `uint32_t` arithmetic is
--   modulo 2^32; a block number of 2^31 or more is a negative `int`, and so an error. The structures are read and written as their little-endian bytes. `g_sb` and `g_gd` are written to the image as whole
--   blocks of 512 bytes, so the bytes that lie behind them in memory are part of the state (`sb_tail`
--   and `gd_tail`). The host's file is a function from block numbers to bytes with a number of blocks;
--   reading past its end fails, writing does not. The clock is a function of the number of calls. A
--   C string is the list of its bytes. The loops over the 4542 data blocks and the 256 inodes are
--   recursion on that count; the loops of `fs_read` and `fs_write` take as fuel the number of bytes
--   that are left, and each round moves at least one.
-- - `Ext2`'s theorems are about images in shape, `IsMounted`: the image is open and has 4611 blocks of
--   512 bytes, and the superblock and the group descriptor name the places that `fs_format` gives.
-- - `Ext2.Security`: `realloc` succeeds. The code puts no zero byte behind a text that it has read, so
--   what memory holds there, `heap`, is a parameter; the loops over lines go on into it and are
--   undefined past its end. The theorems on accounts are about texts that a zero byte follows. The loop
--   of `read_whole_file` takes as fuel `whole_fuel` = 70657, the number of bytes in the 138 blocks that
--   a file can have, and one more. `atoi` is undefined at what is no `int`.
-- - `Ext2.Format`: reading a block over `g_sb` and `g_gd` is taken to overwrite none of the other
--   variables. The loops take the number of blocks.
-- - `Ext2.Command`: what a command prints is a value of `Output`, the numbers and bytes without their
--   layout. The host's files are a parameter; the loop of `writefile` takes as fuel the number of bytes
--   and one more, and each round but the last takes 512.
-- - `Spinlock`, `Race` and `Semaphore`: relations of single steps, each one access to memory, which is
--   sequentially consistent. The test-and-set is one atomic step, `shared_value++` is a load and a
--   store, and `sem_wait` is a step that can be made while the semaphore is above 0. The number of
--   rounds is a parameter.
-- - `Pipe`: a step writes one byte, or takes or gives back the lock. Of the host it is taken that a
--   `write` waits while the pipe is full, that `lockf` waits while the other child has the lock, and
--   that the bytes come out in the order in which they went in. The number of bytes and the room in the
--   pipe are parameters.
-- - `Softint`: a pending signal is handled by a child at any of its steps, or ends it where no handler is
--   set; the test of the flag and the call of `pause` are two steps. `fork`, `pipe` and `sigaction`
--   succeed. Lines come out in the order in which they are printed. The two signals are parameters.
-- - `Process`: what `fork`, `wait`, `pthread_create`, `pthread_join`, `exec` and `system` do is the host's,
--   and the steps of the model say what the programs rely on; which calls succeed, and the numbers that
--   the host gives out, are parameters. `exec` of a path of the repository runs the `main` of that file.
--   A run of a command by `system` is one event. A trace lists what is printed and which process has
--   ended, in their order; all runs are found by following every step, with the number of steps as fuel.
--
-- Not modelled
--
-- - `human_time` of project3/src/util.c, which formats by `localtime` and `strftime`, and the layout of
--   what is printed.
pub mod Prelude
pub mod Memsim
pub mod Ext2
pub mod Spinlock
pub mod Race
pub mod Semaphore
pub mod Pipe
pub mod Softint
pub mod Process
