-- ===== src/Lib.antt =====
-- The personality server that lets Linux programs run on the Glenda microkernel: its tables of
-- tasks, signals, pipes, terminals, file regions and address spaces, and the handlers that change
-- them, as functions from a state to a state.
--
-- The parts, the files that model them, and the code they are about:
--   * Pipe (src/vfs/pipe.rs): the registry of pipes. `PipeRegistry` holds a map from numbers to
--     `PipeState`; `create_pipe`, `open_pipe`, `pipe_read`, `pipe_write`, the `close_*` and `clone_*`
--     functions and the handle's methods keep their names. Pipe/Trace is a run of any calls on any
--     pipes.
--   * Tty (src/ape/tty/ldisc.rs, src/ape/tty/state.rs): Tty/Ldisc is the line discipline,
--     `feed_input` and `take_readable`; Tty/State and Tty/Registry are the state of the terminals.
--   * Signal (src/ape/signal.rs): blocked and pending sets as words of 64 bits, the mask that
--     sigsuspend saves, and the request that wait4 leaves. `pop_loop` has a parameter for what other
--     threads do between its load and its `fetch_and`.
--   * Task (src/ape/task.rs, src/ape/state.rs, src/ape/mod.rs): Task/Struct is one task, Task/State
--     the tables of `ApeTaskState` (tasks, host numbers, lifecycle, child events, frame references),
--     Task/Regions the pool of file regions with `allocate_fs_async_region`, Task/Ledger the account
--     of frames.
--   * Jobs (src/task/job.rs, and `queue_process_signal` and
--     `consume_deliverable_signal_on_syscall_return` of src/system/signal.rs): sessions, process
--     groups, `kill` and the delivery of signals, over the tasks and child events of Task and the
--     signal sets of Signal, and the sleeps that a signal ends (src/ape/async_runtime.rs).
--   * Memory (src/ape/mm.rs, src/mm/mod.rs, src/ape/fault_policy.rs, src/layout.rs): Memory/State
--     holds the maps of a process; Memory/Ranges the tests for free ranges, the search for one,
--     `do_brk` and `classify_fault`; Memory/Tables and Memory/Unmap the splitting of large maps,
--     `do_munmap` and `do_mprotect`, Memory/Mmap `do_mmap`.
--   * Files (src/fs/fd.rs, src/ape/files.rs): the descriptors of all processes, the open endpoints
--     they share, the pool of regions and the ledger. Files/State is the state, Files/Calls
--     `do_close`, `do_dup`, `do_dup3` and `do_fcntl`, Files/Opens `open_via_nexus_fs` and `do_pipe2`,
--     Files/Getdents `do_getdents64`; Files/Trace is a run of any calls in any processes.
--   * Tty/Ansi (src/ape/tty/ansi.rs): the screen state that the terminal keeps of its output, one
--     function per event of the parser.
--   * Signal/Calls and Signal/Waiting (src/system/signal.rs): the calls on actions, masks and pending
--     sets, sigsuspend and the wait for a signal. Other threads queue signals between the rounds of a
--     wait, by a sequence that is an argument.
--   * Exit (src/task/lifecycle.rs, and the late replies of src/ape/mod.rs): `terminate_process`, which
--     closes with Files, frees with Memory and Task and signals with Signal, `do_wait4`, and the reply
--     to a parent that is blocked. A panic is the constructor `panics` of `ExitResult`.
--   * User (src/ape/user.rs): copies, strings and the input of execve, between the server and the
--     memory of a process, through the pool of scratch slots, with the order of Policy and the maps
--     of Memory. Memory is a function from frames and offsets to bytes; a scratch address shows the
--     frame of its slot.
--   * Policy (src/ape/policy/lru.rs): the order of the page pool.
--   * Base: results, lists, ordered maps, bytes, words, bits and signed numbers that the parts share.
--
-- How the state is read: a record stands for a struct, a lock or an atomic field for what it holds,
-- an `Arc` for the entry of the table that owns it, and a handler that changes the state returns it.
-- A `BTreeMap` is a list in the order of its keys. Numbers are natural numbers; `usize` arithmetic
-- that checks, saturates or wraps is written out with 2 ^ 64, and a subtraction stops at 0 where the
-- source saturates. Where the memory tables add an address and a length of a map without a check,
-- the sum is not cut to a word: no map runs over the end of the addresses.
--
-- What the code calls outside this repository is a parameter: the answers of the services in
-- Task/Regions (`Answers`) and in Files, of the kernel in Memory/Tables, Exit and User (each has its
-- own record `Kernel` of the calls it makes), the events of the parser of anstyle_parse in Tty/Ansi,
-- what user memory and the clock answer in Signal, and the page size, the fixed addresses and the
-- rounding of glenda in Memory/State (`Platform`), whose laws are that a page has bytes and that
-- rounding up gives a multiple of it that is no smaller. The constants of linux_raw_sys are written
-- as numbers. `terminate_process` is a parameter of `do_kill` in Jobs and a definition in Exit.
--
-- Fuel: `pop_pending_signal_from_mask` has one round, which is enough when nobody interferes; the
-- search for a range has one step more than the window's limit, since each step adds a page to the
-- candidate; the search for a free descriptor has one step more than the table has entries; a copy
-- from or to user memory has one round for each byte, since a round moves one at least. The wait for a signal is
-- recursion on the list of its rounds, and ends at the first round at or after the deadline. All
-- other loops are recursion on a list or a count.
--
-- Not modelled: the moves of `do_mremap` and the copying loop of
-- `split_large_mapping_into_base_pages`, whose outcome `Kernel` gives; `do_fork` and `do_clone`; the
-- loader of src/task/exec.rs; the handling of page faults in src/ape/fault.rs after their
-- classification; the terminal driver, poll and the time and system information calls; and the
-- message loops, the tracing and the forwarding to services, which hold little logic of their own.
pub mod Base
pub mod Pipe
pub mod Tty
pub mod Signal
pub mod Task
pub mod Memory
pub mod Jobs
pub mod Policy
pub mod Files
pub mod Exit
pub mod User
