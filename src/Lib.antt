-- ===== src/Lib.antt =====
-- reproduce runs a program under ptrace and answers what would make two runs differ: random bytes,
-- the time, and the random devices. This library models the tracer and the program that tests it.
--
-- The parts, with the files of the repository and the functions that they model:
-- - Kernel: what the tracer asks of the operating system (ptrace, waitpid, fork, malloc), as an
--   interface over the state of the machine. Kernel/Laws states what ptrace(2) documents of a
--   stopped tracee, over a view of its memory and registers; theorems take it as a hypothesis. What
--   it says of a cancelled call holds from the stop at the entry of the call, of a process that is
--   not killed, and whose memory nothing else writes to, before the exit (`AtEntry`).
--   Kernel/Frames states which requests of the tracer leave a stopped process stopped, with its
--   registers, Kernel/Stays which replies are left out while no process is killed in the midst of a
--   round.
-- - Uthash: the macros of reproduce/include/uthash.h, a copy of another project's library, as an
--   interface with laws.
-- - Tracer: the state (`Tracer`: the machine, `process_table`, `entry_count`, the structs given by
--   `malloc`), the computations over it, and the macro PTRACE_RETURN of reproduce/include/putils.h.
--   A computation returns, exits, faults (a use of NULL or of a freed struct), or is out of fuel.
-- - Putils: reproduce/src/putils.c. Registers has the r_ and w_ functions, Child the functions that
--   run, cancel and finish a system call, Text `read_child_c_string`, Buffer `replace_buf`.
-- - HashTable: reproduce/src/hashtable.c. View gives the map from process ids to structs that a
--   table stands for, and the well-formed states `IsTable`; Fresh has the state that an insertion
--   leaves.
-- - Vdso, ProcInit: `remove_vdso` of reproduce/src/vdso.c and `proc_init` of
--   reproduce/src/proc_init.c, which run on each new program. ProcInit/Stack joins the two.
-- - Syscalls: `handle_syscall` and `redirect_dev_random` of reproduce/src/syscalls.c, a hook for
--   each case of the `switch`; it works on the tracee through Putils and on the struct of the
--   process that HashTable keeps. Open has the calls that open files. Reproducible compares one call
--   on two machines, Programs has programs on their own, each a function from the registers and the
--   memory after an answer to those at the next call, and Sessions whole runs of them.
-- - Events: `handle_event` and `register_new_child` of reproduce/src/events.c, and PTRACE_DELETE.
--   It asks HashTable for the struct of the process that stopped, and calls ProcInit and Syscalls.
--   Stops has the rounds for the stops of a process (Forked those at the event of a new child),
--   Forks and Children those for new and for ended ones, Isolation what a round leaves alone, and
--   Runs the loop without a bound on its rounds. Histories has the rounds of the loop as one
--   program sees them, among rounds for other processes in any order: Steps serves one of its
--   stops, Played compares it with the program played on its own, Forks has its stops at the event of
--   a new child, and Execs the rounds before a history, from the start of the program. Ends/Lives
--   has the loop to its end, with the rounds of Ends/Rounds and, for a child that stops before the
--   event of its parent is reported, those of Ends/Arrivals.
-- - Main: `main` and `initialize_seed` of reproduce/src/main.c; Seed has R_SEED, Start the way to the
--   loop, Zero its status, Safe is about faults, Clocks about the clocks of all processes, Lives has a
--   run to its end, and Reproducible compares two whole runs.
-- - Diagnostics: the messages of reproduce/include/cstd.h, with `print_event` of
--   reproduce/src/events.c and `print_hashtable` of reproduce/src/hashtable.c.
-- - Printrandom: `main` of reproduce/src/printrandom.c, over a record of the calls that it makes.
--   Calls has that record, Output what it prints, Transcript what it is to print under the tracer,
--   and UnderTracer what it relies on there.
-- - Sample: a small machine and a hash table of one bucket that satisfy the two interfaces and the
--   laws, and examples of the theorems over them. Running is a machine whose processes also run and
--   write to their memory between the exit of a call and the entry of the next.
--
-- Invariants: Tracer/Keeps has a rule for each way to build a computation, the Keeps modules of the
-- parts apply them, and `IsInvariant` of Events/Loop asks what is left to show of a property: that
-- inserting and deleting a process, advancing a clock, and a change of the machine keep it. The
-- Safe modules apply the same rules to faults.
--
-- Numbers: an unsigned long, a long and a time_t are 64-bit patterns, a pid_t and an int 32-bit
-- patterns, as natural numbers; sums that can wrap are taken modulo 2^64 or 2^32. Memory is bytes,
-- and words are little-endian.
--
-- Fuel: `replace_buf` takes one round more than the buffer has bytes, and `read_child_c_string` 129
-- rounds, one more than the 128 words of its buffer; both are enough, as the theorems on them say.
-- The walk of `remove_vdso` has its fuel as an argument, since the code has no bound: the number of
-- words of arguments and environment, and of entries behind the first of the auxiliary vector, and
-- 4 are enough. The rounds of `handle_event` are an argument, since the loop runs as long as the
-- traced processes.
--
-- Not modelled: the messages in the midst of the tracer's other functions (what a function that only
-- prints writes is its result), memory that is never freed, the tests in Python, and the build files.
-- The output of the test program is what it gives to printf, as one stream for each of its processes;
-- when the C library writes its buffer is left open, and so is what lies behind the variable to which
-- the tracer writes the answer to its `time`, twice as long.
pub mod Prelude
pub mod Kernel
pub mod Uthash
pub mod Tracer
pub mod Putils
pub mod HashTable
pub mod Vdso
pub mod ProcInit
pub mod Syscalls
pub mod Events
pub mod Diagnostics
pub mod Main
pub mod Printrandom
pub mod Sample
