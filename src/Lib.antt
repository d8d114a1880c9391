-- ===== src/Lib.antt =====
-- Models of the two programs of this repository, a Unix shell (c-shell) and the scheduling that
-- was added to the xv6 kernel (xv6/kernel), with theorems about them. Paths are from the root of
-- the repository.
--
-- The shell. A line that has been typed is turned into tokens (lex_line), checked against the
-- grammar (parse_tokens), split at `;` and `&` into commands (execute_command_line), and each
-- command is read into arguments, redirections and stages (execute_pipeline_fg,
-- execute_pipeline_bg, execute_cmd_internal, execute_stage_child). Jobs in the background and
-- stopped jobs live in one table (jobs_list), which the SIGCHLD handler, the builtins resume, ping
-- and activities, and the report before a prompt read and change.
--   Shell/Token: c-shell/include/lexer.h.
--   Shell/Lexer: c-shell/src/lexer.c, whose nested loops over a word are one machine of five
--     modes.
--   Shell/Parser: c-shell/src/parser.c; Shell/Parser/Grammar is the grammar of its comments.
--   Shell/Commands: the splitting in c-shell/src/jobs.c and the reading in c-shell/src/execute.c.
--   Shell/Search: the search for an executable in c-shell/src/execute.c and c-shell/src/locate.c.
--   Shell/Jobs: the job table of c-shell/src/jobs.c, by files: Types (records, and what the kernel
--     answers), Refresh (sigchld_handler, jobs_refresh_states), Table (jobs_alloc_id,
--     jobs_add_pipeline, jobs_add_stopped, the lookups and signals), Report (jobs_check_completed,
--     jobs_refresh_and_print_activities), Resume (jobs_resume_bg, jobs_resume_fg). The files below
--     them hold theorems; Invariant is about all operations together.
--   Shell/Execute: c-shell/src/execute.c, by files: Execute itself (execute_cmd_internal),
--     Pipeline (execute_stage_child, the stages), Background (execute_pipeline_bg), CommandLine
--     (execute_pipeline_fg with its builtins, and execute_command_line of c-shell/src/jobs.c),
--     Copying (the processes that copy bytes from several input files and to several output
--     files).
--   Shell/Main: c-shell/src/main.c, by files: Main itself (the loop), Prompt (print_prompt).
--   Shell/Peek: c-shell/src/peek.c, by files: Peek itself (the two readers), Sources
--     (process_source, peek).
--   Shell/Reveal: c-shell/src/reveal.c.
--   Shell/Spy: c-shell/src/spy.c.
--   Shell/Snoop: c-shell/src/snoop.c, by files: Snoop itself (the statistics and the tracing
--     loop), Names (get_syscall_name), Requests (what the tokens ask for).
--   Shell/Decimal: numbers in decimal, as the C library prints and reads them.
--   Shell/Hop: c-shell/src/hop.c, with the file system around the process as a parameter, by
--     files: Hop itself (the database, hop), History (save_history, load_history, hop_init).
--   Shell/Builtins: c-shell/src/resume.c and c-shell/src/ping.c, the clients of the job table.
--
-- The kernel. The process table with its states, channels and times, the three schedulers of which
-- one is compiled in, and the timer interrupt.
--   Kernel/Proc: xv6/kernel/proc.h and the operations of xv6/kernel/proc.c on a slot.
--   Kernel/Family: one scan of kwait and of waitx in xv6/kernel/proc.c.
--   Kernel/Scheduler: the three versions of scheduler in xv6/kernel/proc.c.
--   Kernel/Trap: the timer interrupt in xv6/kernel/trap.c.
--   Kernel/Invariant: all steps together, and what each of them keeps.
--
-- How the code is read. State is passed explicitly: an operation takes the table and gives the
-- table back, with its result and the list of what it prints or signals in order. Functions and
-- types keep the names of the code. A pointer into an array is an index, a growable or fixed array
-- with its count is a list (with the capacity kept where the code allocates by it), and a null
-- pointer is `none`. What the operating system answers is an argument: `Os` for waitpid and /proc,
-- `Files` for the file system, `Dirs` for the places that hop goes to, `Round` for one round of
-- the wait loop of jobs_resume_fg, `World` and `Turn` for the start of a command, `MainRound` for
-- one call of fgets and what follows. One answer for each process is taken for a pass over the
-- table. The SIGCHLD handler runs between rounds, not in the midst of one.
--
-- Numbers. Job ids, process ids, scores and counts of the shell are natural numbers without a
-- bound. In the kernel an int or uint is its 32-bit word: `ticks` and the times wrap around, the
-- comparison of creation times is that of signed numbers, and -1 is the largest word.
--
-- Fuel. The loop of lex_line runs on the length of the line, which is enough since each round
-- consumes a byte. The backward reader of peek runs on the length of the file, which is enough
-- since each round reads a byte at least; a listing of reveal with -t runs on a depth, which is
-- enough when the tree of directories is not deeper. All other loops are recursions on a list. The
-- wait loop of jobs_resume_fg is a recursion on the rounds that are given: for rounds that end
-- before the job does, its result says so. A file is read, and a chunk written, on its length,
-- which is enough since each call takes a byte at least.
--
-- Not modelled. Failing allocations and the freeing of memory; the installation of signal
-- handlers, the terminal and its modes; what fork, exec, pipe and open do beyond the answer that
-- the code tests; in the kernel memory, files, locks and context switches. The rest of xv6 is the
-- unmodified system of MIT.
mod Common
pub mod Shell
pub mod Kernel
mod Tests
