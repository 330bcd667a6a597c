-- ===== src/Lib.antt =====
-- Verification of the post office service simulation.
--
-- The program is a set of processes that share six memory segments, a semaphore set and a message
-- queue. The director (src/director.c) reads the configuration, starts the others and runs the days.
-- Users (src/user.c) send requests to the ticket dispenser (src/erogatore_ticket.c), which puts
-- tickets into one queue per service. Operators (src/operator.c) claim a counter, take tickets from
-- the queue of their service, serve them and reply to the users.
--
--   Commons    structures and constants of src/headers/commons.h. Commons/Semaphores: the places in
--              the semaphore set. Commons/Time: minutes_to_ns and the request given to nanosleep.
--   Queue      service_queue of src/headers/commons.h: service_queue_reset, _is_full, _push, _length,
--              _pop. Queue/Fifo is the list that it stands for.
--   Config     read_config_file of src/director.c, on the pairs that fscanf hands out.
--   Stats      simulation_stats and every update of it, in src/director.c, src/operator.c and
--              src/erogatore_ticket.c. The type of double is a parameter with the three operations
--              that the code uses.
--   Shared     what the processes share, as one record, and its invariant (Shared/Soundness).
--   Process    system calls with their retry loops. A process is a function of its own flags, the
--              shared state and a script, which says what the other processes do to the shared state
--              between its calls, which signals arrive, and which calls fail. A theorem about every
--              script is one about every interleaving at the calls and at the unlocked reads.
--              Process/Post, Logs, Keeping, Preserving and Quiet are rules for such theorems,
--              Process/Guarded is the discipline of the locks; Process/Waiting is the loop around
--              sigsuspend and Process/Sleeping that around nanosleep.
--   Dispenser  src/erogatore_ticket.c from its first message on, function by function.
--   Operator   src/operator.c from its first message on; Operator/Day has serve_ticket, run_day and
--              main.
--   User       src/user.c from its first message on. User/Request: what one request does;
--              User/Closing: a day that closes before the user has come.
--   Director   src/director.c: what a day changes. Director/Start is initialize_shared_state,
--              Director/Days the day loop and what main does before and after it. Director/Ipc has the
--              IPC objects (cleanup_stale_ipc_resources, allocate_ipc, cleanup_ipc), Director/Children
--              the processes (spawn_process, create_children, stop_children, and the arguments that
--              main of src/operator.c and of src/user.c reads), Director/Report the values that
--              print_daily_statistics and print_final_statistics print. Director/Flush and
--              Director/Assign follow the flush and the assignment of the counters when nobody else
--              runs, Director/Interruption when a signal comes.
--   Answering  the whole way of a request, through the dispenser, the queue and an operator.
--              Operator/Work is the operator's part of it.
--   Logger     src/logger.c: write_buffer, Logger/Format its prefix, Logger/Entry vlogx_impl, logx, the
--              functions by level and log_init. The loop of write_buffer has as much fuel as the text
--              has bytes, and takes at least one off in each round; that of vlogx_impl has 13 rounds,
--              in which 256 doubles beyond LOG_MAX_BUFSZ.
--
-- Process/Runs composes runs in which all calls complete at once, by the number of calls; and
-- Process/Interrupted those in which a signal ends a wait.
--
-- A call waits as long as the script does not grant it; a process that still waits at the end of the
-- script is `blocked`, one that has called exit is `exited`. So the retry loops are recursions on the
-- script. The loops over requests, tickets, messages and days take a number of rounds, after which the
-- process counts as still at work: a theorem about what a process never does is one about every
-- number, and one that promises a result says how many rounds are enough.
--
-- Counters of type long only grow by one and are numbers. The int sums total_sems and NOF_WORKERS +
-- NOF_USERS + 1, and the cast of the number of a semaphore to unsigned short in the semaphore
-- operations, are modelled without wrap in the processes: so what is stated of the processes is right
-- for up to 65,517 counters and sums below 2^31. Commons/Semaphores has the cast itself and that
-- bound, Commons/Time the 64-bit product of minutes_to_ns.
--
-- Every update of a queue or of the statistics is one step of its process. Its log records the
-- operations on semaphores and these updates in their order, and Process/Guarded says on the log
-- what it means that each update is made under its mutex.
--
-- Not modelled: how long the processes sleep, which is only a step of the log; failures of semctl but
-- for a number outside the set; the failure of execl in a child; that the unlocked loop of
-- service_is_offered_today may see the counters at different times, and that the reset of the queues
-- in assign_daily_counters, which takes no mutex, may be interrupted halfway; texts for the logger
-- with a zero byte, which its strlen would end there. Also the attachment of the IPC objects in the
-- other processes, which only calls the kernel, and the text around the values of the reports; of the
-- logger stdout, stderr, the system log and log_stop. The kernel's calls for IPC objects, fork,
-- snprintf, strtol, vsnprintf, the allocator and fopen are parameters, with what their documentation
-- says as hypotheses.
pub mod Prelude
pub mod Commons
pub mod Queue
pub mod Config
pub mod Stats
pub mod Shared
pub mod Process
pub mod Dispenser
pub mod Operator
pub mod User
pub mod Director
pub mod Answering
pub mod Logger
