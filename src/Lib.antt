-- ===== src/Lib.antt =====
-- Task spooler (ts), a queue of shell commands: a model of the server (jobs.c, server.c and the GPU
-- lists of gpu.c), of its clients (main.c, client.c) and of what goes between them (msg.c), with the
-- theorems that make it correct.
--
-- The program. One server process keeps the queue of jobs, the list of finished jobs, the clients
-- that wait for a job, and an array of connections. Clients send messages over a Unix socket.
-- server_loop (server.c) accepts clients, reads at most one message of each, and then starts at most
-- one job; client_read hands each message to an operation of jobs.c; a job runs in its client, which
-- says ENDJOB at the end, or disappears. On the other side of the socket, main.c reads the options, and
-- client.c sends a request and reads the answer; execute.c runs the command of a job whose turn it is.
--
-- The state. State.antt has the records of main.h (struct Job, struct Result), of jobs.c (struct
-- Notify) and of server.c (struct Client_conn), and the record Server with the globals of the three
-- files. firstjob and first_finished_job are lists of jobs in the order of their `next` pointers; an
-- array and its size are one list. What the server writes to a socket is data (Reply, Line), kept
-- in the field `sent`, newest first.
--
-- How code ends. Base/Run.antt: a function returns a value (`ok`), calls error(), which ends the
-- server (`exits`), or does what C leaves undefined (`fault`: a null pointer, memory that was freed, an
-- index out of range). A function that can do neither of the last two is a plain function.
--
-- The files.
--   Base, Base/*: shared names; lists and options over native numbers; Int.antt has C's int, whose
--     sums wrap to 32 bits in two's complement.
--   Gpu: used_gpus, broadcastUsedGpus, broadcastFreeGpus, isInUse (gpu.c); Gpu/Listed has getVisibleGpus
--     and getGpuList, and Offered is about their list.
--   Start: set_default_maxslots, initialize_log_dir, get_max_descriptors and server_main up to its loop
--     (server.c); Start/Settings is about them.
--   Start/Connect: create_socket_path and ensure_server_up (server_start.c), and what they do.
--   Tail: seek_at_last_lines (tail.c), and Tail/Seek is about it; Tail/Follow has tail_file, and Shown is
--     about it.
--   Printing: ints_to_chars and fd_nprintf (print.c), struct Procinfo (info.c), and what they use of
--     printf; Numbers, Ids and Output are about them.
--   Columns: shorten and ofilename_shown (list.c), and Columns/Widths is about them; Lines has the lines of a
--     job in a list, and Sizes, Whole and Plain are about their memory; Dump has joblist_dump (jobs.c).
--   Jobs/Json: the jobs as JSON (jobs.c).
--   Jobs/Find: findjob, find_finished_job, get_job, findjob_holding_client and the other walks (jobs.c).
--   Jobs/Notices: the notify list, notify_errorlevel, check_notify_list, destroy_finished_job.
--   Jobs/NewJob: s_newjob and its dependencies; Depend, Join and Back are about them.
--   Jobs/Schedule: next_run_job, s_mark_job_running, wake_hold_client; Scan, Choice, Start, Claim and
--     Shuffle are about them, and Progress is about an idle server.
--   Jobs/Finish: job_finished, new_finished_job, s_clear_finished; Notify, Store, Effect and Outcome are
--     about them, Links has new_finished_job over `next` pointers, and Waiters is about the clients that wait for a job.
--   Jobs/Order: s_move_urgent and s_swap_jobs over lists; Order/Links has the same code over `next`
--     pointers, and Seg, Urge, Cross and Swap compare the two; Exchange is about whole requests.
--   Jobs/Remove, Jobs/Wait, Jobs/Query: s_remove_job, s_removejob; s_wait_job, s_wait_running_job; the
--     answers and the settings.
--   Jobs/Slots, Jobs/Lookup, Jobs/Ids: the sum of the slots in use, and the jobids of a list.
--   Jobs/Keep: what each operation of jobs.c keeps; its children Ending, Ordering, Answers, Waiters and
--     Removal go through them, and Others and Ended are about the jobs beside one that ends.
--   Connections: the array of connections, remove_connection, clean_after_client_disappeared
--     (server.c); Requests has client_read, Rounds the parts of server_loop, and Sound, Messages,
--     Waking, Starting, Closing and Reach are about them; Turn is about the start of a job by an idle server,
--     Queued about a new job of such a server, and Ended about the jobs beside one that ends.
--   CommandLine: struct CommandLine, strtok_int, get_two_jobs (main.c); CommandLine/Options has parse_opts,
--     and Sound and Arguments are about it.
--   Client: what a client reads, sends and prints; Ask, Settings, Show and Queue have the functions of
--     client.c and run_job (execute.c), Main the switch of main (main.c). Answers, Questions, Kill and
--     Listing set a client against the handler of its request (server.c), Served a client whose job runs
--     against the server, Turn adds the start of the job and Rounds the rounds of server_loop, Leaves and Drained go on to all jobs of a queue,
--     Enqueued puts the request for a job before that,
--     and Command is about build_command_string. Environment has get_environment (env.c),
--     Child run_child (execute.c), and Mail send_mail (mail.c).
--   Wire: send_bytes and recv_bytes (msg.c); Wire/Ints has send_ints and recv_ints, Wire/NewJob what
--     c_new_job (client.c) writes and s_newjob (jobs.c) reads; Bytes and Stream are about them.
--   Witnesses: test data, and each theorem at concrete data.
--
-- Soundness (IsSound of Jobs/Keep.antt): busy_slots is the sum of the slots of the running jobs, no two
-- jobs of the two lists have the same jobid, and each jobid is below the counter.
--
-- Bounds and fuel. An int is an integer with wrapped sums; the theorems that need it say that the
-- counter of the jobids is below 2 ^ 31 - 1. find_previous_job over pointers takes fuel, which counts
-- nodes and must exceed the queue; the loop that wakes clients takes fuel, and start_next gives it one
-- more than there are jobs, of which at most each one is woken once. The loops of send_bytes and
-- recv_bytes run over the calls that the socket allows, and more calls than bytes are enough; the search
-- for the last lines has fuel for each byte of the file. All other
-- loops are recursions on a list or on a count of rounds.
--
-- Parameters. rand() and RAND_MAX, and the list that the scheduler has from getGpuList() (Machine);
-- atoi, and the content of the memory that malloc gives (World); TS_SLOTS and the other settings that a
-- server starts with (Setting). Which connection can be read, in which order, and what comes in on it,
-- is free: any sequence of steps.
--
-- The NVML library answers for each device (Nvml). What getopt_long finds is a list of options;
-- what fork, wait and the clocks say of a job is a record (Child).
--
-- Of the operating system, connect() and the owner of a socket's file (Host), what each read and write
-- gives (Round, and lists of sizes or texts), and what mkstemp makes of a name; of floats, the
-- comparison, the division and "%.2f" (Floats); and cJSON (CJson).
--
-- Not modelled. In the server and in Client, messages and the data behind them arrive whole; Wire is
-- about their pieces, and Printing about the pieces of a write. malloc succeeds. The times of a job, the
-- text of s_job_info, which is a reply that carries the job, the logs of error.c and msgdump.c and the
-- help of man.c; sockets, descriptors, fork, exec and signals, which are calls of the operating system;
-- the program of TS_ONFINISH; and cjson/, which is another project's library. The program is taken as
-- built with GPUs, that is without the macro CPU.
pub mod Base
pub mod State
pub mod Jobs
pub mod Gpu
pub mod Connections
pub mod CommandLine
pub mod Client
pub mod Wire
pub mod Tail
pub mod Printing
pub mod Columns
pub mod Start
pub mod Witnesses
