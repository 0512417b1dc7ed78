-- ===== src/Lib.antt =====
-- The network library of NetWork/lib: a reactor with one event loop for each thread, connections with
-- growing buffers, and an HTTP parser over them; and two kernel exercises, the processes of
-- OS/process and the system calls of OS/syscall.
--
-- The parts and how they interact. An event loop (event_loop.c) waits in its dispatcher
-- (poll_dispatcher.c) for descriptors that are ready, and calls the callbacks of their channels
-- (channel.c), which it finds in a table by descriptor (channel_map.c). A channel is added, removed or
-- changed through a pending queue, which other threads may fill too; the owner of the loop handles it. A
-- connection (tcp_connection.c) has a channel and two buffers (buffer.c): its callbacks read into the
-- one and write out of the other. The HTTP server (http_server.c, http_request.c) reads requests from
-- the input buffer.
--
-- The kernel exercise of OS/process (sched.c, fork.c, exit.c) is a part of its own: the scheduler, the
-- creation and the end of processes, signals and waiting share the table of tasks, the current task,
-- the last process id and the process log.
--
-- Which file models what, with the files of NetWork/lib by their names alone:
--   Buffer        buffer.c: `make_room`, `append` (buffer_append), `socket_read`, `read_char`,
--                 `find_crlf` on the record of the block and the three indices; children by what they
--                 prove, with `Buffer.Queue` the queue of bytes that a buffer implements.
--   Channel       channel.c and channel_map.c: the events of a channel, and the table, `make_space`.
--   Dispatcher    event_dispatcher.h: the operations of a multiplexer, and the laws that the event
--                 loop relies on, over an abstract table of watched descriptors.
--   Poll          poll_dispatcher.c: the array of places; `Poll.Register` fills the laws.
--   EventLoop     event_loop.c, generic in the dispatcher: the three handlers, the queue, activation,
--                 and `event_loop_init`. `EventLoop.Pending` has the table of registrations that a
--                 loop implements, `EventLoop.Refine` the refinement.
--   Connection    tcp_connection.c: `send_data`, `send_buffer`, `on_read` (handle_read), `on_write`
--                 (handle_write), `connection_new`, `connection_closed_by` and `serve_read`, which closes the
--                 connection where `on_read` says so.
--   Http          http_request.c and the parser of http_server.c: `process_status_line`,
--                 `parse_http_request`, `get_header`, `close_connection`.
--   Response      http_response.c: `encode_buffer` (http_response_encode_buffer); `Response.Pieces` has the
--                 text of a response.
--   ThreadPool    thread_pool.c: creation, start, and `get_loop` (thread_pool_get_loop).
--   Read          read.c: `readn`, `readline`, `readline_2`, `read_message` and `read_line` over a stream of
--                 bytes and a schedule of the calls.
--   Scheduler     OS/process/sched.c: `schedule` with the process log, in `Scheduler.Calls` and
--                 `Scheduler.Doze` the calls around it. `Scheduler.Sound` has the invariant of the
--                 table of tasks, `Scheduler.Change` what keeps it, and `Scheduler.Kept` what
--                 `schedule` and signals leave of a task.
--   Timers        the list of timers of sched.c: `add_timer`, and `run_timers` of do_timer.
--   Clock         `do_timer` of sched.c as a whole, with the floppy drives' timers.
--   Fork          OS/process/fork.c: `find_empty_process`, `copy_mem`, `copy_process`, `verify_area`, and
--                 `sys_fork`, the first and the third in a row, as the system call makes them.
--   Signals       OS/process/exit.c: `send_sig`, `sys_kill`, `kill_session`.
--   Exit          the same: `release`, `do_exit`; the file system is the record `Exit.FileSystem`.
--   Wait          the same: `sys_waitpid`, in two definitions, as a caller may sleep in it.
--   Process       the steps of all these on one kernel, as a relation, and what can be reached.
--   Who           OS/syscall/who.c: `sys_iam` and `sys_whoami`.
--   Prelude       shared names, tests on numbers, integers, and lemmas on lists and slices.
--
-- Conventions. Undefined behaviour, an access outside a block and a failed assertion are `none`;
-- where a value has several such causes the comment above the definition names them. Numbers are
-- native, an `int` that may be negative is the ℤ of Prelude.Int, and the places where an `int` or a
-- `size_t` overflows or wraps are written out; the counters and priorities of tasks are 32-bit
-- words, negative from 2 ^ 31 on. One write out of bounds is not `none`: `readline_2` returns the
-- bytes that it wrote, the terminator included, which lies one byte behind the buffer where the line
-- just fits. malloc, realloc, readv, write and poll are parameters or arguments, and so is whether
-- the byte that wakes a loop could be written; what is relied on of an allocator is in the records
-- `Buffer.Heap` and `Http.Fresh`. Objects that several parts point to, the channels, are read
-- through a store at an address. A function that holds the loop's mutex is one atomic step, so
-- threads interleave as sequences of calls.
--
-- Fuel. `Channel.double_until` runs on the slot plus one rounds, which are enough since each round
-- doubles a number above 0. `poll_scan` counts the rounds of its `for` loop. `parse_http_request`
-- runs on the caller's fuel and needs one round for each line of the request. The loop of `schedule`
-- has two rounds, since the counters of 0 that lead to a second one are above 0 when recharged; the
-- search for a process id has one round more than there are tasks, and `verify_pages` one for each
-- byte. The readers recurse on the schedule of calls or on the room that is left, and block where
-- the schedule is over.
--
-- Not modelled. epoll_dispatcher.c, a thin layer over the kernel's interest set; the start of
-- threads, the accept path and the callbacks of http_server.c (event_loop_thread.c, tcp_server.c,
-- acceptor.c); logging. Of the other folders of the repository: OS/linux-0.11 is a copy of another
-- project; of OS/process the coprocessor's registers, memory management, `floppy_on` and
-- `sched_init` are left; SystemProgramming, csapp, cpp, boostAsio, algApp and distributed hold
-- separate small programs.
pub mod Prelude
pub mod Buffer
pub mod Channel
pub mod Poll
pub mod Dispatcher
pub mod EventLoop
pub mod Connection
pub mod Http
pub mod Response
pub mod ThreadPool
pub mod Read
pub mod Scheduler
pub mod Fork
pub mod Signals
pub mod Exit
pub mod Wait
pub mod Process
pub mod Timers
pub mod Clock
pub mod Who
