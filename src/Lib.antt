-- ===== src/Lib.antt =====
-- Models and proofs for the programs of this repository: servers, queues between threads, file transfer
-- and inter-process communication in C under ALSP and sp.
--
-- How the code becomes definitions. Each program is a module of its own, as in the repository, where
-- the programs share no code. Data of C becomes records and lists (arrays are lists with native
-- indices, see Base/Lists), and each function of C is a definition of the same name. Base/Sys stands
-- for the kernel and the C library, which are no code of the repository: an environment (`Env`) is any
-- function from the history of calls to a reply, a program is a value of `M A` that issues calls, and a
-- run returns, ends the process, is still running, or accesses memory out of bounds (`Out`). A theorem
-- that relies on the behaviour of a call has it as a hypothesis on the environment, and each such
-- theorem has an instance, in a Tests module, with a concrete environment.
--
-- The parts:
-- - WorkQueue: ALSP/cond_var.c and ALSP/cond_var_rts.c. `struct workqueue`, `push_item`, `pop_item` and
--   the index wrap of the array as functions; the reader `tfunc_a` and the workers `tfunc_b` with their mutex and condition
--   variable as a step relation (`Step`). WorkQueue/Window views the array as a window, Refine relates
--   it to a bounded queue, Threads has the runs of all threads, and
--   Main has `main`, `clean_thread` and the reader over their calls. Rts has the threads of
--   ALSP/cond_var_rts.c, with the signals on the way between them, and Notices is about these.
-- - PollServer: ALSP/io_poll.c. The table `pollfds`, `add_socket`, `del_socket`, the service loop and
--   `main`. Sockets is about the table, Dispatch about the service loop.
-- - NonblockServer: ALSP/io_poll_nb.c. The loop over `accept` and `main`, over the table of PollServer;
--   Backlog is about the connections that wait.
-- - SelectServer: ALSP/io_select.c. The table `fd_socket`, `mk_fds`, the loop over the set and `main`.
-- - ChatServer: sp/select/serv.c. The client list, the round over `select` and `main`. Table is about
--   the list, Chat about one message, Round about the loop over the clients, and
--   Skipped about a client that it passes over.
-- - ChatClient: sp/select/clnt.c. The buffer with the prompt, the round over `select`, `tcp_connect` and
--   `main`; Bounds is about the buffer and the ends of the client.
-- - EpollTimer: ALSP/epoll_timerfd.c. The session list that joins a socket and its timer, `add_ev`,
--   `del_ev`, the dispatch of events and `main`. Sessions is about the growth of the list, Search about the
--   removal from it, Events about `add_ev` and the events.
-- - EpollServer: ALSP/io_epoll.c. The loops over events and `accept`, and `main`; Watch is about the
--   descriptors in the epoll set.
-- - SignalServer: ALSP/io_rts.c. The sockets that send signals, the loop over `sigwaitinfo` and `main`;
--   Signals is about what it closes and how it ends.
-- - FileTransfer: sp/sock/clnt/clnt.c and sp/sock/serv/serv.c. `send_file`, `recv_file` and the pool of
--   processes; Clnt and Serv have the two `main` functions, Upload is about what the socket takes,
--   Download about the results of `recv_file` and the descriptors that it closes.
-- - Sysv: ALSP/lib_sysv_sem.c, ALSP/lib_sysv_msg.c and ALSP/lib_sysv_shm.c, every function of them.
-- - FifoGame: sp/ipc/ipc.c. `check` and the processes on both ends of the FIFOs.
-- - Rwn: APUE/rwn.c. `readn` and `writen`; Loops is about each, RoundTrip about both over a pipe.
-- - FileWalk: APUE/filenum.c and APUE/alloc.c. `dopath`, `myftw`, `myfunc`, `main` and, in Alloc,
--   `path_alloc`. Tree has the trees of files and their visits, Preorder the walk, Count the counters.
-- - ErrorLog: APUE/err_routine.c and APUE/err_daemon.c, every function of them; Message is about the line.
-- - Daemon: APUE/daemonize.c. Descriptors is about the descriptors that `daemonize` leaves.
-- - SystemCall: APUE/system.c and APUE/posix_system.c, where `posix_system` is the `system` of the second;
--   Signals is about what it puts back.
-- - Pty: APUE/pty.c, APUE/pty_fork.c, APUE/open_pty.c, APUE/loop.c and APUE/do_driver.c. Loop has the copying
--   between a terminal and a pseudo terminal, which uses `writen` of Rwn, and Relay is about it.
-- - TaskList: ALSP/OpenMP/omp_task_linkedlist.c. The list in a heap, and the tasks of the walk; Walk is
--   about both.
-- - EchoServer: ALSP/inet_tcp_serv1.c, ALSP/unix_tcp_serv.c and, in Inet6, ALSP/inet6_tcp_serv1.c. A pool
--   of processes that send back what they receive; Echo is about the bytes and the descriptors.
-- - OobServer: ALSP/inet_tcp_serv1_OOB.c. The same pool for urgent bytes; Marks is about its buffer.
-- - ChildPool: ALSP/io_signalfd_chld.c. A parent that replaces its children; Refork is about that.
-- - Mutexes: threads as step relations. Cleanup has ALSP/cleanup_mutex.c, Robust ALSP/mutex_robust.c,
--   Counter test/pthread_mutex.c and SumString ALSP/sum_strnum_mutex.c.
-- - MessageQueue: ALSP/posix_msq.c and ALSP/posix_msg_sigev.c in Posix, ALSP/sysv_msg.c and
--   ALSP/sysv_msg_regex.c in Typed, which open their queue with the functions of Sysv. Lines has what was
--   read and sent; Last, Short and Number are about the three senders.
-- - Filters: APUE/mycp.c, APUE/write.c, APUE/pager.c and APUE/filter.c. Copies is about the first two, and
--   Pager about what the pager gets.
-- - Uptime: APUE/socket.c, APUE/server_stream.c and APUE/client_stream.c; the server becomes a daemon with the
--   functions of Daemon. Retry is about the attempts to connect, Clients about the connections of the server.
-- - Semaphores: ALSP/posix_nameless_sem.c and ALSP/posix_named_sem_cnt.c as one step relation; Units is about
--   the units of the semaphore.
-- - TcpClient: ALSP/tcp_cli.c, ALSP/tcp_cli_reuseaddr.c, test/echo_clnt.c and test/echo_serv.c; Commands is
--   about the commands of the first. ChatServer/Older has test/select_serv.c.
-- Parts interact through calls only: a program's loop hands its table to the functions of the table,
-- and the environment's replies decide the branches.
--
-- Bounds and fuel. The capacities are those of the source: 64 items in the queue, 255 sockets in the
-- tables, 1024 clients of the chat. An endless loop takes the number of its rounds, and is `running`
-- when they are over. A loop that ends takes as many passes as its array has live entries, which each
-- pass uses up by one; the loops of `send_file` need one round more than the file has bytes, and their
-- theorem says that they then come to their end. An `int` that may be negative is its 32-bit pattern.
--
-- What is not modelled: what the programs print or log, the addresses of peers, permission bits, and
-- the loss of precision of times. The other programs of ALSP, APUE and test show one call each.
-- tlpi-dist is a copy of another project's distribution.
pub mod Base
pub mod WorkQueue
pub mod PollServer
pub mod ChatServer
pub mod EpollTimer
pub mod FileTransfer
pub mod Sysv
pub mod FifoGame
pub mod SelectServer
pub mod ChatClient
pub mod Rwn
pub mod FileWalk
pub mod ErrorLog
pub mod Daemon
pub mod SystemCall
pub mod Pty
pub mod EpollServer
pub mod NonblockServer
pub mod SignalServer
pub mod TaskList
pub mod EchoServer
pub mod OobServer
pub mod ChildPool
pub mod Mutexes
pub mod MessageQueue
pub mod Filters
pub mod Uptime
pub mod Semaphores
pub mod TcpClient
