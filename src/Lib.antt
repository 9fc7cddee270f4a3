-- ===== src/Lib.antt =====
-- VWNetLib: a small C++ library for epoll-based TCP servers and clients, and a simulator of a
-- market-data server, with its client, that is built on it. The modules model the C++ code as
-- functions on explicit states, and prove what makes its parts correct.
--
-- Base: what the modules share: Boolean tests, byte lists and blocks of memory, association lists
-- with the operations of `std::unordered_map`, ascending lists for `std::set<int>`, bit fields.
--
-- Venues (venues/bse.h, venues/common.h, venues/common.cpp): Endian models the overloads of
-- `ReverseEndian`, a word being the number of its bit pattern; Trim the in-place trims as functions
-- on lists of bytes; Messages the packed structs, the bytes of a struct, and the reading of a block
-- of bytes as a struct, on a little-endian host.
--
-- Net (epoll_net.h, epoll_net.cpp): State is class EpollNet as a record of its members, with the
-- kernel calls made so far and a flag for an access out of bounds; the methods are functions from
-- state to state. Socket states what `read` and `write` do: a connection is any type with these
-- calls and POSIX's laws. Read and Write are `handle_read`, `handle_write` and `send_data` of class
-- EpollNetTcp. Framing is the loop by which `process_data` cuts a stream into messages. Events is
-- `handle_accept` and what `Run` does for an event of a connection, with Buffers for the buffers of
-- all connections along a sequence of events; Command is the pipe of commands. Setup is `Init`, `Set`,
-- the virtual `do_bind` and `start_service` of the TCP classes, and the set-up and clearing of the epoll
-- descriptor and the pipe, over any answers of the kernel; Run is `Run`, from its guards to its tear-down,
-- with Stop, Release, Connections and Lifetime on how it ends and what is open then.
-- The class that derives from the library is a record of its virtual functions (`Handlers`) over a
-- state of its own (`Sys`).
--
-- Pool (thread_pool.hpp): class ThreadPool as a machine whose actions are the steps of its threads
-- and of the callers of Commit and Stop between two looks at the shared state; Steps is
-- the induction over its runs, and Order, Wake, Busy and Stop follow what holds along them.
--
-- Config: the calls of jsoncpp that both programs make, as a record of operations over any type of
-- values, the results of a reading (a value, an exception, a loop without an end), and the loop with a
-- `uint16_t` counter.
--
-- Server (server/bse_server.h, server/bse_server.cpp): State holds the accounts, the lookup of
-- sockets and the contexts of the clients, with the functions that change them; Files the sending
-- of mapped files; Process `process_data` and the handlers of the messages; Playback the sending of
-- journals and of changed files; Config `init_from_cfgfile` and `start_service`; Commands `add_command`,
-- `command_list` and `command_playback`; Console the lines that are typed into `main`; Run puts the server under the event loop. The file system and the
-- answers of inotify are parts of the state.
--
-- Client (client/bse_client.h, client/bse_client.cpp): State holds the account, the sockets and the
-- journal file, with the functions that log in and off; Config `get_config` and the clients that `main`
-- makes; Process `process_data`; Login, Journal and
-- Reply what becomes of a log-in, of the feed, and of a reply that is too short; Stream the read loop with
-- this `process_data`; Handshake is a client that
-- connects to the server; Main is `main`, with the pool that the clients run in.
--
-- Tests: runs on concrete inputs.
--
-- Loops. The loops of `handle_read` and `handle_write` run on fuel; each round takes a byte off the
-- stream or the queue, or ends the loop, so one round more than there are bytes is enough. The loop of
-- `send_data_all` and that of `process_data` are given that much by their definitions. The loops of
-- `send_jnl_file` run on fuel too; the rate control's has no bound for a client that is gone.
-- The loops over the arrays of a configuration run on fuel: 65536 rounds are enough where they end.
--
-- Numbers. `size_t` differences wrap (`sub_size`); the words of messages are bit patterns of their
-- width. That `read` returns an `int` is not modelled: a buffer has less than 2^31 bytes in practice.
--
-- Concurrency. The pool's threads interleave action by action. For the handlers that it runs, a
-- handler is one step, and a run is a sequence of steps. `handle_read` holds the
-- context's `r_mutex`, `handle_write` its `w_mutex`, and the calls that change the server's maps
-- `ContextMutex_`, for as long as they run; interleavings inside a handler are not modelled.
--
-- `Run` hands tasks to the pool; its model runs each task, as one step, when it is handed over.
--
-- Undefined behaviour. `undefined` is set by a read past the end of a connection's buffer, of a message,
-- of a record from the pipe of commands or of what `send_data` is given, and by the erase of a client that
-- is not in a set. `isspace` of bytes of 0x80 and above is taken as glibc defines it.
--
-- Not modelled: printing; a failing `malloc` for a context's buffer; the descriptors of
-- connections among those that Release counts (Connections says that none has a context at the
-- end); the names of fifos; the thread of the server's `main` that runs `Run`; how far each client
-- is in `Run` while the pool of the client's `main` interleaves them; jsoncpp, which is another
-- project's library; the test programs.
pub mod Base
pub mod Config
pub mod Venues
pub mod Net
pub mod Pool
pub mod Server
pub mod Client
pub mod Tests
