-- ===== src/Lib.antt =====
-- Course projects in C++: a shell (p4), a proxy (p3), and two key-value servers, Emrakul DB 1.0
-- (p5/master, p5/worker) and Emrakul DB 2.0 (p6). This library models the logic of
-- server 2.0, of the table, the commands and the messages of server 1.0, of the shell, of the proxy's
-- connections and routing table, and of the sorts (p9) and the sum (p10).
--
-- Server 2.0. A master accepts connections and hands them to four workers; the workers share one block
-- of memory, an open-addressing hash table of 8 blocks of 128 records of 1024 bytes, each block under
-- a semaphore of its own; one more process collects records whose time is over.
-- - Base: Boolean tests, lists and texts over the native numbers, `isspace` and `atoi`.
-- - Memory: byte memory with `strcpy`, `strcmp`, `memcpy` of an `int` (little-endian), and the scan of
--   a C string; Memory/Laws has what is read back after a write and what a write leaves alone. A scan
--   that would leave the mapped memory is cut at its end; in a well-formed table none comes near it.
-- - Locks: the lock traffic of an operation as a list of events, and the discipline of one process.
-- - Probe: the linear search with its change of locks from block to block (`find_filled`, `find_free`);
--   Probe/Search ties it to the first passing record in probe order, Probe/Discipline to the locks.
-- - Murmur: the hash function of both servers' tables (`PosixHashTable::hash`, `HashTableBase::hash`).
-- - Records: the layout of a record and the abstract map, `lookup`, that a memory stands for; what
--   storing a pair (Records/Store), marking records as deleted (Records/Bury) and zeroing (Records/Clear) do
--   to it.
-- - PosixTable: p6/src/PosixHashTable.{h,cpp}, one definition per method; PosixTable/Layout is about
--   the bytes that `set` writes, PosixTable/Meaning and PosixTable/Deletion about the abstract map,
--   PosixTable/Collection about `collect_garbage`, PosixTable/Locking about the locks, PosixTable/Slots
--   about sequences of operations, PosixTable/Race about two calls of `set` at once,
--   PosixTable/Revival about three.
-- - BaseTable: p5/master/src/HashTableBase.{h,cpp} with the locks of p5/worker/src/SysVHashTable.cpp,
--   for any number and size of blocks, in the arithmetic of `int`; its children follow those of PosixTable.
-- - Command: p6/src/UserCommand.{h,cpp}: the wait for a line, its tokens, and the parameter block.
-- - Worker: p6/src/WorkerProcess.cpp and p6/src/ClientConnection.cpp: connections, queries, responses.
-- - BaseCommand: p5/master/src/UserCommand.{h,cpp}, where it differs from Command.
-- - Cluster: p5/master/src/MasterProcess.cpp and p5/worker/src/WorkerProcess.cpp: the message that carries
--   a command to a worker and its result back, on top of BaseTable; the System V queue is an argument.
--   Cluster/Master has the master's connections (p5/master/src/ClientConnection.cpp) and shutdown,
--   Cluster/Queue the steps of master and workers around the queue, Cluster/Exchanges, with
--   Cluster/Answers about one answer, what holds of any
--   order of them.
-- - Shell: p4/src: tokens (Shell/Tokenizer), sequences (CmdInterperter.cpp), commands (CommandItem.cpp) and
--   runs (LisonShell.cpp); Shell/Tokens, Shell/Sequence (the grouping of the tokens), Shell/Making and
--   Shell/Building (with the construction of the commands and the pipes) and Shell/Running have what is proved of each.
--   Shell/Descriptors has the pipes and redirections over a record of what the system's descriptor tables
--   do, Shell/Redirection is about one command, Shell/Pipeline about a line of them; Shell/Processes has
--   the processes on record and the signal handlers.
-- - Proxy: p3/src/Connection.{h,cpp}: the callbacks of a connection that passes bytes on between a client
--   and a server; Proxy/Forwarding compares its runs with what was received.
-- - ProxyListener: p3/src/ProxyListener.{h,cpp} with `establish` of p3/src/Connection.cpp: the connections
--   of one port, from Selector's choice of a server to their end in Proxy; ProxyListener/Listing is
--   about the list of connections, ProxyListener/Isolation compares a connection among others with one that is alone.
-- - Selector: p3/src/Selector.{h,cpp}: the routing table that is read from the configuration, and the
--   choice of a server; Selector/Lines is about one line, Selector/Table about the whole.
-- - Exponent: p10/src/p10.cpp: the split of a sum over processes, with doubles as an argument;
--   Exponent/Portions is about the terms of each process, Exponent/Reduction about their sum.
-- - Qsort: p9/src/qsort.c: the partition loop and the two recursions; Qsort/Shuffle is about exchanges in
--   a range, Qsort/Partition about the loop, Qsort/Sorted about the serial sort, Qsort/Locality about
--   what a call reads and writes, Qsort/Tasks about the sort with tasks one behind the other.
--   Qsort/Program has the sorts access by access, Qsort/Turns what holds of tasks on separate ranges, and
--   Qsort/Interleaving compares the two.
-- - Semaphores: the semaphores that the blocks' locks stand for, under any interleaving of the events of
--   several processes (SysVHashTable::lock, sem_V, sem_P; PosixHashTable::lock, unlock); the children
--   have what is proved of a run (Invariant, Progress), and its instances for the workers of server 1.0
--   (Workers) and the processes of server 2.0 (Processes).
-- - Server: p6 as a whole over one shared memory: p6/src/ServerProcess.cpp's accept callback, the workers
--   of Worker, p6/src/CleaningCompany.cpp, and the zeroing of the table in p6/src/SynchronizedProcess.cpp;
--   one callback or one round of the collector is one event, and a worker whose event loop was broken
--   (`event_base_loopbreak`) runs no callback any more. Server/Soundness has what every run keeps,
--   Server/Clients what one client sees of another's commands.
-- - SocketTricks: p6/src/SocketTricks.cpp: how the master passes descriptors to a worker, over a record of
--   what the socket pair does; SocketTricks/Passing is about a series of them.
-- - Ipc: the shared objects of both servers and what an earlier run leaves in them: Ipc/SysV is `init_ipc`
--   and `release_ipc` of p5/master/src/MasterProcess.cpp and `init` of p5/worker/src/WorkerProcess.cpp, Ipc/Posix
--   is p6/src/SynchronizedProcess.cpp; Ipc/Leftovers and Ipc/Names are about them. One object is a record
--   of what the system's calls do to it.
-- - Forks: `main` of p6/src/p6.cpp, with the descriptors of the socket pairs in each process, over a record of
--   what `close` and `socketpair` do, and the results of `fork` as an argument; Forks/Channels, with Forks/Pairs
--   about one pair, is about who holds what.
-- - Startup: the `start` methods of p6/src/ServerProcess.cpp, p6/src/WorkerProcess.cpp,
--   p5/master/src/MasterProcess.cpp and p3/src/ProxyListener.cpp, as lists of what they create and free;
--   which calls of libevent succeed is an argument. Startup/Release is about what is left.
-- - Worker/Signals: what p6/src/WorkerProcess.cpp and p5/master/src/MasterProcess.cpp do with their
--   connections on a signal; Cluster/Signals is about both.
-- - Examples: runs, and each result at a concrete input.
--
-- Conventions. An `int` is the bit pattern of its 32 bits; a status code 0 is `done` or a value, -1 is
-- `failed` or `none`. A method returns the new memory and its events. The modules of the tables take a
-- method as atomic, but for PosixTable/Race and PosixTable/Revival; Semaphores interleaves the lock
-- traffic of the calls of several processes, but not what they write. The master of server 1.0 waits for each answer, so that its workers in fact never
-- overlap; Semaphores does not use it. Loops run over the number of
-- rounds that the code's bounds give (the table's size, a text's length, 1000 tries for a line), so no
-- fuel is invented. `time(NULL)` is an argument, a function of the round in the collection. The lines
-- that libevent's `evbuffer_readln` gives and the outcome of `bufferevent_socket_new` are arguments.
--
-- The shell's processes are the system's: the process and status that `wait` gives, and whether it returns,
-- are arguments, and descriptor tables
-- and the socket pair of server 2.0 are records of operations with what POSIX says of them.
--
-- Not modelled: the calls that make sockets, `ipc_close` of server 2.0, the wait for the children of
-- server 2.0 on a signal, the loop of the shell's `main` (p4/src/p4.cpp), the start of the proxy's
-- listeners one after the other (p3/src/Server.cpp), the logging to the console, the memory management
-- of commands, and the benchmark p9/src/p9.c; these are system calls, input and output around what is
-- modelled.
pub mod Base
pub mod Memory
pub mod Locks
pub mod Probe
pub mod Murmur
pub mod Records
pub mod PosixTable
pub mod Command
pub mod Worker
pub mod Shell
pub mod BaseTable
pub mod BaseCommand
pub mod Cluster
pub mod Proxy
pub mod ProxyListener
pub mod Selector
pub mod Semaphores
pub mod SocketTricks
pub mod Server
pub mod Ipc
pub mod Forks
pub mod Startup
pub mod Qsort
pub mod Exponent
pub mod Examples
