-- ===== src/Lib.antt =====
-- A box office for cinema tickets: a server that owns a database of movies, a client that lists movies,
-- buys tickets and looks tickets up, and the transports between them, of which one is compiled in.
--
-- How the parts interact. bin/reset turns a text of fixtures into the database file (Fixtures). The server
-- maps this file (Database) and answers one message at a time (Server). A client makes one request from
-- its command line, and prints the response (Client). Both sides read and write the structures of
-- inc/actions.h (Actions), which a transport carries as messages with the sender's address (Ipc).
--
-- Files:
--   Base      names of the libraries; lists and integers over the native numbers; Boolean tests.
--   Libc      what the sources use of <string.h>, <stdlib.h> and getline: strncpy, strtok, strcmp, atoi, and
--             of printf's %d, dirname and basename.
--   Bytes     little-endian integers in memory, and their round trips.
--   Database  src/database.c, inc/database.h. Types and Layout are the structures and their bytes,
--             Tickets has db_lock to db_get_ticket. Valid is the invariant, BoxOffice what the database
--             promises: for each movie the number of tickets sold. Sales, Buying and Owner compare the two.
--   Fixtures  src/fixtures.c: Reading has fixtures_read1 and fixtures_read.
--   Actions   src/actions.c, inc/actions.h: Wire has the structures, Requests, Responses and Handlers
--             the functions req_, res_ and han_.
--   Server    src/exe/server.c: Loop has the body of main; Rounds says what one round can do.
--   Client    src/exe/client.c: Main has main and handle_response; Session puts a request, the round of
--             the server and the response together.
--   Ipc       Addresses: ipc_listen and ipc_connect of src/ipc/filesig.c and src/ipc/fifo.c.
--             Filesig: src/ipc/filesig.c, an inbox file as a list of bytes; Wake and Settle have the wait for the
--             signal.
--             Fifo: src/ipc/fifo.c, a pipe with any number of writers and its reader; Locks has the pipes and
--             locks that exist, Delivery the owners that come and go.
--             Mqueues: src/ipc/mqueues.c, the items of one message queue (Posting: what msgsnd takes); Queues has
--             the queues that exist.
--             Shmem: src/ipc/shmem.c, one message in memory and three semaphores;
--             Segments has the memory and the sets of semaphores that exist, and Relisten a server after another.
--             Shm: src/ipc/shmposix.c and src/ipc/shmsystemv.c, the same with four semaphores.
--             Posix and Systemv have the named objects of each, and Restart what a new server finds.
--             Sockets: src/ipc/sockets.c, the bytes of the connections by their descriptors; Ports has
--             ipc_listen and ipc_connect, with the calls into the system as parameters.
--             SelectServer: src/ipc/socket/socketsrv.c, the array of client descriptors; Datagrams has
--             ipc_send and ipc_recv of src/ipc/socket/socket.c.
--             Pipes: src/ipc/Pipes, an earlier server (Service) and client (Menu), which are not built.
--             Transport: what inc/ipc.h promises, a record of ipc_send and ipc_recv and their laws: each
--             process has a mailbox, and the order of a mailbox is left open. Filesig, Fifo and Mqueues
--             fill it (filesig, fifo and mqueues in their module Mailboxes or Process).
--   System    The programs over any transport. Serving: the loop of src/exe/server.c with its calls of
--             ipc_recv and ipc_send. Session and Programs: src/exe/client.c with one round of the server.
--             Interleaved: the server and any number of clients, whose calls interleave; where ipc_recv
--             sleeps until a signal, as in src/ipc/filesig.c, the look at the inbox, pause and the signal are
--             steps. Mail, OwnReply, Pending and Progress are about it. Script and ScriptRun:
--             src/exe/test.c. Oversize: the list of movies in a message queue.
--
-- State. A mapped file is the list of its movies; a pointer to a movie is its index and NULL is none. Each
-- function that changes the database takes it and returns the new one. What C leaves undefined (a read
-- or write outside an array, a copy from NULL) is none. Padding that the sources do not set is a
-- parameter, so the theorems hold for any bytes there. Arithmetic is on the native numbers: int32_t and
-- uint16_t values are cut to their width where the sources convert, and IsValid keeps the rest in range.
-- Processes that share a semaphore or a pipe are step relations: a step is one operation on a semaphore,
-- one copy or one write, and steps interleave in any order. A semaphore at 0 makes a process wait: the step
-- cannot be taken. msgsnd, msgrcv, semop, sem_wait, fcntl, fseek, ftruncate and write are taken as
-- documented, without failures of the system (a full disk, a full queue, an interrupted call). MSGMAX, above
-- which msgsnd fails, is its default of 8192.
--
-- Loops. All loops are structural: over the movies, the tickets of a movie, the lines of a text, the bytes
-- of a string or the messages that come in. No fuel is used. The server's loop runs over a list of
-- messages, as only a signal ends it.
--
-- Not modelled: db_close, which undoes db_open; the handlers of signals that only end the process; what
-- ftok, inet_pton and the calls that make sockets compute, which are parameters; printf's layout beyond the
-- texts printed; ipc_close of src/ipc/filesig.c, which removes its own inbox; what src/ipc/socket/socketsrv.c sends
-- to its clients; src/ipc/socket/socketcli.c, which calls the actions with other arguments than they have.
pub mod Base
pub mod Libc
pub mod Bytes
pub mod Database
pub mod Fixtures
pub mod Actions
pub mod Server
pub mod Client
pub mod Ipc
pub mod System
