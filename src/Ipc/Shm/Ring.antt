-- ===== src/Ipc/Shm/Ring.antt =====
-- `dec`, `inc`, `ipc_send` and `ipc_recv` of src/ipc/shmposix.c and src/ipc/shmsystemv.c, a step for each
-- operation on a semaphore and each copy of the memory.
use so.Base.{Option, none, some, ℕ, ◌+◌, ◌-◌, ◌≡◌, if◌then◌else◌, ◌==◌}
use so.Actions.{Message}
use so.Ipc.Clients.{update}

-- The semaphores CLIENT_WRITE, SERVER_READ, CLIENT_READ and SERVER_WRITE, and the message in memory.
pub record Shared : Type 0 where
  pub client_write : ℕ
  pub server_read : ℕ
  pub client_read : ℕ
  pub server_write : ℕ
  pub memory : Message

-- `init_mutex` of shmsystemv.c: semctl(SETVAL) on each semaphore.
unfoldable pub init_systemv : Message → Shared
init_systemv memory = record {
  client_write = 1;
  server_read = 0;
  client_read = 0;
  server_write = 0;
  memory = memory;
}

-- `init_mutex` of shmposix.c makes the four semaphores with the value 0.
unfoldable pub init_posix : Message → Shared
init_posix memory = record {
  client_write = 0;
  server_read = 0;
  client_read = 0;
  server_write = 0;
  memory = memory;
}

-- `inc` and `dec`, the semaphore chosen by its number. A process that would make it negative waits (none).
unfoldable pub inc : ℕ → Shared → Shared
inc numsem s =
    if numsem == 1
    then record s { client_write = s.client_write + 1 }
    else if numsem == 2
    then record s { server_read = s.server_read + 1 }
    else if numsem == 3
    then record s { client_read = s.client_read + 1 }
    else if numsem == 4
    then record s { server_write = s.server_write + 1 }
    else s

unfoldable pub down : ℕ → Shared → Option Shared
down n s = if n == 0 then none else some s

unfoldable pub dec : ℕ → Shared → Option Shared
unfolding down
dec numsem s =
    if numsem == 1
    then down s.client_write (record s { client_write = s.client_write - 1 })
    else if numsem == 2
    then down s.server_read (record s { server_read = s.server_read - 1 })
    else if numsem == 3
    then down s.client_read (record s { client_read = s.client_read - 1 })
    else if numsem == 4
    then down s.server_write (record s { server_write = s.server_write - 1 })
    else some s

-- `ipc_listen` of shmposix.c, after `init_mutex`.
unfoldable pub listen_posix : Message → Shared
listen_posix memory = inc 1 (init_posix memory)

-- Where the server stands.
pub data ServerPc : Type 0 where
  listening : ServerPc  -- before dec(SERVER_READ) in `ipc_recv`
  reading : ServerPc  -- before it copies the request
  acking : Message → ServerPc  -- before inc(SERVER_WRITE), with the copy
  handling : Message → ServerPc  -- between `ipc_recv` and `ipc_send`
  replying : Message → ServerPc  -- after dec(SERVER_WRITE), with the response
  emitting : Message → ServerPc  -- the response is in memory; before inc(CLIENT_READ)

-- Where a client stands.
pub data ClientPc : Type 0 where
  idle : ClientPc
  asking : Message → ClientPc  -- before dec(CLIENT_WRITE) in `ipc_send`
  writing : Message → ClientPc
  sending : Message → ClientPc  -- before inc(SERVER_READ)
  waiting : Message → ClientPc  -- before dec(CLIENT_READ) in `ipc_recv`
  copying : Message → ClientPc
  leaving : Message → Message → ClientPc  -- before inc(CLIENT_WRITE), with the copy
  done : Message → Message → ClientPc  -- with the request and the response it got

-- A step of a client.
pub data ClientMove (s : Shared) : ClientPc → Shared → ClientPc → Type 0 where
  begin : (req : Message) → ClientMove s idle s (asking req)
  dec_write :
      {req : Message} {s' : Shared} → dec 1 s ≡ some s' → ClientMove s (asking req) s' (writing req)
  write : {req : Message} → ClientMove s (writing req) (record s { memory = req }) (sending req)
  inc_request : {req : Message} → ClientMove s (sending req) (inc 2 s) (waiting req)
  dec_read :
      {req : Message} {s' : Shared}
      → dec 3 s ≡ some s'
      → ClientMove s (waiting req) s' (copying req)
  copy : {req : Message} → ClientMove s (copying req) s (leaving req s.memory)
  inc_write : {req got : Message} → ClientMove s (leaving req got) (inc 1 s) (done req got)
  close : {req got : Message} → ClientMove s (done req got) s idle

-- A step of the server, whose response to a request is `reply` (none for a message that is no request).
pub data ServerMove (reply : Message → Option Message) (s : Shared)
    : ServerPc → Shared → ServerPc → Type 0 where
  dec_request : {s' : Shared} → dec 2 s ≡ some s' → ServerMove reply s listening s' reading
  copy_request : ServerMove reply s reading s (acking s.memory)
  inc_reply : {m : Message} → ServerMove reply s (acking m) (inc 4 s) (handling m)
  ignore : {m : Message} → reply m ≡ none → ServerMove reply s (handling m) s listening
  dec_reply :
      {m r : Message} {s' : Shared}
      → reply m ≡ some r
      → dec 4 s ≡ some s'
      → ServerMove reply s (handling m) s' (replying r)
  write_reply :
      {r : Message} → ServerMove reply s (replying r) (record s { memory = r }) (emitting r)
  inc_answer : {r : Message} → ServerMove reply s (emitting r) (inc 3 s) listening

pub record System : Type 0 where
  pub shared : Shared
  pub server : ServerPc
  pub client : ℕ → ClientPc

-- The processes interleave in any order.
pub data Step (reply : Message → Option Message) (t : System) : System → Type 0 where
  serves :
      {s : Shared} {p : ServerPc}
      → ServerMove reply t.shared t.server s p
      → Step reply t (record t { shared = s; server = p })
  moves :
      (i : ℕ) {s : Shared} {p : ClientPc}
      → ClientMove t.shared (t.client i) s p
      → Step reply t (record t { shared = s; client = update t.client i p })

-- After `ipc_listen`, with any bytes in the memory.
unfoldable pub start : Message → System
start memory = record { shared = init_systemv memory; server = listening; client = λ i. idle }

pub data Reach (reply : Message → Option Message) (memory : Message) : System → Type 0 where
  here : Reach reply memory (start memory)
  next : {t u : System} → Reach reply memory t → Step reply t u → Reach reply memory u
