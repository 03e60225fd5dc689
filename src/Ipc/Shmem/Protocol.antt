-- ===== src/Ipc/Shmem/Protocol.antt =====
-- `emit`, `await`, `ipc_send` and `ipc_recv` of src/ipc/shmem.c, a step for each operation on a
-- semaphore and each copy of the memory.
use so.Base.{Option, none, some, ℕ, ◌+◌, ◌-◌, ◌≡◌, if◌then◌else◌, ◌==◌}
use so.Actions.{Message}
use so.Ipc.Clients.{update}

-- The semaphores CLIENT_CAN_WRITE, SERVER_CAN_READ and CLIENT_CAN_READ, and the message in memory.
pub record Shared : Type 0 where
  pub client_can_write : ℕ
  pub server_can_read : ℕ
  pub client_can_read : ℕ
  pub memory : Message

-- semget: the semaphores are new, and 0.
unfoldable pub semcreate : Message → Shared
semcreate memory = record {
  client_can_write = 0;
  server_can_read = 0;
  client_can_read = 0;
  memory = memory;
}

-- semop with `sem_op` 1, on the semaphore with this index.
unfoldable pub emit : ℕ → Shared → Shared
emit semindex s =
    if semindex == 0
    then record s { client_can_write = s.client_can_write + 1 }
    else if semindex == 1
    then record s { server_can_read = s.server_can_read + 1 }
    else if semindex == 2
    then record s { client_can_read = s.client_can_read + 1 }
    else s

-- A semaphore at 0 makes the process wait (none).
unfoldable pub lower : ℕ → Shared → Option Shared
lower n s = if n == 0 then none else some s

-- semop with `sem_op` -1.
unfoldable pub await : ℕ → Shared → Option Shared
unfolding lower
await semindex s =
    if semindex == 0
    then lower s.client_can_write (record s { client_can_write = s.client_can_write - 1 })
    else if semindex == 1
    then lower s.server_can_read (record s { server_can_read = s.server_can_read - 1 })
    else if semindex == 2
    then lower s.client_can_read (record s { client_can_read = s.client_can_read - 1 })
    else none

-- Where the server stands.
pub data ServerPc : Type 0 where
  receiving : ServerPc  -- before emit(CLIENT_CAN_WRITE) in `ipc_recv`
  listening : ServerPc  -- before await(SERVER_CAN_READ)
  reading : ServerPc  -- before it copies the request
  handling : Message → ServerPc  -- between `ipc_recv` and the next call
  emitting : ServerPc  -- the response is in memory; before emit(CLIENT_CAN_READ)

-- Where a client stands.
pub data ClientPc : Type 0 where
  idle : ClientPc
  asking : Message → ClientPc  -- before await(CLIENT_CAN_WRITE) in `ipc_send`
  writing : Message → ClientPc
  sending : Message → ClientPc  -- before emit(SERVER_CAN_READ)
  waiting : Message → ClientPc  -- before await(CLIENT_CAN_READ) in `ipc_recv`
  copying : Message → ClientPc
  done : Message → Message → ClientPc  -- with the request and the message it got

pub data ClientMove (s : Shared) : ClientPc → Shared → ClientPc → Type 0 where
  begin : (req : Message) → ClientMove s idle s (asking req)
  await_write :
      {req : Message} {s' : Shared}
      → await 0 s ≡ some s'
      → ClientMove s (asking req) s' (writing req)
  write : {req : Message} → ClientMove s (writing req) (record s { memory = req }) (sending req)
  emit_request : {req : Message} → ClientMove s (sending req) (emit 1 s) (waiting req)
  await_read :
      {req : Message} {s' : Shared}
      → await 2 s ≡ some s'
      → ClientMove s (waiting req) s' (copying req)
  copy : {req : Message} → ClientMove s (copying req) s (done req s.memory)
  close : {req got : Message} → ClientMove s (done req got) s idle

-- `reply` is the server's response to a request (none for a message that is no request).
pub data ServerMove (reply : Message → Option Message) (s : Shared)
    : ServerPc → Shared → ServerPc → Type 0 where
  emit_write : ServerMove reply s receiving (emit 0 s) listening
  await_request : {s' : Shared} → await 1 s ≡ some s' → ServerMove reply s listening s' reading
  copy_request : ServerMove reply s reading s (handling s.memory)
  ignore : {m : Message} → reply m ≡ none → ServerMove reply s (handling m) s receiving
  write_reply :
      {m r : Message}
      → reply m ≡ some r
      → ServerMove reply s (handling m) (record s { memory = r }) emitting
  emit_answer : ServerMove reply s emitting (emit 2 s) receiving

pub record System : Type 0 where
  pub shared : Shared
  pub server : ServerPc
  pub client : ℕ → ClientPc

-- The processes interleave in any order.
pub data Step (reply : Message → Option Message) (t : System) : System → Type 0 where
  serves :
      {s : Shared} {p : ServerPc}
      → ServerMove reply t.shared t.server s p
      → Step reply t (record t { shared = s; server = p })
  moves :
      (i : ℕ) {s : Shared} {p : ClientPc}
      → ClientMove t.shared (t.client i) s p
      → Step reply t (record t { shared = s; client = update t.client i p })

unfoldable pub start : Message → System
start memory = record { shared = semcreate memory; server = receiving; client = λ i. idle }

pub data Reach (reply : Message → Option Message) (memory : Message) : System → Type 0 where
  here : Reach reply memory (start memory)
  next : {t u : System} → Reach reply memory t → Step reply t u → Reach reply memory u
