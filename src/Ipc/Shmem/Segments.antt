-- ===== src/Ipc/Shmem/Segments.antt =====
-- src/ipc/shmem.c: making, opening and removing the memory and the semaphores, by their keys.
use so.Base.{List, Option, [], none, some, ℕ, ◌%◌, ◌+◌, ◌^◌, if◌then◌else◌, ◌==◌}
use so.Actions.{Message}
use so.Bytes.{◌>>=◌}
use so.Ipc.Clients.{update}
use so.Ipc.Shmem.Protocol.{Shared}

-- CLIENT_CAN_WRITE, SERVER_CAN_READ and CLIENT_CAN_READ.
pub record Counts : Type 0 where
  pub client_can_write : ℕ
  pub server_can_read : ℕ
  pub client_can_read : ℕ

-- What the system keeps: the memory of a key; the set of semaphores of a key; the values of the set with
-- an identifier. A new set gets the identifier `fresh`.
pub record Objects : Type 0 where
  pub segment : ℕ → Option Message
  pub set : ℕ → Option ℕ
  pub counts : ℕ → Option Counts
  pub fresh : ℕ

-- The structure `ipc_t`: the key of its memory and the identifier of its semaphores.
pub record Handle : Type 0 where
  pub id : ℕ
  pub server_id : ℕ
  pub memory : ℕ
  pub semaphores : ℕ

abbrev pub zero_counts : Counts
zero_counts = record { client_can_write = 0; server_can_read = 0; client_can_read = 0 }

-- New memory holds zeros.
abbrev pub zero_message : Message
zero_message = record { sender = 0; content_length = 0; content = [] }

-- What the process that has this handle shares with others; none when its semaphores are removed.
unfoldable pub attached : Handle → Objects → Option Shared
attached ipc o = do
  v ← o.counts ipc.semaphores
  m ← o.segment ipc.memory
  some (record {
    client_can_write = v.client_can_write;
    server_can_read = v.server_can_read;
    client_can_read = v.client_can_read;
    memory = m;
  })

-- semget(sysv_key, 3, IPC_CREAT): a set that exists keeps its values, and a new one has 0.
abbrev pub set_of : ℕ → Objects → Option ℕ → ℕ × Objects
set_of key o none = (
  o.fresh,
  record o {
    set = update o.set key (some o.fresh);
    counts = update o.counts o.fresh (some zero_counts);
    fresh = o.fresh + 1;
  },
)
set_of key o (some semarray) = (semarray, o)

unfoldable pub get_set : ℕ → Objects → ℕ × Objects
get_set key o = set_of key o (o.set key)

-- shmget(sysv_key, SHARED_MEMORY_SIZE, IPC_CREAT) and shmat.
abbrev pub segment_of : ℕ → Objects → Option Message → Objects
segment_of key o none = record o { segment = update o.segment key (some zero_message) }
segment_of key o (some m) = o

unfoldable pub get_segment : ℕ → Objects → Objects
get_segment key o = segment_of key o (o.segment key)

-- The set of a key once the set `semarray` is removed.
abbrev pub without : ℕ → Option ℕ → Option ℕ
without semarray none = none
without semarray (some s) = if s == semarray then none else some s

-- semctl(semarray, 0, IPC_RMID).
unfoldable pub semdestroy : ℕ → Objects → Objects
semdestroy semarray o = record o {
  set = λ key. without semarray (o.set key);
  counts = update o.counts semarray none;
}

-- shmdt only detaches the memory from this process.
unfoldable pub shfree : ℕ → Objects → Objects
shfree memory o = o

-- `ftok` gives none for a path without a file, and then `check` ends the process; otherwise the key of the
-- path and each number.
module _ (ftok : List ℕ → Option (ℕ → ℕ)) where
  unfoldable pub shalloc : List ℕ → Objects → Option (ℕ × Objects)
  shalloc address o = do sysv_key ← ftok address; some (sysv_key 1, get_segment (sysv_key 1) o)

  unfoldable pub semcreate_at : List ℕ → Objects → Option (ℕ × Objects)
  semcreate_at address o = do sysv_key ← ftok address; some (get_set (sysv_key 2) o)

  -- The memory, the semaphores and the objects.
  unfoldable pub ipc_open : List ℕ → Objects → Option (ℕ × ℕ × Objects)
  ipc_open address o = do
    memory ← shalloc address o
    semaphores ← semcreate_at address memory.1
    some (memory.0, semaphores.0, semaphores.1)

  unfoldable pub ipc_listen : ℕ → List ℕ → Objects → Option (Handle × Objects)
  ipc_listen pid address o = do
    opened ← ipc_open address o
    some (
      record {
        id = pid % 2 ^ 16;
        server_id = pid % 2 ^ 16;
        memory = opened.0;
        semaphores = opened.1;
      },
      opened.2,
    )

  unfoldable pub ipc_connect : ℕ → List ℕ → Objects → Option (Handle × Objects)
  ipc_connect pid address o = do
    opened ← ipc_open address o
    some (
      record { id = pid % 2 ^ 16; server_id = 0; memory = opened.0; semaphores = opened.1 },
      opened.2,
    )

unfoldable pub ipc_close : Handle → Objects → Objects
ipc_close ipc o =
    if ipc.id == ipc.server_id then shfree ipc.memory (semdestroy ipc.semaphores o) else o
