-- ===== src/Ipc/Shm/Systemv.antt =====
-- src/ipc/shmsystemv.c: making, opening and removing the semaphores and the memory, by their key.
use so.Ipc.Shm.Posix.{Handle}  -- keep
use so.Base.{List, Option, none, some, ℕ, ◌%◌, ◌^◌, if◌then◌else◌, ◌==◌}
use so.Base.Int.{to_u16}
use so.Libc.{basename, atoi}

-- The four values of the semaphore set.
pub record Values : Type 0 where
  pub client_write : ℕ
  pub server_read : ℕ
  pub client_read : ℕ
  pub server_write : ℕ

-- What exists under the key 2014: the semaphores and the size of the memory.
pub record Objects : Type 0 where
  pub semaphores : Option Values
  pub segment : Option ℕ

abbrev pub all_zero : Values
all_zero = record { client_write = 0; server_read = 0; client_read = 0; server_write = 0 }

-- semget(2014, 4, IPC_CREAT | 0666): a set that exists keeps its values, and a new one has 0.
unfoldable pub open_mutex : Objects → Objects
open_mutex o = elim o.semaphores [ none ↦ record o { semaphores = some all_zero } | some v ↦ o ]

-- semctl(SETVAL) on each semaphore of the set.
unfoldable pub init_mutex : Objects → Objects
init_mutex o = elim o.semaphores [
  | none ↦ o
  | some v ↦ record o {
    semaphores =
        some (record { client_write = 1; server_read = 0; client_read = 0; server_write = 0 });
  }
]

-- semctl(IPC_RMID).
unfoldable pub close_mutex : Objects → Objects
close_mutex o = record o { semaphores = none }

-- shmget with IPC_CREAT: a segment that exists is kept.
unfoldable pub get_memory : Objects → Objects
get_memory o = elim o.segment [ none ↦ record o { segment = some 4 } | some size ↦ o ]

-- shmdt only detaches the segment from this process.
unfoldable pub free_memory : Objects → Objects
free_memory o = o

unfoldable pub ipc_listen : ℕ → Objects → Handle × Objects
ipc_listen pid o =
    (record { id = pid % 2 ^ 16; server_id = pid % 2 ^ 16 }, init_mutex (open_mutex (get_memory o)))

unfoldable pub ipc_connect : ℕ → List ℕ → Objects → Handle × Objects
ipc_connect pid file o = (
  record { id = pid % 2 ^ 16; server_id = to_u16 (atoi (basename file)) },
  open_mutex (get_memory o),
)

unfoldable pub ipc_close : Handle → Objects → Objects
ipc_close ipc o = if ipc.id == ipc.server_id then free_memory (close_mutex o) else o

-- On SIGINT, after which the process exits.
unfoldable pub handle_signal : Handle → Objects → Objects
handle_signal ipc o = if ipc.id == ipc.server_id then free_memory (close_mutex o) else o
