-- ===== src/Ipc/Shm/Posix.antt =====
-- src/ipc/shmposix.c: making, opening and removing the semaphores and the memory, by their names. What a
-- process has open it keeps after the name is gone, so this is what the next process finds.
-- The named objects that exist: the values of the semaphores, and the size of the memory.
use so.Base.{List, Option, none, some, ℕ, ◌%◌, ◌+◌, ◌^◌, if◌then◌else◌, ◌==◌}
use so.Base.Int.{to_u16}
use so.Libc.{basename, atoi}

pub record Objects : Type 0 where
  pub sem1 : Option ℕ
  pub sem2 : Option ℕ
  pub sem3 : Option ℕ
  pub sem4 : Option ℕ
  pub memory : Option ℕ

-- `ipc_t` and the statics `id` and `server_id`, which are set from it.
pub record Handle : Type 0 where
  pub id : ℕ
  pub server_id : ℕ

-- sem_open(name, O_RDWR | O_CREAT, 0666, 0): a semaphore that exists keeps its value.
unfoldable pub sem_open : Option ℕ → Option ℕ
sem_open none = some 0
sem_open (some value) = some value

unfoldable pub init_mutex : Objects → Objects
init_mutex o = record o {
  sem1 = sem_open o.sem1;
  sem2 = sem_open o.sem2;
  sem3 = sem_open o.sem3;
  sem4 = sem_open o.sem4;
}

-- sem_unlink of all four; the exit status is not used.
unfoldable pub close_mutex : Objects → Objects
close_mutex o = record o { sem1 = none; sem2 = none; sem3 = none; sem4 = none }

-- sem_post on a semaphore that is open.
abbrev pub post : Option ℕ → Option ℕ
post none = none
post (some value) = some (value + 1)

-- `inc` on the named semaphores.
unfoldable pub inc_named : ℕ → Objects → Objects
inc_named numsem o =
    if numsem == 1
    then record o { sem1 = post o.sem1 }
    else if numsem == 2
    then record o { sem2 = post o.sem2 }
    else if numsem == 3
    then record o { sem3 = post o.sem3 }
    else if numsem == 4
    then record o { sem4 = post o.sem4 }
    else o

-- shm_open with O_CREAT, and ftruncate to sizeof(message_t).
unfoldable pub get_memory : Objects → Objects
get_memory o = record o { memory = some 4 }

-- shm_unlink.
unfoldable pub free_memory : Objects → Objects
free_memory o = record o { memory = none }

-- By the process `pid`.
unfoldable pub ipc_listen : ℕ → Objects → Handle × Objects
ipc_listen pid o = (
  record { id = pid % 2 ^ 16; server_id = pid % 2 ^ 16 },
  inc_named 1 (init_mutex (get_memory o)),
)

unfoldable pub ipc_connect : ℕ → List ℕ → Objects → Handle × Objects
ipc_connect pid file o = (
  record { id = pid % 2 ^ 16; server_id = to_u16 (atoi (basename file)) },
  init_mutex (get_memory o),
)

unfoldable pub ipc_close : Handle → Objects → Objects
ipc_close ipc o = if ipc.id == ipc.server_id then free_memory (close_mutex o) else o

-- On SIGINT, after which the process exits.
unfoldable pub handle_signal : Handle → Objects → Objects
handle_signal ipc o = if ipc.id == ipc.server_id then free_memory (close_mutex o) else o
