-- ===== src/Ipc/Fifo/Locks.antt =====
-- src/ipc/fifo.c: which pipes and locks exist in the directory of the inboxes.
use so.Base.{Bool, Option, false, none, some, true, ℕ, ◌-◌, if◌then◌else◌, ◌==◌}
use so.Ipc.Clients.{update}

-- The process that owns an inbox stands for the path of its pipe, and for that of the lock file beside it,
-- from which `ftok` makes the key of the lock: the pipes that exist, and the values of the locks that do.
pub record Directory : Type 0 where
  pub pipe : ℕ → Bool
  pub lock : ℕ → Option ℕ

abbrev pub opened_lock : Option ℕ → ℕ
opened_lock none = 0
opened_lock (some v) = v

-- semget with IPC_CREAT: a lock that exists keeps its value, and a new one has 0.
unfoldable pub getlock : ℕ → Directory → Directory
getlock pid d = record d { lock = update d.lock pid (some (opened_lock (d.lock pid))) }

-- semctl(IPC_RMID).
unfoldable pub rmlock : ℕ → Directory → Directory
rmlock pid d = record d { lock = update d.lock pid none }

-- `mkfifo` fails on a pipe that exists, and then `check` ends the process (none).
unfoldable pub ipc_create : ℕ → Directory → Option Directory
ipc_create pid d =
    if d.pipe pid
    then none
    else let locked = getlock pid (record d { pipe = update d.pipe pid true }) in
      some (record locked { lock = update locked.lock pid (some 1) })

unfoldable pub ipc_close : ℕ → Directory → Directory
ipc_close pid d =
    let removed = rmlock pid d in record removed { pipe = update removed.pipe pid false }

-- How a call of `ipc_send` ends, if it does.
pub data Outcome : Type 0 where
  completes : Outcome
  waits : Outcome  -- in acquire(lock), for as long as the lock is 0
  fails : Outcome  -- open(path) fails, and `check` ends the process, which keeps the lock

-- The outcome of `ipc_send`, and the directory then.
unfoldable pub ipc_send : ℕ → Directory → Outcome × Directory
ipc_send recipient d =
    let locked = getlock recipient d in
    let v = opened_lock (d.lock recipient) in
    if v == 0
    then (waits, locked)
    else let acquired = record locked { lock = update locked.lock recipient (some (v - 1)) } in
      if d.pipe recipient
      then (completes, record acquired { lock = update acquired.lock recipient (some v) })
      else (fails, acquired)
