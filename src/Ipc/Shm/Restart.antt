-- ===== src/Ipc/Shm/Restart.antt =====
-- Servers and clients that come and go: what semaphores a server of src/ipc/shmposix.c or
-- src/ipc/shmsystemv.c finds.
use so.Ipc.Shm.Posix
use so.Ipc.Shm.Systemv
use so.Ipc.Shm.Systemv.{Values, all_zero}  -- keep
use so.Base.{
  List, Option, [], arith, inl, inr, none, refl, some, true, ℕ, ◌%◌, ◌+◌, ◌^◌, ◌∙◌, ◌∷◌, ◌≡◌, ◌≢◌,
  All, Option-cases, ne→==, ◌==◌,
}

-- What a client does to the objects, besides its calls of `ipc_send` and `ipc_recv`.
pub data ClientEvent : Type 0 where
  connects : ℕ → List ℕ → ClientEvent
  closes : Posix.Handle → ClientEvent
  interrupted : Posix.Handle → ClientEvent

unfoldable pub client_event : ClientEvent → Posix.Objects → Posix.Objects
client_event (connects pid file) o = (Posix.ipc_connect pid file o).1
client_event (closes ipc) o = Posix.ipc_close ipc o
client_event (interrupted ipc) o = Posix.handle_signal ipc o

unfoldable pub clients : List ClientEvent → Posix.Objects → Posix.Objects
clients [] o = o
clients (e ∷ es) o = clients es (client_event e o)

-- The handle of a client is not that of a server.
abbrev pub IsClient : ClientEvent → Type 0
IsClient (connects pid file) = Unit
IsClient (closes ipc) = ipc.id ≢ ipc.server_id
IsClient (interrupted ipc) = ipc.id ≢ ipc.server_id

-- A server from `ipc_listen` to `ipc_close`, with the clients before it listens and after.
pub record Life : Type 0 where
  pub before : List ClientEvent
  pub pid : ℕ
  pub after : List ClientEvent

unfoldable pub life : Life → Posix.Objects → Posix.Objects
life l o =
    let (ipc, listening_objects) = Posix.ipc_listen l.pid (clients l.before o) in
    Posix.ipc_close ipc (clients l.after listening_objects)

unfoldable pub history : List Life → Posix.Objects → Posix.Objects
history [] o = o
history (l ∷ ls) o = history ls (life l o)

-- The semaphores have these values.
pub record AreSet (o : Posix.Objects) (v : Values) : Type 0 where
  pub client_write : o.sem1 ≡ some v.client_write
  pub server_read : o.sem2 ≡ some v.server_read
  pub client_read : o.sem3 ≡ some v.client_read
  pub server_write : o.sem4 ≡ some v.server_write

-- Each semaphore does not exist or is 0.
pub record AreIdle (o : Posix.Objects) : Type 0 where
  pub absent_or_zero1 : Posix.sem_open o.sem1 ≡ some 0
  pub absent_or_zero2 : Posix.sem_open o.sem2 ≡ some 0
  pub absent_or_zero3 : Posix.sem_open o.sem3 ≡ some 0
  pub absent_or_zero4 : Posix.sem_open o.sem4 ≡ some 0

-- No object exists.
abbrev pub nothing : Posix.Objects
nothing = record { sem1 = none; sem2 = none; sem3 = none; sem4 = none; memory = none }

-- One client may write.
abbrev pub one_writer : Values
one_writer = record { client_write = 1; server_read = 0; client_read = 0; server_write = 0 }

sem_open-twice : (s : Option ℕ) → Posix.sem_open (Posix.sem_open s) ≡ Posix.sem_open s
unfolding Posix.sem_open
sem_open-twice none = refl
sem_open-twice (some v) = refl

client_event-AreIdle :
    (e : ClientEvent) (o : Posix.Objects) → IsClient e → AreIdle o → AreIdle (client_event e o)
unfolding client_event Posix.ipc_connect Posix.init_mutex Posix.get_memory Posix.ipc_close
    Posix.handle_signal
client_event-AreIdle (connects pid file) o c h = record {
  absent_or_zero1 = sem_open-twice o.sem1 ∙ h.absent_or_zero1;
  absent_or_zero2 = sem_open-twice o.sem2 ∙ h.absent_or_zero2;
  absent_or_zero3 = sem_open-twice o.sem3 ∙ h.absent_or_zero3;
  absent_or_zero4 = sem_open-twice o.sem4 ∙ h.absent_or_zero4;
}
client_event-AreIdle (closes ipc) o c h = rw (ne→== ipc.id ipc.server_id c) h
client_event-AreIdle (interrupted ipc) o c h = rw (ne→== ipc.id ipc.server_id c) h

clients-AreIdle :
    (es : List ClientEvent) (o : Posix.Objects)
    → All IsClient es
    → AreIdle o
    → AreIdle (clients es o)
unfolding clients
clients-AreIdle [] o all h = h
clients-AreIdle (e ∷ es) o all h =
    clients-AreIdle es (client_event e o) all.1 (client_event-AreIdle e o all.0 h)

listen-AreSet :
    (pid : ℕ) (o : Posix.Objects) → AreIdle o → AreSet (Posix.ipc_listen pid o).1 one_writer
unfolding Posix.ipc_listen Posix.inc_named Posix.init_mutex Posix.get_memory
listen-AreSet pid o h = record {
  client_write = rw h.absent_or_zero1 refl;
  server_read = h.absent_or_zero2;
  client_read = h.absent_or_zero3;
  server_write = h.absent_or_zero4;
}

life-AreIdle : (l : Life) (o : Posix.Objects) → AreIdle (life l o)
unfolding life Posix.ipc_listen Posix.ipc_close Posix.close_mutex Posix.free_memory Posix.sem_open
life-AreIdle l o =
    let same : (l.pid % 2 ^ 16 == l.pid % 2 ^ 16) ≡ true = ground arith in
    rw same (record {
      absent_or_zero1 = refl;
      absent_or_zero2 = refl;
      absent_or_zero3 = refl;
      absent_or_zero4 = refl;
    })

history-AreIdle : (ls : List Life) (o : Posix.Objects) → AreIdle o → AreIdle (history ls o)
unfolding history
history-AreIdle [] o h = h
history-AreIdle (l ∷ ls) o h = history-AreIdle ls (life l o) (life-AreIdle l o)

client_event-AreSet :
    (e : ClientEvent) (o : Posix.Objects) (v : Values)
    → IsClient e
    → AreSet o v
    → AreSet (client_event e o) v
unfolding client_event Posix.ipc_connect Posix.init_mutex Posix.get_memory Posix.ipc_close
    Posix.handle_signal Posix.sem_open
client_event-AreSet (connects pid file) o v c h = record {
  client_write = rw h.client_write refl;
  server_read = rw h.server_read refl;
  client_read = rw h.client_read refl;
  server_write = rw h.server_write refl;
}
client_event-AreSet (closes ipc) o v c h = rw (ne→== ipc.id ipc.server_id c) h
client_event-AreSet (interrupted ipc) o v c h = rw (ne→== ipc.id ipc.server_id c) h

clients-AreSet :
    (es : List ClientEvent) (o : Posix.Objects) (v : Values)
    → All IsClient es
    → AreSet o v
    → AreSet (clients es o) v
unfolding clients
clients-AreSet [] o v all h = h
clients-AreSet (e ∷ es) o v all h =
    clients-AreSet es (client_event e o) v all.1 (client_event-AreSet e o v all.0 h)

-- From no objects on, after any number of servers that listened and closed one after the other, with any
-- processes that connected, closed or were interrupted before and meanwhile: a server that listens, after
-- clients that connected, closed or were interrupted, finds that one client may write and that the other three semaphores are 0, and so does
-- every client that connects to it, as long as only clients close.
pub restart-AreSet :
    (ls : List Life) (before after : List ClientEvent) (pid : ℕ)
    → All IsClient before
    → All IsClient after
    → AreSet
        (clients after (Posix.ipc_listen pid (clients before (history ls nothing))).1)
        one_writer
restart-AreSet ls before after pid early late =
    let fresh : AreIdle nothing =
      unfold Posix.sem_open in
      record {
        absent_or_zero1 = refl;
        absent_or_zero2 = refl;
        absent_or_zero3 = refl;
        absent_or_zero4 = refl;
      } in
    let unused : AreIdle (clients before (history ls nothing)) =
      clients-AreIdle before (history ls nothing) early (history-AreIdle ls nothing fresh) in
    clients-AreSet after (Posix.ipc_listen pid (clients before (history ls nothing))).1 one_writer
      late (listen-AreSet pid (clients before (history ls nothing)) unused)

open_mutex-some :
    (o : Systemv.Objects) → (v : Values) × ((Systemv.open_mutex o).semaphores ≡ some v)
unfolding Systemv.open_mutex
open_mutex-some o = elim (Option-cases o.semaphores) [
  | inl absent ↦ rw absent (all_zero, refl)
  | inr (v, there) ↦ (v, rw there refl)
]

listen_systemv :
    (pid : ℕ) (o : Systemv.Objects) → (Systemv.ipc_listen pid o).1.semaphores ≡ some one_writer
unfolding Systemv.ipc_listen Systemv.init_mutex
listen_systemv pid o = let (v, there) = open_mutex-some (Systemv.get_memory o) in rw there refl

-- If a server of shmposix.c ended without `ipc_close`, the next one that listens adds a client to those that
-- may write and keeps the other semaphores as they were. The next server of shmsystemv.c finds one client
-- that may write and 0 in the other semaphores, whatever there was.
pub restart_unclosed :
    (pid : ℕ) (o : Posix.Objects) (v : Values) (q : Systemv.Objects)
    → AreSet o v
    → AreSet (Posix.ipc_listen pid o).1 (record v { client_write = v.client_write + 1 })
      × ((Systemv.ipc_listen pid q).1.semaphores ≡ some one_writer)
unfolding Posix.ipc_listen Posix.inc_named Posix.init_mutex Posix.get_memory Posix.sem_open
restart_unclosed pid o v q h = (
  record {
    client_write = rw h.client_write refl;
    server_read = rw h.server_read refl;
    client_read = rw h.client_read refl;
    server_write = rw h.server_write refl;
  },
  listen_systemv pid q,
)
