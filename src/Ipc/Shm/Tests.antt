-- ===== src/Ipc/Shm/Tests.antt =====
-- One client's request and its answer through the shared memory.
use so.Ipc.Shm.Posix
use so.Base.{List, Option, [], arith, false, refl, some, ℕ, ◌∷◌, ◌≡◌, ◌⊎◌}
use so.Actions.{Message}
use so.Ipc.Clients.{update}
use so.Ipc.Shm.Restart.{
  AreSet, ClientEvent, Life, clients, closes, connects, history, interrupted, nothing, one_writer,
  restart-AreSet,
}
use so.Ipc.Shm.Ring.{
  Reach, Shared, System, asking, begin, copy, copy_request, copying, dec, dec_read, dec_reply,
  dec_request, dec_write, done, down, here, idle, inc, inc_answer, inc_reply, inc_request,
  inc_write, init_systemv, leaving, listening, moves, next, sending, serves, start, waiting, write,
  write_reply, writing,
}
use so.Ipc.Shm.Safety.{client_uses, got_own_reply, memory_exclusive, server_uses}
use so.Libc.{codes}

abbrev ping : Message
ping = record { sender = 5; content_length = 1; content = 1 ∷ [] }

abbrev pong : Message
pong = record { sender = 0; content_length = 1; content = 2 ∷ [] }

abbrev answers : Message → Option Message
answers m = some pong

abbrev shared : ℕ → Message → Shared
shared turn memory = record {
  client_write = turn;
  server_read = 0;
  client_read = 0;
  server_write = 0;
  memory = memory;
}

abbrev writing_one : System
writing_one = record {
  shared = shared 0 pong;
  server = listening;
  client = update (update (λ i. idle) 3 (asking ping)) 3 (writing ping);
}

-- The client 3 has the memory.
Reach-writing : Reach answers pong writing_one
unfolding start init_systemv dec down
Reach-writing = next (next here (moves 3 (begin ping))) (moves 3 (dec_write refl))

abbrev answered : System
answered = record {
  shared = shared 1 pong;
  server = listening;
  client =
      let sent = update (update writing_one.client 3 (sending ping)) 3 (waiting ping) in
      update (update (update sent 3 (copying ping)) 3 (leaving ping pong)) 3 (done ping pong);
}

-- The server has answered, and the client has returned.
Reach-answered : Reach answers pong answered
unfolding dec down inc
Reach-answered =
    let written = next Reach-writing (moves 3 write) in
    let sent = next written (moves 3 inc_request) in
    let taken = next (next sent (serves (dec_request refl))) (serves copy_request) in
    let acked = next (next taken (serves inc_reply)) (serves (dec_reply refl refl)) in
    let replied = next (next acked (serves write_reply)) (serves inc_answer) in
    let got = next (next replied (moves 3 (dec_read refl))) (moves 3 copy) in
    next got (moves 3 inc_write)

got_own_reply_example : answers ping ≡ some pong
got_own_reply_example = got_own_reply answers 3 Reach-answered refl

memory_exclusive_example :
    (server_uses listening ≡ false)
    × ((◌≡◌ {A = ℕ} 3 4) ⊎ (client_uses (writing_one.client 4) ≡ false))
memory_exclusive_example = memory_exclusive answers 3 4 Reach-writing refl

abbrev visitor : Posix.Handle
visitor = record { id = 5; server_id = 7 }

-- A client that connects before the server listens.
abbrev early_client : List ClientEvent
early_client = connects 5 (codes "tmp/7") ∷ []

abbrev first_life : Life
first_life = record { before = early_client; pid = 7; after = closes visitor ∷ [] }

restart-AreSet_example :
    AreSet
      (clients
        (interrupted visitor ∷ [])
        (Posix.ipc_listen 8 (clients early_client (history (first_life ∷ []) nothing))).1)
      one_writer
restart-AreSet_example =
    restart-AreSet (first_life ∷ []) early_client (interrupted visitor ∷ []) 8 (tt, tt)
      ((λ e. omega arith), tt)
