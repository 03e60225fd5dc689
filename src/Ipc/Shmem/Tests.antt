-- ===== src/Ipc/Shmem/Tests.antt =====
-- Two clients of the shared memory, and one alone.
use so.Base.{List, Option, [], arith, none, refl, some, ℕ, ◌+◌, ◌∷◌, ◌≡◌, set}
use so.Actions.{Message}
use so.Ipc.Clients.{update}
use so.Ipc.Shmem.Alone.{ReachAlone, alone_own_reply, here, moves, serves}
use so.Ipc.Shmem.Events.{connects, event, events, left, nothing, store, uses}
use so.Ipc.Shmem.Overwrite.{response_overwritten}
use so.Ipc.Shmem.Protocol.{
  Reach, System, asking, await, await_read, await_request, await_write, begin, copy, copy_request,
  copying, done, emit, emit_answer, emit_request, emit_write, idle, lower, receiving, semcreate,
  sending, start, waiting, write, write_reply, writing,
}
use so.Ipc.Shmem.Relisten.{relisten}
use so.Ipc.Shmem.Segments.{
  Handle, attached, get_segment, get_set, ipc_close, ipc_connect, ipc_listen, ipc_open,
  semcreate_at, semdestroy, shalloc, shfree,
}

abbrev ping : Message
ping = record { sender = 5; content_length = 1; content = 1 ∷ [] }

abbrev pong : Message
pong = record { sender = 0; content_length = 1; content = 2 ∷ [] }

abbrev answers : Message → Option Message
answers m = some pong

response_overwritten_example : (t : System) × Reach answers pong t × (t.client 3 ≡ done ping ping)
response_overwritten_example =
    response_overwritten answers pong 3 4 ping ping pong (omega arith) refl

abbrev answered : System
answered = record {
  shared = record { client_can_write = 0; server_can_read = 0; client_can_read = 0; memory = pong };
  server = receiving;
  client =
      let asked = update (update (λ i. idle) 3 (asking ping)) 3 (writing ping) in
      let sent = update (update asked 3 (sending ping)) 3 (waiting ping) in
      update (update sent 3 (copying ping)) 3 (done ping pong);
}

-- A request of the client 3, and the answer it reads.
Reach-answered : ReachAlone answers pong 3 answered
unfolding start semcreate emit await lower
Reach-answered =
    let asked = moves here (begin ping) in
    let turn = moves (serves asked emit_write) (await_write refl) in
    let sent = moves (moves turn write) emit_request in
    let taken = serves (serves sent (await_request refl)) copy_request in
    let replied = serves (serves taken (write_reply refl)) emit_answer in
    moves (moves replied (await_read refl)) copy

alone_own_reply_example : answers ping ≡ some pong
alone_own_reply_example = alone_own_reply answers Reach-answered refl

-- The keys of a path whose file has the number 9.
abbrev keys : List ℕ → Option (ℕ → ℕ)
keys address = some (λ n. n + 9)

abbrev address : List ℕ
address = 47 ∷ []

abbrev server_handle : ℕ → ℕ → Handle
server_handle pid set = record { id = pid; server_id = pid; memory = 10; semaphores = set }

abbrev client_handle : Handle
client_handle = record { id = 6; server_id = 0; memory = 10; semaphores = 0 }

-- A server 5 of which the client 6 has used the memory, and a server 7 after it.
relisten_example :
    (attached client_handle (
        events keys (connects 8 address ∷ []) (
          ipc_close (server_handle 5 0) (
            events keys
              (connects 6 address ∷ uses client_handle (semcreate ping) ∷ [])
              (left nothing (ipc_listen keys 5 address nothing)))))
      ≡ none)
    × (m : Message) × (attached (server_handle 7 1) (
          left nothing (
            ipc_listen keys 7 address (
              ipc_close (server_handle 5 0) (
                events keys
                  (connects 6 address ∷ uses client_handle (semcreate ping) ∷ [])
                  (left nothing (ipc_listen keys 5 address nothing))))))
        ≡ some (semcreate m))
unfolding ipc_listen ipc_connect ipc_open shalloc semcreate_at get_set get_segment ipc_close
    semdestroy shfree events event left store
relisten_example =
    relisten keys 5 7 address [] (connects 6 address ∷ uses client_handle (semcreate ping) ∷ [])
      (connects 8 address ∷ []) client_handle refl (tt, (tt, tt)) refl refl
