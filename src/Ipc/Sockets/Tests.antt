-- ===== src/Ipc/Sockets/Tests.antt =====
-- A request on the connection with descriptor 4, and its response.
use so.Base.{[], append-nil, arith, false, refl, some, sym, true, ℕ, ◌∷◌, ◌≡◌, if◌then◌else◌, ◌==◌}
use so.Actions.{Message}
use so.Ipc.Clients.{update}
use so.Ipc.Sockets.Connection.{frame, response-connection}
use so.Ipc.Sockets.Streams.{Socket, Streams, ipc_recv, ipc_send}

abbrev server : Socket
server = record { id = 3; server_id = 3; is_server = true }

abbrev client : Socket
client = record { id = 3; server_id = 3; is_server = false }

abbrev waiting : Streams
waiting = record { incoming = update (λ i. []) 4 (frame (1 ∷ [])); outgoing = λ i. [] }

response-connection_example :
    (m : Message) × (s' : Streams) × (ipc_recv server 4 waiting ≡ some (m, s'))
    × (m.content ≡ 1 ∷ [])
    × (s'.incoming 4 ≡ [])
    × ((j : ℕ)
        → (ipc_send m.sender (7 ∷ 8 ∷ []) 2 s').outgoing j
          ≡ (if 4 == j then frame (7 ∷ 8 ∷ []) else []))
response-connection_example =
    response-connection server 4 (1 ∷ []) (7 ∷ 8 ∷ []) [] waiting refl (omega arith) (omega arith)
      (sym (append-nil (frame (1 ∷ []))))

abbrev answered : Streams
answered = record { incoming = update (λ i. []) 3 (frame (7 ∷ 8 ∷ [])); outgoing = λ i. [] }
