-- ===== src/Ipc/Pipes/Mirror.antt =====
-- The client of src/ipc/Pipes/clientPipe.c with the server of src/ipc/Pipes/serverPipe.c.
use so.Ipc.Fifo.{ipc_recv, queue_bytes, recv-front}  -- keep
use so.Ipc.Pipes.Service.{Catalog, ClientFifos, rounds}  -- keep
use so.Ipc.Pipes.Menu.{handle_response, ipc_send, turn}  -- keep
use so.Base.{
  List, Option, [], ap, append-nil, arith, none, refl, some, true, ℕ, ◌<◌, ◌^◌, ◌∙◌, ◌∷◌, ◌≡◌, ◌≤◌,
  length, length-take, take, if◌then◌else◌, leb, ◌==◌,
}
use so.Actions.{Message}
use so.Bytes.{◌>>=◌}
use so.Ipc.Messages.{IsMessage}
use so.Ipc.Pipes.Echo.{IsHandled, echoes, rounds-echo}

-- The only client.
abbrev pub own_fifo : ℕ → ClientFifos
own_fifo id j = if j == id then some [] else none

-- One round of the server for what the client `id` wrote: what is then in the client's pipe.
unfoldable pub mirror : (ℕ → ℕ) → Option Catalog → ℕ → ℕ → List ℕ → Option (List ℕ)
mirror junk db server_id id written = do
  (rest, fifos) ← rounds junk db server_id 1 written (own_fifo id)
  fifos id

abbrev pub request_of : ℕ → ℕ → List ℕ → Message
request_of id n memory = record { sender = id; content_length = n; content = take n memory }

own_open : (id : ℕ) → own_fifo id id ≡ some []
own_open id = let self : (id == id) ≡ true = ground arith in rw self refl

-- The message as the client gets it.
echo_self :
    (server_id id n : ℕ) (memory : List ℕ)
    → echoes server_id id (request_of id n memory ∷ [])
      ≡ queue_bytes (request_of server_id n memory ∷ [])
unfolding queue_bytes
echo_self server_id id n memory = let self : (id == id) ≡ true = ground arith in rw self refl

recv-single : (m : Message) → IsMessage m → ipc_recv (queue_bytes (m ∷ [])) ≡ some (m, [])
unfolding queue_bytes
recv-single m v = recv-front m [] v

module _ (junk : ℕ → ℕ) (db : Option Catalog) (server_id id n : ℕ) (memory : List ℕ)
    (a : server_id < 2 ^ 16) (b : id < 2 ^ 16) (c : n < 2 ^ 16) (fits : n ≤ length memory)
    (h : IsHandled db (request_of id n memory)) where
  request-IsMessage : (j : ℕ) → j < 2 ^ 16 → IsMessage (request_of j n memory)
  request-IsMessage j k = record {
    sender_fits = k;
    length_fits = c;
    exact = omega (arith, length-take n memory);
  }

  mirrored :
      mirror junk db server_id id (queue_bytes (request_of id n memory ∷ []))
      ≡ some (queue_bytes (request_of server_id n memory ∷ []))
  unfolding mirror
  mirrored =
      let (after, e, all) =
        rounds-echo junk db server_id (own_fifo id) (request_of id n memory ∷ [])
          (request-IsMessage id b, tt) (h, tt) (([], own_open id), tt) in
      rw e (all id [] (own_open id) ∙ ap some (echo_self server_id id n memory))

  written : ipc_send id n memory ≡ some (queue_bytes (request_of id n memory ∷ []))
  unfolding ipc_send queue_bytes
  written =
      let inside : leb n (length memory) ≡ true = ground (arith, fits) in
      rw (inside, append-nil) refl

  turn_reads : turn (mirror junk db server_id id) id n memory ≡ handle_response (take n memory)
  unfolding turn
  turn_reads =
      rw
        (
          written,
          mirrored,
          recv-single (request_of server_id n memory) (request-IsMessage server_id a),
        )
        refl

-- Whatever the client chose, what it prints is made of the bytes of its own memory that it sent, as the server
-- sends them back: `n`, the variable of the client that holds their number and is not set, is at most the size
-- of that memory, and the server survives a request with these bytes.
pub turn-mirror :
    (junk : ℕ → ℕ) (db : Option Catalog) (server_id id n : ℕ) (memory : List ℕ)
    → server_id < 2 ^ 16
    → id < 2 ^ 16
    → n < 2 ^ 16
    → n ≤ length memory
    → IsHandled db (request_of id n memory)
    → turn (mirror junk db server_id id) id n memory ≡ handle_response (take n memory)
turn-mirror junk db server_id id n memory a b c fits h =
    turn_reads junk db server_id id n memory a b c fits h
