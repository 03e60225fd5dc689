-- ===== src/Ipc/Pipes/Service.antt =====
-- src/ipc/Pipes/serverPipe.c: the requests that come through the server's pipe, and what the loop of
-- `initServerComm` writes to the pipes of the clients.
use mathlib.Core.Option
use so.Ipc.Fifo
use so.Base.{
  List, Option, [], none, some, suc, zero, ℕ, ◌*◌, ◌++◌, ◌∷◌, length, take, if◌then◌else◌, leb,
  ◌==◌,
}
use so.Actions.{Message}
use so.Bytes.{put_u16, ◌>>=◌}
use so.Ipc.Clients.{update}

-- `database_t` of this server: the number of movies and the bytes that are mapped.
pub record Catalog : Type 0 where
  pub count : ℕ
  pub movies : List ℕ

-- sizeof(movie_t) here: 200 bytes of text, the count with its padding, and 100 tickets.
abbrev pub movie_t_size : ℕ
movie_t_size = 604

-- The `response_t` to a list, with any bytes where nothing is set; none where `db` is NULL, or fewer bytes are
-- mapped. `db` is a static of the file, and `main` opens the database but does not set it.
unfoldable pub res_movie_list : (ℕ → ℕ) → Option Catalog → Option (List ℕ)
res_movie_list junk none = none
res_movie_list junk (some db) =
    if leb (movie_t_size * db.count) (length db.movies)
    then some (
        1 ∷ junk 1 ∷ put_u16 db.count
        ++ (junk 4 ∷ junk 5 ∷ junk 6 ∷ junk 7 ∷ take (movie_t_size * db.count) db.movies))
    else none

-- memcpy takes the number of the ticket for an address, which crashes, whatever `u_buy_ticket` does. The
-- sources have no such function.
unfoldable pub res_buy_ticket : Option (List ℕ)
res_buy_ticket = none

-- `handleContent`: what it gives, where NULL is the inner none, or a crash. `content` may hold no type.
unfoldable pub handle_content : (ℕ → ℕ) → Option Catalog → List ℕ → Option (Option (List ℕ))
handle_content junk db [] = none
handle_content junk db (type ∷ content) =
    if type == 1
    then Option.map some (res_movie_list junk db)
    else if type == 2
    then Option.map some res_buy_ticket
    else some none

-- `ipc_recv`: the reads are those of src/ipc/fifo.c. The result of `handleContent` is not used.
unfoldable pub ipc_recv : (ℕ → ℕ) → Option Catalog → List ℕ → Option (Message × List ℕ)
ipc_recv junk db server_fifo = do
  (msg, rest) ← Fifo.ipc_recv server_fifo
  response ← handle_content junk db msg.content
  some (msg, rest)

-- The bytes in the pipe of each client; none where the file cannot be opened, which ends the server.
abbrev pub ClientFifos : Type 0
ClientFifos = ℕ → Option (List ℕ)

unfoldable pub ipc_send : ℕ → ℕ → List ℕ → ℕ → ClientFifos → Option ClientFifos
ipc_send id recipient content length fifos = do
  client_fifo ← fifos recipient
  some (
      update fifos recipient
        (some (client_fifo ++ (put_u16 id ++ (put_u16 length ++ take length content)))))

-- So many rounds of the loop in `initServerComm`.
unfoldable pub rounds :
    (ℕ → ℕ) → Option Catalog → ℕ → ℕ → List ℕ → ClientFifos → Option (List ℕ × ClientFifos)
rounds junk db id zero server_fifo fifos = some (server_fifo, fifos)
rounds junk db id (suc n) server_fifo fifos = do
  (msg, rest) ← ipc_recv junk db server_fifo
  fifos' ← ipc_send id msg.sender msg.content msg.content_length fifos
  rounds junk db id n rest fifos'
