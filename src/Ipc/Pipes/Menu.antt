-- ===== src/Ipc/Pipes/Menu.antt =====
-- src/ipc/Pipes/clientPipe.c: the menu, the request and the response.
-- What the client prints.
use so.Ipc.Fifo
use so.Base.{
  List, Option, [], none, some, suc, zero, ℕ, ◌++◌, ◌||◌, ◌∷◌, drop, length, take, if◌then◌else◌,
  leb, ◌==◌,
}
use so.Base.Int.{eq_ℤ, pos, ℤ}
use so.Bytes.{first_u32, get_u16, get_u8, put_u16, ◌>>=◌}
use so.Libc.{string_at}
use so.Server.{serve}

pub data Output : Type 0 where
  movie_text : ℕ → List ℕ → Output
  ticket_text : ℕ → Output
  not_bought : Output
  incorrect_choice : Output

-- `validateChoice` gives 0 for a choice of the menu.
unfoldable pub validate_choice : ℤ → ℕ
validate_choice choice =
    if eq_ℤ choice (pos 1) || (eq_ℤ choice (pos 2) || eq_ℤ choice (pos 3)) then 0 else 1

-- `req_movie_list` and `req_buy_ticket`: a `request_t` has the type only.
unfoldable pub req_movie_list : List ℕ
req_movie_list = 1 ∷ []

unfoldable pub req_buy_ticket : List ℕ
req_buy_ticket = 2 ∷ []

-- `generateContent`; NULL is none.
unfoldable pub generate_content : ℤ → Option (List ℕ)
generate_content choice =
    if eq_ℤ choice (pos 1)
    then some req_movie_list
    else if eq_ℤ choice (pos 2)
    then some req_buy_ticket
    else none

-- What `ipc_send` writes to the server's pipe: `content_length` is a variable of its own that is not set, and
-- `memory` is what stands at `content`; none where the memory ends before.
unfoldable pub ipc_send : ℕ → ℕ → List ℕ → Option (List ℕ)
ipc_send id content_length memory =
    if leb content_length (length memory)
    then some (put_u16 id ++ (put_u16 content_length ++ take content_length memory))
    else none

-- The loop of `han_movie_list`, for `n` movies from index `i` on, at `movies + i`.
unfoldable pub movie_texts : ℕ → ℕ → List ℕ → Option (List Output)
movie_texts zero i movies = some []
movie_texts (suc n) i movies = do
  name ← string_at movies
  rest ← movie_texts n (suc i) (drop 604 movies)
  some (movie_text i name ∷ rest)

unfoldable pub han_movie_list : List ℕ → Option (List Output)
han_movie_list res = do count ← get_u16 res 2; movie_texts count 0 (drop 8 res)

unfoldable pub han_buy_ticket : List ℕ → Option (List Output)
han_buy_ticket res = do
  ticket ← first_u32 (drop 4 res)
  some ((if ticket == 0 then not_bought else ticket_text ticket) ∷ [])

-- `handleResponse`, on the content of the message.
unfoldable pub handle_response : List ℕ → Option (List Output)
handle_response res = do
  type ← get_u8 res 0
  if type == 1 then han_movie_list res else if type == 2 then han_buy_ticket res else some []

-- The request and the response in the loop of `execRequest`: `memory` is what stands at `&content`, and
-- `serve` gives the bytes that are then in the client's pipe.
unfoldable pub turn : (List ℕ → Option (List ℕ)) → ℕ → ℕ → List ℕ → Option (List Output)
turn serve id content_length memory = do
  written ← ipc_send id content_length memory
  client_fifo ← serve written
  (msg, rest) ← Fifo.ipc_recv client_fifo
  handle_response msg.content

-- The loop for the choices that `showMenu` gives; 3 ends it. `memory` depends on what `content` points to.
unfoldable pub exec_request :
    (List ℕ → Option (List ℕ)) → ℕ → ℕ → (Option (List ℕ) → List ℕ) → List ℤ → Option (List Output)
exec_request serve id content_length memory [] = some []
exec_request serve id content_length memory (choice ∷ choices) =
    let rest = exec_request serve id content_length memory choices in
    if eq_ℤ choice (pos 3)
    then some []
    else if validate_choice choice == 0
    then (do
      outputs ← turn serve id content_length (memory (generate_content choice))
      more ← rest
      some (outputs ++ more))
    else (do more ← rest; some (incorrect_choice ∷ more))
