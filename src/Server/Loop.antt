-- ===== src/Server/Loop.antt =====
-- src/exe/server.c: `setup` and the body of the loop in `main`. A crash is none.
use so.Base.{List, Option, [], none, some, ℕ, ◌∷◌, if◌then◌else◌, ◌==◌}
use so.Actions.{
  res_buy_ticket, res_get_ticket, res_movie_list, Message, Send, action_buy_ticket,
  action_get_ticket, action_movie_list,
}
use so.Bytes.{get_u8, ◌>>=◌}
use so.Database.{Database}

-- A `case` that sends a response.
unfoldable pub sent : Option (Send × Database) → Option (Option Send × Database)
sent none = none
sent (some (response, db)) = some (some response, db)

-- The `switch` on the type of a request: the response that it sends (none for a message that is no
-- request, which is only logged), and the database that it leaves.
unfoldable pub dispatch : (ℕ → ℕ) → Database → Message → ℕ → Option (Option Send × Database)
dispatch junk db msg type =
    if type == action_movie_list
    then some (some (res_movie_list junk db msg.sender), db)
    else if type == action_buy_ticket
    then sent (res_buy_ticket junk db msg.sender msg.content)
    else if type == action_get_ticket
    then sent (res_get_ticket junk db msg.sender msg.content)
    else some (none, db)

-- One round of the loop, for a message that `ipc_recv` gave.
unfoldable pub answer : (ℕ → ℕ) → Database → Message → Option (Option Send × Database)
answer junk db msg = do type ← get_u8 msg.content 0; dispatch junk db msg type

-- The rounds of the loop for the messages that `ipc_recv` gives; `stop` is never set, so the loop ends
-- only by a signal.
unfoldable pub serve : (ℕ → ℕ) → Database → List Message → Option (List (Option Send) × Database)
serve junk db [] = some ([], db)
serve junk db (msg ∷ msgs) = do
  (response, db') ← answer junk db msg
  (responses, last) ← serve junk db' msgs
  some (response ∷ responses, last)
