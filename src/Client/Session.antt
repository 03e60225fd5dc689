-- ===== src/Client/Session.antt =====
-- A request of the client, the round of the server for it, and what the client prints: the three parts
-- of inc/actions.h put together, over a transport that delivers what is sent.
use so.Base.{List, Option, none, some, ℕ}
use so.Actions.{Print, Ipc, Send}
use so.Bytes.{◌>>=◌}
use so.Client.Main.{handle_response, request}
use so.Database.{Database}
use so.Ipc.Messages.{deliver}
use so.Server.{answer}

-- The response reaches the client, who prints it.
unfoldable pub receive : ℕ → Option Send × Database → Option (List Print × Database)
receive server_id (none, db) = none
receive server_id (some response, db) = do
  printed ← handle_response (deliver server_id response)
  some (printed, db)

unfoldable pub transact : (ℕ → ℕ) → Database → Ipc → Send → Option (List Print × Database)
transact junk db ipc request = do
  round ← answer junk db (deliver ipc.id request)
  receive ipc.server_id round
