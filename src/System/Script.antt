-- ===== src/System/Script.antt =====
-- src/exe/test.c: its `server` and its `client`, a list, a purchase and a lookup, over any transport.
-- What `server` does with its first, second and third message. It does not look at the type.
use so.Base.{List, Option, some, ℕ, ◌++◌}
use so.Actions.{
  Print, han_buy_ticket, han_get_ticket, han_movie_list, req_buy_ticket, req_get_ticket,
  req_movie_list, res_buy_ticket, res_get_ticket, res_movie_list, Ipc, Message, Send,
}
use so.Bytes.{get_i32, ◌>>=◌}
use so.Database.{Database}
use so.Ipc.Transport.{Transport}
use so.Libc.{lines}
use so.Server.{sent}
use so.System.Session.{exchange}

unfoldable pub expect_list : (ℕ → ℕ) → Database → Message → Option (Option Send × Database)
expect_list junk db msg = some (some (res_movie_list junk db msg.sender), db)

unfoldable pub expect_buy : (ℕ → ℕ) → Database → Message → Option (Option Send × Database)
expect_buy junk db msg = sent (res_buy_ticket junk db msg.sender msg.content)

unfoldable pub expect_get : (ℕ → ℕ) → Database → Message → Option (Option Send × Database)
expect_get junk db msg = sent (res_get_ticket junk db msg.sender msg.content)

-- Both processes, from the client's first call of `ipc_send` on: what `client` prints, and the database that
-- `server` closes.
unfoldable pub script :
    (T : Transport)
    → (ℕ → ℕ)
    → (ℕ → ℕ)
    → Database
    → Ipc
    → T.State
    → Option (List Print × Database × T.State)
script T junk junk' db ipc t = do
  (list_msg, db1, t1) ← exchange T (expect_list junk' db) ipc (req_movie_list ipc) t
  lines ← han_movie_list list_msg.content
  (ticket_msg, db2, t2) ← exchange T (expect_buy junk' db1) ipc (req_buy_ticket junk ipc 1) t1
  ticket ← get_i32 ticket_msg.content 4
  line ← han_buy_ticket ticket_msg.content
  (found_msg, db3, t3) ← exchange T (expect_get junk' db2) ipc (req_get_ticket junk ipc ticket) t2
  texts ← han_get_ticket found_msg.content
  some (lines ++ (line ++ texts), db3, t3)
