-- ===== src/Actions/Requests.antt =====
-- src/actions.c: `action_string_to_code` and the requests of the client.
use so.Base.{List, ℕ, if◌then◌else◌}
use so.Base.Int.{ℤ}
use so.Actions.Wire.{
  Ipc, Send, action_buy_ticket, action_get_ticket, action_movie_list, buy_request, list_request,
  ticket_bytes,
}
use so.Libc.{codes, same_string}

-- 0 stands for an action that does not exist.
unfoldable pub action_string_to_code : List ℕ → ℕ
action_string_to_code action =
    if same_string action (codes "list")
    then action_movie_list
    else if same_string action (codes "buy")
    then action_buy_ticket
    else if same_string action (codes "get")
    then action_get_ticket
    else 0

unfoldable pub req_movie_list : Ipc → Send
req_movie_list ipc = record { recipient = ipc.server_id; message = list_request; size = 1 }

module _ (junk : ℕ → ℕ) (ipc : Ipc) where
  unfoldable pub req_buy_ticket : ℕ → Send
  req_buy_ticket movie_i = record {
    recipient = ipc.server_id;
    message = buy_request junk movie_i;
    size = 4;
  }

  unfoldable pub req_get_ticket : ℤ → Send
  req_get_ticket ticket = record {
    recipient = ipc.server_id;
    message = ticket_bytes junk action_get_ticket ticket;
    size = 8;
  }
