-- ===== src/Actions/Responses.antt =====
-- src/actions.c: the responses of the server. A crash, or a read outside the message, is none.
use so.Base.{List, Option, none, some, ℕ, ◌%◌, ◌*◌, ◌+◌, ◌^◌, get_elem?, take, if◌then◌else◌}
use so.Base.Int.{ltb_ℤ, pos, ℤ}
use so.Actions.Wire.{Send, action_buy_ticket, error_bytes, found_bytes, list_bytes, ticket_bytes}
use so.Bytes.{get_i32, get_u16, ◌>>=◌}
use so.Database.{movie_size, db_buy_ticket, db_get_ticket, Database, err_no_such_ticket}

-- sizeof(res_movie_list_t) and sizeof(res_get_ticket_t)
abbrev pub list_head_size : ℕ
list_head_size = 4

abbrev pub found_size : ℕ
found_size = 292

module _ (junk : ℕ → ℕ) where
  unfoldable pub res_error : ℕ → ℤ → Send
  res_error sender code = record { recipient = sender; message = error_bytes junk code; size = 8 }

  -- `total_res_size` is a size_t; the call converts it to uint16_t.
  unfoldable pub res_movie_list : Database → ℕ → Send
  res_movie_list db sender =
      let movie_list_size = movie_size * db.count in
      let total_res_size = list_head_size + movie_list_size in
      record {
        recipient = sender;
        message = list_bytes junk db.count (take db.count db.movies);
        size = total_res_size % 2 ^ 16;
      }

  -- The answer to the ticket number that `db_buy_ticket` gave, which may be an error code.
  unfoldable pub bought_response : ℕ → ℤ → Send
  bought_response sender ticket =
      if ltb_ℤ (pos 0) ticket
      then record {
        recipient = sender;
        message = ticket_bytes junk action_buy_ticket ticket;
        size = 8;
      }
      else res_error sender ticket

  unfoldable pub res_buy_ticket : Database → ℕ → List ℕ → Option (Send × Database)
  res_buy_ticket db sender req = do
    movie_i ← get_u16 req 2
    (ticket, db') ← db_buy_ticket db (pos movie_i)
    some (bought_response sender ticket, db')

  -- The answer for the pointer that `db_get_ticket` gave; `*movie` is copied.
  unfoldable pub found_response : Database → ℕ → ℤ → Option ℕ → Option Send
  found_response db sender ticket none = some (res_error sender err_no_such_ticket)
  found_response db sender ticket (some i) = do
    movie ← get_elem? db.movies i
    some (record { recipient = sender; message = found_bytes junk ticket movie; size = found_size })

  unfoldable pub res_get_ticket : Database → ℕ → List ℕ → Option (Send × Database)
  res_get_ticket db sender req = do
    ticket ← get_i32 req 4
    let looked = db_get_ticket db ticket
    response ← found_response looked.1 sender ticket looked.0
    some (response, looked.1)
