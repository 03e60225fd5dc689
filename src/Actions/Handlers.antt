-- ===== src/Actions/Handlers.antt =====
-- src/actions.c: what the client prints for a response. A read outside the message is none.
use so.Base.{List, Option, [], some, suc, zero, ℕ, ◌+◌, ◌∷◌, drop, if◌then◌else◌}
use so.Base.Int.{eq_ℤ, pos, ℤ}
use so.Bytes.{get_i32, get_u16, ◌>>=◌}
use so.Database.{movie_size, err_no_more_tickets, err_no_such_movie, err_no_such_ticket}
use so.Libc.{string_at}

-- A call of printf, with its arguments.
pub data Print : Type 0 where
  no_such_movie : Print
  no_such_ticket : Print
  no_more_tickets : Print
  unexpected_error : ℤ → Print
  movie_line : ℕ → List ℕ → List ℕ → Print
  ticket_line : ℤ → Print
  not_available : Print
  ticket_number : ℤ → Print
  movie_name : List ℕ → Print
  movie_time : List ℕ → Print

unfoldable pub error_text : ℤ → Print
error_text code =
    if eq_ℤ code err_no_such_movie
    then no_such_movie
    else if eq_ℤ code err_no_such_ticket
    then no_such_ticket
    else if eq_ℤ code err_no_more_tickets
    then no_more_tickets
    else unexpected_error code

unfoldable pub han_error : List ℕ → Option (List Print)
han_error err = do code ← get_i32 err 4; some (error_text code ∷ [])

-- The loop of `han_movie_list`: `n` rounds from index `i`, at `movies + i`.
unfoldable pub list_lines : ℕ → ℕ → List ℕ → Option (List Print)
list_lines zero i movies = some []
list_lines (suc n) i movies = do
  name ← string_at movies
  time ← string_at (drop 100 movies)
  rest ← list_lines n (suc i) (drop movie_size movies)
  some (movie_line (i + 1) name time ∷ rest)

unfoldable pub han_movie_list : List ℕ → Option (List Print)
han_movie_list res = do count ← get_u16 res 2; list_lines count 0 (drop 4 res)

unfoldable pub han_buy_ticket : List ℕ → Option (List Print)
han_buy_ticket res = do
  ticket ← get_i32 res 4
  some ((if eq_ℤ ticket (pos 0) then not_available else ticket_line ticket) ∷ [])

unfoldable pub han_get_ticket : List ℕ → Option (List Print)
han_get_ticket res = do
  ticket ← get_i32 res 4
  name ← string_at (drop 8 res)
  time ← string_at (drop 108 res)
  some (ticket_number ticket ∷ movie_name name ∷ movie_time time ∷ [])
