-- ===== src/Actions/Wire.antt =====
-- inc/actions.h and inc/ipc.h: action codes, messages, the bytes of each structure.
use so.Base.{List, [], ℕ, ◌++◌, ◌∷◌}
use so.Base.Int.{ℤ}
use so.Bytes.{put_i32, put_u16}
use so.Database.{put_movie, put_movies, Movie}

abbrev pub action_movie_list : ℕ
action_movie_list = 1

abbrev pub action_buy_ticket : ℕ
action_buy_ticket = 2

abbrev pub action_get_ticket : ℕ
action_get_ticket = 3

abbrev pub action_error : ℕ
action_error = 59

-- What each `ipc_t` has: the address of this process and that of the server.
pub record Ipc : Type 0 where
  pub id : ℕ
  pub server_id : ℕ

-- `message_t`
pub record Message : Type 0 where
  pub sender : ℕ
  pub content_length : ℕ
  pub content : List ℕ

-- The arguments of a call of `ipc_send`: the memory at `message`, and `size`, a uint16_t.
pub record Send : Type 0 where
  pub recipient : ℕ
  pub message : List ℕ
  pub size : ℕ

-- `req_movie_list_t`, 1 byte
unfoldable pub list_request : List ℕ
list_request = action_movie_list ∷ []

-- Padding holds unspecified bytes: `junk i` is the one at offset `i` of its structure.
module _ (junk : ℕ → ℕ) where
  abbrev pub gap3 : List ℕ
  gap3 = junk 1 ∷ junk 2 ∷ junk 3 ∷ []

  abbrev pub movie_gap : List ℕ
  movie_gap = junk 202 ∷ junk 203 ∷ []

  -- `res_error_t`, 8 bytes
  unfoldable pub error_bytes : ℤ → List ℕ
  error_bytes code = action_error ∷ (gap3 ++ put_i32 code)

  -- `req_buy_ticket_t`, 4 bytes
  unfoldable pub buy_request : ℕ → List ℕ
  buy_request movie_i = action_buy_ticket ∷ junk 1 ∷ put_u16 movie_i

  -- `req_get_ticket_t` and `res_buy_ticket_t`, 8 bytes
  unfoldable pub ticket_bytes : ℕ → ℤ → List ℕ
  ticket_bytes type ticket = type ∷ (gap3 ++ put_i32 ticket)

  -- `res_movie_list_t` with its flexible array
  unfoldable pub list_bytes : ℕ → List Movie → List ℕ
  list_bytes count movies =
      action_movie_list ∷ junk 1 ∷ (put_u16 count ++ put_movies movie_gap movies)

  -- `res_get_ticket_t`, 292 bytes
  unfoldable pub found_bytes : ℤ → Movie → List ℕ
  found_bytes ticket movie =
      action_get_ticket ∷ (gap3 ++ (put_i32 ticket ++ put_movie movie_gap movie))
