-- ===== src/Client/Main.antt =====
-- src/exe/client.c: `main` up to the request, and `handle_response`.
use so.Base.{List, Option, [], some, ℕ, ◌∷◌, if◌then◌else◌, ◌==◌}
use so.Base.Int.{pred_ℤ, to_u16, ℤ}
use so.Actions.{
  Print, han_buy_ticket, han_error, han_get_ticket, han_movie_list, action_string_to_code,
  req_buy_ticket, req_get_ticket, req_movie_list, Ipc, Message, Send, action_buy_ticket,
  action_error, action_get_ticket, action_movie_list,
}
use so.Bytes.{get_u8, ◌>>=◌}
use so.Libc.{atoi}

-- The `check` that ends the program, by its message.
pub data Usage : Type 0 where
  usage : Usage
  unknown_action : Usage
  usage_list : Usage
  usage_buy : Usage
  usage_get : Usage

pub data Started : Type 0 where
  exits : Usage → Started
  requests : Send → Started

-- `argc == 3`: nothing behind the action.
unfoldable pub no_param : Usage → Send → List (List ℕ) → Started
no_param u send [] = requests send
no_param u send (p ∷ ps) = exits u

-- `argc == 4`: one number behind the action.
unfoldable pub one_param : Usage → (ℤ → Send) → List (List ℕ) → Started
one_param u send [] = exits u
one_param u send (p ∷ []) = requests (send (atoi p))
one_param u send (p ∷ q ∷ ps) = exits u

-- The `switch` of `main`, after `ipc_connect`; `params` are the arguments behind the action.
unfoldable pub request : (ℕ → ℕ) → Ipc → ℕ → List (List ℕ) → Started
request junk ipc action_code params =
    if action_code == action_movie_list
    then no_param usage_list (req_movie_list ipc) params
    else if action_code == action_buy_ticket
    then one_param usage_buy (λ movie_id. req_buy_ticket junk ipc (to_u16 (pred_ℤ movie_id))) params
    else one_param usage_get (λ ticket. req_get_ticket junk ipc ticket) params

-- `main` on its arguments (argv[0] first), where `ipc_connect` gives `ipc`.
unfoldable pub main : (ℕ → ℕ) → Ipc → List (List ℕ) → Started
main junk ipc (program ∷ server ∷ action ∷ params) =
    let action_code = action_string_to_code action in
    if action_code == 0 then exits unknown_action else request junk ipc action_code params
main junk ipc _ = exits usage

-- A response of a type that no action has prints nothing.
unfoldable pub handle_response : Message → Option (List Print)
handle_response msg = do
  type ← get_u8 msg.content 0
  if type == action_movie_list
      then han_movie_list msg.content
      else if type == action_buy_ticket
      then han_buy_ticket msg.content
      else if type == action_get_ticket
      then han_get_ticket msg.content
      else if type == action_error
      then han_error msg.content
      else some []
