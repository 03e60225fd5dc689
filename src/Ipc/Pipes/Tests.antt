-- ===== src/Ipc/Pipes/Tests.antt =====
-- Two clients and the server's pipe; a client's turn at the menu.
use so.Ipc.Fifo.{queue_bytes}  -- keep
use so.Ipc.Pipes.Service.{Catalog, ClientFifos, rounds}  -- keep
use so.Ipc.Pipes.Menu.{exec_request, validate_choice, incorrect_choice}  -- keep
use so.Base.{
  List, Option, [], arith, none, refl, some, ℕ, ◌++◌, ◌<◌, ◌^◌, ◌∷◌, ◌≡◌, length, if◌then◌else◌,
  ◌==◌,
}
use so.Base.Int.{pos}
use so.Actions.{Message}
use so.Ipc.Messages.{IsMessage}
use so.Ipc.Pipes.Echo.{echoes, rounds-echo}

abbrev junk : ℕ → ℕ
junk i = i

abbrev no_movies : Option Catalog
no_movies = some (record { count = 0; movies = [] })

-- A request of an unknown type, and one for the list.
abbrev unknown : Message
unknown = record { sender = 8; content_length = 2; content = 4 ∷ 0 ∷ [] }

abbrev list : Message
list = record { sender = 9; content_length = 1; content = 1 ∷ [] }

abbrev fifos : ClientFifos
fifos j = if j == 7 then none else some []

message-IsMessage :
    (m : Message)
    → m.sender < 2 ^ 16
    → m.content_length < 2 ^ 16
    → length m.content ≡ m.content_length
    → IsMessage m
message-IsMessage m a b c = record { sender_fits = a; length_fits = b; exact = c }

rounds-echo_example :
    (after : ClientFifos) × (rounds junk no_movies 7 2 (queue_bytes (unknown ∷ list ∷ [])) fifos
      ≡ some ([], after))
    × ((j : ℕ) (b : List ℕ)
        → fifos j ≡ some b
        → after j ≡ some (b ++ echoes 7 j (unknown ∷ list ∷ [])))
rounds-echo_example =
    rounds-echo junk no_movies 7 fifos (unknown ∷ list ∷ [])
      (
        message-IsMessage unknown (omega arith) (omega arith) refl,
        (message-IsMessage list (omega arith) (omega arith) refl, tt),
      )
      (
        record {
          type = 4;
          body = 0 ∷ [];
          typed = refl;
          no_purchase = λ e. omega arith;
          mapped = λ e. omega arith;
        },
        (
          record {
            type = 1;
            body = [];
            typed = refl;
            no_purchase = λ e. omega arith;
            mapped = λ e. omega arith;
          },
          tt,
        ),
      )
      (([], refl), (([], refl), tt))

-- A choice that is not in the menu is refused, and 3 ends the loop.
refuses :
    exec_request (λ written. none) 9 0 (λ content. []) (pos 5 ∷ pos 3 ∷ [])
    ≡ some (incorrect_choice ∷ [])
unfolding exec_request validate_choice
refuses = refl
