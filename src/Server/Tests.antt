-- ===== src/Server/Tests.antt =====
-- The server's loop on requests of three clients: the theorems at the hall of two movies.
use so.Base.{List, Option, [], arith, refl, some, ℕ, ◌∷◌, ◌≡◌, All, length}
use so.Actions.{Message, Send}
use so.Bytes.{get_u8}
use so.Database.{Database}
use so.Database.Samples.{hall, hall-IsValid}
use so.Database.Valid.{IsValid}
use so.Server.Distinct.{serve-Distinct}
use so.Server.Loop.{serve}
use so.Server.Total.{IsComplete, serve-total}
use so.Server.Unique.{Distinct, IsUnsold, tickets_of}

abbrev junk : ℕ → ℕ
junk i = i

abbrev ask : ℕ → List ℕ → Message
ask sender content = record { sender = sender; content_length = length content; content = content }

-- Two clients buy a ticket for the second movie, and one asks for the ticket 21.
abbrev requests_of_three : List Message
requests_of_three =
    ask 100 (2 ∷ 0 ∷ 1 ∷ 0 ∷ [])
    ∷ ask 101 (2 ∷ 0 ∷ 1 ∷ 0 ∷ [])
    ∷ ask 102 (3 ∷ 0 ∷ 0 ∷ 0 ∷ 21 ∷ 0 ∷ 0 ∷ 0 ∷ [])
    ∷ []

buys : (sender : ℕ) → IsComplete (ask sender (2 ∷ 0 ∷ 1 ∷ 0 ∷ []))
unfolding get_u8
buys sender = record {
  type = 2;
  typed = refl;
  holds_buy = λ e. omega arith;
  holds_get = λ e. omega arith;
}

gets : IsComplete (ask 102 (3 ∷ 0 ∷ 0 ∷ 0 ∷ 21 ∷ 0 ∷ 0 ∷ 0 ∷ []))
unfolding get_u8
gets = record { type = 3; typed = refl; holds_buy = λ e. omega arith; holds_get = λ e. omega arith }

requests-AreComplete : All IsComplete requests_of_three
requests-AreComplete = (buys 100, (buys 101, (gets, tt)))

serve-total_example :
    (r : List (Option Send) × Database) × (serve junk hall requests_of_three ≡ some r)
    × (length r.0 ≡ 3)
    × IsValid r.1
serve-total_example = serve-total junk hall requests_of_three hall-IsValid requests-AreComplete

-- What the three clients are sent.
abbrev served : (r : List (Option Send) × Database) × (serve junk hall requests_of_three ≡ some r)
served =
    let (r, e, size, v) =
      serve-total junk hall requests_of_three hall-IsValid requests-AreComplete in
    (r, e)

serve-Distinct_example :
    Distinct (tickets_of served.0.0) × All (IsUnsold hall) (tickets_of served.0.0)
serve-Distinct_example = serve-Distinct junk hall requests_of_three hall-IsValid served.1
