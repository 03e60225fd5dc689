-- ===== src/System/Serving.antt =====
-- src/exe/server.c: the loop of `main` with its calls of `ipc_recv` and `ipc_send`, over any transport.
use mathlib.Core.List.{Perm}
use so.Base.{
  List, Option, [], arith, none, some, suc, zero, ℕ, ◌*◌, ◌++◌, ◌+◌, ◌∷◌, ◌≡◌, ◌≢◌, ◌≤◌, length,
  if◌then◌else◌, ◌==◌,
}
use so.Actions.{Message, Send}
use so.Bytes.{◌>>=◌}
use so.Database.{Database}
use so.Database.Valid.{IsValid}
use so.Ipc.Messages.{IsAddress, deliver}
use so.Ipc.Transport.{Transport}
use so.Server.{answer, serve}
use so.Server.Rounds.{Round, Round-IsValid}
use so.Server.Sizes.{Round-count}
use so.Server.Total.{IsComplete}

-- The call of `ipc_send` in a `case`, if there is one.
unfoldable pub post : (T : Transport) → ℕ → Option Send → T.State → Option T.State
post T id none t = some t
post T id (some s) t = T.send id s t

-- One round of the loop by the process `id`; none while it waits.
unfoldable pub round :
    (T : Transport) → (ℕ → ℕ) → ℕ → T.State → Database → Option (Option Send × Database × T.State)
round T junk id t db = do
  (m, t1) ← T.recv id t
  (response, db') ← answer junk db m
  t2 ← post T id response t1
  some (response, db', t2)

-- So many rounds.
unfoldable pub rounds :
    (T : Transport)
    → (ℕ → ℕ)
    → ℕ
    → ℕ
    → T.State
    → Database
    → Option (List (Option Send) × Database × T.State)
rounds T junk id zero t db = some ([], db, t)
rounds T junk id (suc n) t db = do
  (response, db', t') ← round T junk id t db
  (responses, last, t'') ← rounds T junk id n t' db'
  some (response ∷ responses, last, t'')

-- The messages that the process `j` gets for the responses of the server `id`.
abbrev pub reply : ℕ → ℕ → Option Send → List Message
reply id j none = []
reply id j (some s) = if s.recipient == j then deliver id s ∷ [] else []

abbrev pub replies : ℕ → ℕ → List (Option Send) → List Message
replies id j [] = []
replies id j (r ∷ rs) = reply id j r ++ replies id j rs

-- A complete message of another process.
pub record IsRequest (id : ℕ) (m : Message) : Type 0 where
  pub complete : IsComplete m
  pub address : IsAddress m.sender
  pub other : m.sender ≢ id

-- A database whose responses the transport carries.
pub record Carries (capacity : ℕ) (db : Database) : Type 0 where
  pub valid : IsValid db
  pub list : 4 + 284 * db.count ≤ capacity
  pub found : 292 ≤ capacity

pub Round-Carries :
    {junk : ℕ → ℕ} {db : Database} {sender : ℕ} {r : Option Send × Database} (capacity : ℕ)
    → Round junk db sender r
    → Carries capacity db
    → Carries capacity r.1
Round-Carries capacity round c = record {
  valid = Round-IsValid round c.valid;
  list = omega (arith, Round-count round c.valid, c.list);
  found = c.found;
}

-- After the server's call of `ipc_send` for a response to another process.
pub record Posted (T : Transport) (id : ℕ) (r : Option Send) (t : T.State) (box : ℕ → List Message)
    : Type 0 where
  pub after : T.State
  pub boxes : ℕ → List Message
  pub done : post T id r t ≡ some after
  pub holds : T.Holds after boxes
  pub own : boxes id ≡ box id
  pub others : (j : ℕ) → id ≢ j → Perm (boxes j) (reply id j r ++ box j)

-- After the rounds for all messages of the server's mailbox.
pub record Served (T : Transport) (id : ℕ) (junk : ℕ → ℕ) (t : T.State) (db : Database)
    (box : ℕ → List Message) : Type 0 where
  pub order : List Message
  pub responses : List (Option Send)
  pub last : Database
  pub after : T.State
  pub boxes : ℕ → List Message
  pub reordered : Perm order (box id)
  pub served : serve junk db order ≡ some (responses, last)
  pub done : rounds T junk id (length (box id)) t db ≡ some (responses, last, after)
  pub holds : T.Holds after boxes
  pub own : boxes id ≡ []
  pub others : (j : ℕ) → id ≢ j → Perm (boxes j) (box j ++ replies id j responses)
  pub carries : Carries T.capacity last
