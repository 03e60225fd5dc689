-- ===== src/Ipc/Pipes/Echo.antt =====
-- The server of src/ipc/Pipes/serverPipe.c sends every request back.
use so.Ipc.Pipes.Service.{
  Catalog, ClientFifos, handle_content, ipc_recv, ipc_send, movie_t_size, res_movie_list, rounds,
}  -- keep
use so.Ipc.Fifo.{queue_bytes, pipe_bytes, recv-front}  -- keep
use so.Base.{
  List, Option, [], append-nil, append_assoc, arith, false, inl, inr, none, refl, some, true, ℕ,
  ℕ_discrete, ◌*◌, ◌++◌, ◌∷◌, ◌≡◌, ◌≢◌, ◌≤◌, All, length, take_all, ==→eq, Bool-cases,
  if◌then◌else◌, leb, ne→==, ◌==◌,
}
use so.Actions.{Message}
use so.Bytes.{put_u16}
use so.Ipc.Clients.{update}
use so.Ipc.Messages.{IsMessage}

-- The database is open, and all its movies are mapped.
abbrev pub IsMapped : Option Catalog → Type 0
IsMapped none = ⊥
IsMapped (some db) = movie_t_size * db.count ≤ length db.movies

-- A request that the server survives: it has a type other than that of a purchase, and the database is mapped
-- if it is that of a list.
pub record IsHandled (db : Option Catalog) (m : Message) : Type 0 where
  pub type : ℕ
  pub body : List ℕ
  pub typed : m.content ≡ type ∷ body
  pub no_purchase : type ≢ 2
  pub mapped : type ≡ 1 → IsMapped db

-- The bytes that come back to the process `j`: the server's number, the length and the content of each of its
-- requests.
abbrev pub echo : ℕ → ℕ → Message → List ℕ
echo id j m = if m.sender == j then put_u16 id ++ (put_u16 m.content_length ++ m.content) else []

abbrev pub echoes : ℕ → ℕ → List Message → List ℕ
echoes id j [] = []
echoes id j (m ∷ ms) = echo id j m ++ echoes id j ms

module _ (junk : ℕ → ℕ) (db : Option Catalog) where
  lists : (d : Option Catalog) → IsMapped d → (r : List ℕ) × (res_movie_list junk d ≡ some r)
  unfolding res_movie_list
  lists none mapped = absurd mapped
  lists (some c) mapped =
      let whole : leb (movie_t_size * c.count) (length c.movies) ≡ true = ground (arith, mapped) in
      rw whole (_, refl)

  handles_list :
      (body : List ℕ)
      → IsMapped db
      → (r : Option (List ℕ)) × (handle_content junk db (1 ∷ body) ≡ some r)
  unfolding handle_content
  handles_list body mapped = let (r, e) = lists db mapped in rw e (_, refl)

  handles_type :
      (type : ℕ) (body : List ℕ)
      → type ≢ 2
      → (type ≡ 1 → IsMapped db)
      → (r : Option (List ℕ)) × (handle_content junk db (type ∷ body) ≡ some r)
  handles_type type body no_purchase mapped = elim (Bool-cases (type == 1)) [
    | inl y ↦ let is : type ≡ 1 = ==→eq type 1 y in rw is (handles_list body (mapped is))
    | inr n ↦ unfold handle_content in rw (n, ne→== type 2 no_purchase) (_, refl)
  ]

  handled :
      (m : Message)
      → IsHandled db m
      → (r : Option (List ℕ)) × (handle_content junk db m.content ≡ some r)
  handled m h = let (r, e) = handles_type h.type h.body h.no_purchase h.mapped in (r, rw h.typed e)

  recv-handled :
      (m : Message) (rest : List ℕ)
      → IsMessage m
      → IsHandled db m
      → ipc_recv junk db (pipe_bytes m ++ rest) ≡ some (m, rest)
  unfolding ipc_recv
  recv-handled m rest v h = let (r, e) = handled m h in rw (recv-front m rest v, e) refl

  -- The pipes after an echo.
  echoed : ℕ → Message → List ℕ → ClientFifos → ClientFifos
  echoed id m bytes fifos =
      update fifos m.sender
        (some (bytes ++ (put_u16 id ++ (put_u16 m.content_length ++ m.content))))

  echo-sent :
      (id : ℕ) (m : Message) (fifos : ClientFifos) (bytes : List ℕ)
      → IsMessage m
      → fifos m.sender ≡ some bytes
      → ipc_send id m.sender m.content m.content_length fifos ≡ some (echoed id m bytes fifos)
  unfolding ipc_send echoed
  echo-sent id m fifos bytes v e =
      rw (e, take_all m.content_length m.content (omega (arith, v.exact))) refl

  echoed-at :
      (id : ℕ) (m : Message) (fifos : ClientFifos) (bytes : List ℕ) (j : ℕ) {b : List ℕ}
      → fifos m.sender ≡ some bytes
      → fifos j ≡ some b
      → echoed id m bytes fifos j ≡ some (b ++ echo id j m)
  unfolding echoed
  echoed-at id m fifos bytes j {b} open_pipe e = elim (ℕ_discrete m.sender j) [
    | yes same ↦
        let bytes_are : bytes ≡ b = ground (arith, rw same at open_pipe) in
        let own : (m.sender == j) ≡ true = ground arith in rw (own, bytes_are) refl
    | no differs ↦ let other : (m.sender == j) ≡ false = ground arith in rw (other, append-nil b) e
  ]

  -- Every sender has its pipe open.
  abbrev AreOpen : ClientFifos → List Message → Type 0
  AreOpen fifos ms = All (λ m. (b : List ℕ) × (fifos m.sender ≡ some b)) ms

  echoed-AreOpen :
      (id : ℕ) (m : Message) (fifos : ClientFifos) (bytes : List ℕ) (ms : List Message)
      → fifos m.sender ≡ some bytes
      → AreOpen fifos ms
      → AreOpen (echoed id m bytes fifos) ms
  echoed-AreOpen id m fifos bytes [] e all = tt
  echoed-AreOpen id m fifos bytes (x ∷ ms) e ((b, open_pipe), all) = (
    (b ++ echo id x.sender m, echoed-at id m fifos bytes x.sender e open_pipe),
    echoed-AreOpen id m fifos bytes ms e all,
  )

-- For messages whose senders have their pipes open, none of which is a purchase or has no content, and a
-- database that is open and mapped if one is a request for the list: as many rounds of the server as
-- there are messages in its pipe empty the pipe, and each client gets the server's number with the length and
-- the content of each of its own requests, in order, and nothing else.
pub rounds-echo :
    (junk : ℕ → ℕ) (db : Option Catalog) (id : ℕ) (fifos : ClientFifos) (ms : List Message)
    → All IsMessage ms
    → All (IsHandled db) ms
    → All (λ m. (b : List ℕ) × (fifos m.sender ≡ some b)) ms
    → (after : ClientFifos) × (rounds junk db id (length ms) (queue_bytes ms) fifos
        ≡ some ([], after))
      × ((j : ℕ) (b : List ℕ) → fifos j ≡ some b → after j ≡ some (b ++ echoes id j ms))
unfolding rounds queue_bytes
rounds-echo junk db id fifos [] v h o = (fifos, refl, λ j b e. rw (append-nil b) e)
rounds-echo junk db id fifos (m ∷ ms) v h ((bytes, open_pipe), o) =
    let next_fifos : ClientFifos = echoed junk db id m bytes fifos in
    let (after, e, all) =
      rounds-echo junk db id next_fifos ms v.1 h.1
        (echoed-AreOpen junk db id m fifos bytes ms open_pipe o) in
    (
      after,
      rw
          (
            recv-handled junk db m (queue_bytes ms) v.0 h.0,
            echo-sent junk db id m fifos bytes v.0 open_pipe,
          )
          e,
      λ j b x.
          rw (← append_assoc b (echo id j m) (echoes id j ms))
            (all j (b ++ echo id j m) (echoed-at junk db id m fifos bytes j open_pipe x)),
    )
