-- ===== src/System/Interleaved.antt =====
-- src/exe/server.c with any number of src/exe/client.c, over any transport: the calls of `ipc_send` and
-- `ipc_recv` of all processes interleave in any order. Where the transport sleeps in `ipc_recv`, the look at
-- the mailbox, pause and the signal are steps of their own.
-- Where a client stands.
use so.Base.{Option, none, some, true, ℕ, ◌≡◌, ◌≢◌, ◌⊎◌}
use so.Actions.{Message, Send}
use so.Database.{Database}
use so.Database.Valid.{IsValid}
use so.Ipc.Clients.{update}
use so.Ipc.Messages.{IsAddress, IsSend, deliver}
use so.Ipc.Transport.{Transport}
use so.Server.{answer}
use so.System.Serving.{post}

pub data ClientPc : Type 0 where
  connected : ClientPc  -- before `ipc_send`
  awaiting : ClientPc  -- before `ipc_recv`
  got : Message → ClientPc

-- Where the server stands.
pub data ServerPc : Type 0 where
  free : ServerPc  -- before `ipc_recv`
  replying : Option Send → ServerPc  -- with the response, before `ipc_send`

-- Where a process stands that has found its mailbox empty in `ipc_recv`.
pub data Rest : Type 0 where
  awake : Rest  -- it has not, or a signal has come since
  drowsy : Rest  -- before pause
  asleep : Rest  -- in pause

pub record World (T : Transport) : Type 0 where
  pub transport : T.State
  pub database : Database
  pub server : ServerPc
  pub client : ℕ → ClientPc
  pub rest : ℕ → Rest

-- The programs: the server's address, and the request of the client with each address.
pub record Programs (T : Transport) : Type 0 where
  pub server_id : ℕ
  pub request : ℕ → Send
  pub address : IsAddress server_id
  pub to_server : (j : ℕ) → (request j).recipient ≡ server_id
  pub fits : (j : ℕ) → IsSend T.capacity (request j)

module _ (T : Transport) (junk : ℕ → ℕ) (p : Programs T) where
  -- The process is in `ipc_recv`.
  abbrev pub IsReceiving : World T → ℕ → Type 0
  IsReceiving w id = ((id ≡ p.server_id) × (w.server ≡ free)) ⊎ (w.client id ≡ awaiting)

  pub data Step (w : World T) : World T → Type 0 where
    client_sends :
        (j : ℕ) {t : T.State}
        → IsAddress j
        → j ≢ p.server_id
        → w.client j ≡ connected
        → T.send j (p.request j) w.transport ≡ some t
        → Step w (record w { transport = t; client = update w.client j awaiting })
    client_receives :
        (j : ℕ) {m : Message} {t : T.State}
        → IsAddress j
        → j ≢ p.server_id
        → w.client j ≡ awaiting
        → w.rest j ≡ awake
        → T.recv j w.transport ≡ some (m, t)
        → Step w (record w { transport = t; client = update w.client j (got m) })
    server_receives :
        {m : Message} {t : T.State} {r : Option Send × Database}
        → w.server ≡ free
        → w.rest p.server_id ≡ awake
        → T.recv p.server_id w.transport ≡ some (m, t)
        → answer junk w.database m ≡ some r
        → Step w (record w { transport = t; database = r.1; server = replying r.0 })
    server_sends :
        {r : Option Send} {t : T.State}
        → w.server ≡ replying r
        → post T p.server_id r w.transport ≡ some t
        → Step w (record w { transport = t; server = free })
    -- The mailbox is empty, and the process goes on to pause whatever comes meanwhile.
    looks :
        (id : ℕ)
        → T.sleeps ≡ true
        → IsReceiving w id
        → w.rest id ≡ awake
        → T.recv id w.transport ≡ none
        → Step w (record w { rest = update w.rest id drowsy })
    pauses : (id : ℕ) → w.rest id ≡ drowsy → Step w (record w { rest = update w.rest id asleep })
    -- The signal of some message, at any time.
    signalled : (id : ℕ) → w.rest id ≡ asleep → Step w (record w { rest = update w.rest id awake })

  -- The start: the server's database, and no message.
  pub data Reach (t : T.State) (db : Database) : World T → Type 0 where
    here : Reach t db (record {
      transport = t;
      database = db;
      server = free;
      client = λ j. connected;
      rest = λ j. awake;
    })
    next : {w u : World T} → Reach t db w → Step w u → Reach t db u

  -- A response of the server, at some time, to the request of the client `j`.
  pub record IsReply (j : ℕ) (m : Message) : Type 0 where
    pub database : Database
    pub valid : IsValid database
    pub response : Send
    pub left : Database
    pub answered : answer junk database (deliver j (p.request j)) ≡ some (some response, left)
    pub sent_back : m ≡ deliver p.server_id response

-- Every request is one that the server answers, whatever valid database it has.
abbrev pub AllAnswered : (T : Transport) → (ℕ → ℕ) → Programs T → Type 0
AllAnswered T junk p =
    (j : ℕ) (db : Database)
    → IsValid db
    → (s : Send) × (db' : Database) × (answer junk db (deliver j (p.request j))
        ≡ some (some s, db'))
