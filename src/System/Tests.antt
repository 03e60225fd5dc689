-- ===== src/System/Tests.antt =====
-- The programs over three of the transports, at the hall of two movies.
use so.Ipc.Filesig.Mailboxes.{HoldsFiles, IsInbox, filesig}  -- keep
use so.Ipc.Filesig.Stack.{inbox_of}  -- keep
use so.Ipc.Mqueues.Mailboxes.{items_of, mailbox}  -- keep
use so.Ipc.Mqueues.{ipc_send}  -- keep
use so.Ipc.Mqueues.Process.{largest, mqueues}  -- keep
use so.Ipc.Fifo.Mailboxes.{fifo}  -- keep
use so.Ipc.Fifo.{Inbox, queue_bytes}  -- keep
use so.Base.{List, [], arith, none, refl, ℕ, ◌<◌, ◌^◌, ◌∷◌, ◌≡◌, ◌≤◌}
use so.Actions.{req_buy_ticket, req_movie_list, res_movie_list, Ipc, Message, list_request}
use so.Bytes.{get_u8}
use so.Client.{main, requests}
use so.Client.Buy.{main-buy}
use so.Client.Listing.{answer-list}
use so.Client.Samples.{crowded, crowded-IsValid, hall-ArePrinted}
use so.Client.Session.{transact}
use so.Database.{movie_init}
use so.Database.Samples.{alien, hall, hall-IsValid}
use so.Database.Valid.{IsValid}
use so.Ipc.Clients.{update, update-both}
use so.Ipc.Messages.{IsMessage, deliver}
use so.Ipc.Transport.{Transport}
use so.Libc.{atoi, codes}
use so.System.Interleaved.{IsReply, Programs, World, awaiting, awake, connected, free}
use so.System.Oversize.{list_response_too_large}
use so.System.OwnReply.{got_own_response}
use so.System.Programs.{list-IsForServer, session-transact}
use so.System.Rounds.{rounds-serve}
use so.System.Runs.{Answered, run-Answered}
use so.System.Script.{script}
use so.System.ScriptRun.{IsScriptRun, script-IsScriptRun}
use so.System.Serving.{Carries, IsRequest, Served}
use so.System.Session.{Agrees, AreApart, IsQuiet, Passed, passes, session}

abbrev junk : ℕ → ℕ
junk i = i

abbrev ipc : Ipc
ipc = record { id = 100; server_id = 7 }

apart : AreApart ipc
apart = record {
  client = (omega arith, omega arith);
  server = (omega arith, omega arith);
  apart = λ e. omega arith;
}

hall-Carries : (capacity : ℕ) → 572 ≤ capacity → Carries capacity hall
hall-Carries capacity h = record { valid = hall-IsValid; list = h; found = omega arith }

abbrev no_messages : ℕ → List Message
no_messages j = []

-- No files.
abbrev no_files : ℕ → List ℕ
no_files j = []

no_files-HoldsFiles : HoldsFiles no_files no_messages
unfolding inbox_of
no_files-HoldsFiles j = (refl, tt)

-- Two clients have sent a request for the second movie to the server's inbox.
abbrev ask : ℕ → Message
ask sender = record { sender = sender; content_length = 4; content = 2 ∷ 0 ∷ 1 ∷ 0 ∷ [] }

ask-IsRequest : (sender : ℕ) → 7 < sender → sender < 2 ^ 16 → IsRequest 7 (ask sender)
ask-IsRequest sender h k = record {
  complete = record {
    type = 2;
    typed = unfold get_u8 in refl;
    holds_buy = λ e. omega arith;
    holds_get = λ e. omega arith;
  };
  address = (omega arith, k);
  other = λ e. omega arith;
}

abbrev two_asked : List Message
two_asked = ask 101 ∷ ask 100 ∷ []

ask-IsMessage : (sender : ℕ) → sender < 2 ^ 16 → IsMessage (ask sender)
ask-IsMessage sender h = record { sender_fits = h; length_fits = omega arith; exact = refl }

rounds-serve_example :
    Served filesig 7 junk
      (update no_files 7 (inbox_of two_asked))
      hall
      (update no_messages 7 two_asked)
rounds-serve_example =
    rounds-serve filesig junk 7 (update no_files 7 (inbox_of two_asked)) hall
      (update no_messages 7 two_asked) (omega arith, omega arith)
      (update-both IsInbox no_files no_messages 7 no_files-HoldsFiles
        (refl, (ask-IsMessage 101 (omega arith), (ask-IsMessage 100 (omega arith), tt))))
      (hall-Carries (2 ^ 16) (omega arith))
      (
        ask-IsRequest 101 (omega arith) (omega arith),
        (ask-IsRequest 100 (omega arith) (omega arith), tt),
      )

-- The message queue, where the four bytes behind a message are 0.
abbrev queues : Transport
queues = mqueues (0 ∷ 0 ∷ 0 ∷ 0 ∷ []) refl

no_items-IsQuiet : IsQuiet queues []
unfolding mailbox items_of
no_items-IsQuiet = record {
  box = no_messages;
  holds = record { posts = []; items = refl; fitting = tt; boxes = λ j. refl };
  quiet = λ j. refl;
}

session-transact_example :
    Agrees queues
      (transact junk hall ipc (req_buy_ticket junk ipc 1))
      (session queues junk hall ipc (req_buy_ticket junk ipc 1) [])
session-transact_example =
    session-transact queues junk junk hall ipc
      (codes "client" ∷ codes "ipc/7" ∷ codes "buy" ∷ codes "2" ∷ []) (req_buy_ticket junk ipc 1) []
      (asks_second) (hall-Carries largest (omega arith)) no_items-IsQuiet apart
  where
    asks_second :
        main junk ipc (codes "client" ∷ codes "ipc/7" ∷ codes "buy" ∷ codes "2" ∷ [])
        ≡ requests (req_buy_ticket junk ipc 1)
    asks_second =
        main-buy junk ipc (codes "client") (codes "ipc/7") (codes "2") 1 (omega arith)
          (unfold atoi in refl)

-- Pipes without bytes.
abbrev no_bytes : ℕ → Inbox
no_bytes j = record { pipe = []; lock = 1 }

no_bytes-IsQuiet : IsQuiet fifo no_bytes
unfolding queue_bytes
no_bytes-IsQuiet = record { box = no_messages; holds = λ j. (refl, refl, tt); quiet = λ j. refl }

script-IsScriptRun_example : IsScriptRun fifo hall alien (script fifo junk junk hall ipc no_bytes)
script-IsScriptRun_example =
    script-IsScriptRun fifo junk junk hall ipc alien no_bytes (hall-Carries (2 ^ 16) (omega arith))
      (omega arith) hall-ArePrinted refl (unfold movie_init in λ e. omega arith) no_bytes-IsQuiet
      apart

list_response_too_large_example :
    ipc_send 7
      (res_movie_list junk (crowded 29) 100).recipient
      (res_movie_list junk (crowded 29) 100).message
      (res_movie_list junk (crowded 29) 100).size
      (0 ∷ 0 ∷ 0 ∷ 0 ∷ [])
      []
    ≡ none
list_response_too_large_example =
    list_response_too_large junk (0 ∷ 0 ∷ 0 ∷ 0 ∷ []) (crowded 29) 100 7 [] refl
      (crowded-IsValid 29 (omega arith)) (omega arith) (λ e. omega arith)

-- Every process asks the server for the list.
abbrev listers : Programs filesig
listers = record {
  server_id = 7;
  request = λ j. req_movie_list (record { id = j; server_id = 7 });
  address = (omega arith, omega arith);
  to_server = λ j. (list-IsForServer junk (record { id = j; server_id = 7 })).0;
  fits = λ j. record {
    size_fits = unfold req_movie_list in omega arith;
    in_memory = unfold req_movie_list list_request in omega arith;
    carried = unfold req_movie_list in omega arith;
  };
}

no_files-IsQuiet : IsQuiet filesig no_files
no_files-IsQuiet = record { box = no_messages; holds = no_files-HoldsFiles; quiet = λ j. refl }

-- The client 100 gets the list.
abbrev listed_run :
    Answered filesig junk listers no_files hall 100 (res_movie_list junk hall 100) hall
listed_run =
    run-Answered filesig junk listers no_files hall 100 no_files-IsQuiet
      (hall-Carries (2 ^ 16) (omega arith)) (omega arith, omega arith) (λ e. omega arith)
      (answer-list junk hall ipc)

got_own_response_example :
    IsReply filesig junk listers 100 (deliver 7 (res_movie_list junk hall 100))
    × IsValid listed_run.world.database
got_own_response_example =
    got_own_response filesig junk listers no_files hall listed_run.world 100 no_files-IsQuiet
      (hall-Carries (2 ^ 16) (omega arith)) listed_run.reached listed_run.has

-- The same over pipes, where the request of the client 100 is sent.
abbrev pipe_listers : Programs fifo
pipe_listers = record {
  server_id = 7;
  request = listers.request;
  address = listers.address;
  to_server = listers.to_server;
  fits = listers.fits;
}

abbrev asked_once : Passed fifo 100 7 (pipe_listers.request 100) no_bytes
asked_once =
    passes fifo 100 7 (pipe_listers.request 100) no_bytes no_bytes-IsQuiet
      (omega arith, omega arith) (omega arith, omega arith) (pipe_listers.to_server 100)
      (pipe_listers.fits 100)

abbrev waiting_world : World fifo
waiting_world = record {
  transport = asked_once.sent_state;
  database = hall;
  server = free;
  client = update (λ j. connected) 100 awaiting;
  rest = λ j. awake;
}
