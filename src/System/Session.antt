-- ===== src/System/Session.antt =====
-- A client's `main` and one round of the server, over any transport.
-- The state holds no messages.
use so.Base.{
  List, Option, [], ap, arith, inl, inr, none, refl, some, sym, ℕ, ℕ_discrete, ◌∙◌, ◌∷◌, ◌≡◌, ◌≢◌,
  length, Option-cases,
}
use so.Actions.{Print, Ipc, Message, Send}
use so.Bytes.{◌>>=◌}
use so.Client.{handle_response, request}
use so.Client.Session.{receive, transact}
use so.Database.{Database}
use so.Ipc.Clients.{update, update-ne, update_self}
use so.Ipc.Messages.{IsAddress, IsSend, deliver}
use so.Ipc.Transport.{Picks, Transport, first, later, length-Picks}
use so.Server.{answer}
use so.Server.Rounds.{answer-Round}
use so.Server.Sizes.{Answers, Round-Answers}
use so.System.Serving.{Carries, post}

pub record IsQuiet (T : Transport) (t : T.State) : Type 0 where
  pub box : ℕ → List Message
  pub holds : T.Holds t box
  pub quiet : (j : ℕ) → box j ≡ []

-- A request and its response, up to the client's `ipc_recv`, where the server does `respond` with a message.
unfoldable pub exchange :
    (T : Transport)
    → (Message → Option (Option Send × Database))
    → Ipc
    → Send
    → T.State
    → Option (Message × Database × T.State)
exchange T respond ipc request t = do
  t1 ← T.send ipc.id request t
  (asked, t2) ← T.recv ipc.server_id t1
  (response, db') ← respond asked
  t3 ← post T ipc.server_id response t2
  (answered, t4) ← T.recv ipc.id t3
  some (answered, db', t4)

-- The client behind its command line, and the server's round.
unfoldable pub session :
    (T : Transport)
    → (ℕ → ℕ)
    → Database
    → Ipc
    → Send
    → T.State
    → Option (List Print × Database × T.State)
session T junk db ipc request t = do
  (msg, db', t') ← exchange T (answer junk db) ipc request t
  printed ← handle_response msg
  some (printed, db', t')

-- Two different processes.
pub record AreApart (ipc : Ipc) : Type 0 where
  pub client : IsAddress ipc.id
  pub server : IsAddress ipc.server_id
  pub apart : ipc.id ≢ ipc.server_id

module _ (T : Transport) where
  -- A message that is sent while there is none, and received.
  pub record Passed (id to : ℕ) (s : Send) (t : T.State) : Type 0 where
    pub sent_state : T.State
    pub after : T.State
    pub sends : T.send id s t ≡ some sent_state
    pub receives : T.recv to sent_state ≡ some (deliver id s, after)
    pub quiet : IsQuiet T after

  pub passes :
      (id to : ℕ) (s : Send) (t : T.State)
      → IsQuiet T t
      → IsAddress id
      → IsAddress to
      → s.recipient ≡ to
      → IsSend T.capacity s
      → Passed id to s t
  passes id to s t q a b at_it v =
      let (t1, ms, e1, p1, h1) = T.send_lem id s t q.box q.holds a (rw at_it b) v in
      let box1 : ℕ → List Message = update q.box s.recipient ms in
      let own : box1 s.recipient ≡ deliver id s ∷ [] =
        update_self q.box s.recipient ms ∙ of_empty (rw (q.quiet s.recipient) at p1) in
      let single : box1 to ≡ deliver id s ∷ [] = rw (← at_it) own in
      let (m, t2, rest, e2, p2, h2) = T.recv_lem to t1 box1 h1 b (λ none_left. cc) in
      let (same, bare) = of_single p2 single in
      record {
        sent_state = t1;
        after = t2;
        sends = e1;
        receives = rw same at e2;
        quiet = record { box = update box1 to rest; holds = h2; quiet = left_over rest ms bare };
      }
    where
      of_empty : {m : Message} {ms : List Message} → Picks m ms [] → ms ≡ m ∷ []
      of_empty first = refl

      of_single :
          {m d : Message} {ms rest : List Message}
          → Picks m ms rest
          → ms ≡ d ∷ []
          → (m ≡ d) × (rest ≡ [])
      of_single first e = (ground arith, ground arith)
      of_single (later {x} {ms} {rest} p) e = absurd (ground (arith, length-Picks p, ap length e))

      left_over :
          (rest ms : List Message)
          → rest ≡ []
          → (j : ℕ) → update (update q.box s.recipient ms) to rest j ≡ []
      left_over rest ms bare j = elim (ℕ_discrete to j) [
        | yes e ↦ rw (← e, update_self (update q.box s.recipient ms) to rest) bare
        | no n ↦
            rw
              (
                update-ne (update q.box s.recipient ms) to rest j n,
                update-ne q.box s.recipient ms j (λ e. n (sym at_it ∙ e)),
              )
              (q.quiet j)
      ]

module _ (T : Transport) (respond : Message → Option (Option Send × Database)) (ipc : Ipc)
    (request : Send) (t : T.State) (q : IsQuiet T t) (far : AreApart ipc)
    (to : request.recipient ≡ ipc.server_id) (v : IsSend T.capacity request) where
  asks : Passed T ipc.id ipc.server_id request t
  asks = passes T ipc.id ipc.server_id request t q far.client far.server to v

  -- The server does not come back from its work on the request.
  pub exchange-crash :
      respond (deliver ipc.id request) ≡ none → exchange T respond ipc request t ≡ none
  unfolding exchange
  exchange-crash e = rw (asks.sends, asks.receives, e) refl

  -- The server sends nothing, and the client waits.
  pub exchange-silent :
      {db' : Database}
      → respond (deliver ipc.id request) ≡ some (none, db')
      → exchange T respond ipc request t ≡ none
  unfolding exchange post
  exchange-silent e =
      let waits_on =
        T.recv_waits ipc.id asks.after asks.quiet.box asks.quiet.holds far.client
          (asks.quiet.quiet ipc.id) in
      rw (asks.sends, asks.receives, e, waits_on) refl

  -- The client gets the response.
  pub exchange-reply :
      {db' : Database} {s : Send}
      → respond (deliver ipc.id request) ≡ some (some s, db')
      → Answers T.capacity ipc.id (some s)
      → (t' : T.State) × (exchange T respond ipc request t
          ≡ some (deliver ipc.server_id s, db', t'))
        × IsQuiet T t'
  unfolding exchange post
  exchange-reply {db'} {s} e (back, w) =
      let p : Passed T ipc.server_id ipc.id s asks.after =
        passes T ipc.server_id ipc.id s asks.after asks.quiet far.server far.client back w in
      (p.after, rw (asks.sends, asks.receives, e, p.sends, p.receives) refl, p.quiet)

-- `r` is what a run over the transport gives where `expected` is what is printed and the database left; none
-- where there is no result.
abbrev pub Agrees :
    (T : Transport)
    → Option (List Print × Database)
    → Option (List Print × Database × T.State)
    → Type 0
Agrees T none r = r ≡ none
Agrees T (some (printed, db')) r = (t' : T.State) × (r ≡ some (printed, db', t')) × IsQuiet T t'

module _ (T : Transport) (junk : ℕ → ℕ) (db : Database) (ipc : Ipc) (request : Send) (t : T.State)
    (c : Carries T.capacity db) (q : IsQuiet T t) (far : AreApart ipc)
    (to : request.recipient ≡ ipc.server_id) (v : IsSend T.capacity request) where
  by_round :
      (round : Option (Option Send × Database))
      → answer junk db (deliver ipc.id request) ≡ round
      → Agrees T (transact junk db ipc request) (session T junk db ipc request t)
  unfolding session transact receive deliver
  by_round none e = rw (e, exchange-crash T (answer junk db) ipc request t q far to v e) refl
  by_round (some (none, db')) e =
      rw (e, exchange-silent T (answer junk db) ipc request t q far to v e) refl
  by_round (some (some s, db')) e =
      let fits : Answers T.capacity ipc.id (some s) =
        Round-Answers T.capacity (answer-Round junk db (deliver ipc.id request) e) c.valid c.list
          c.found in
      let (t', done, quiet) = exchange-reply T (answer junk db) ipc request t q far to v e fits in
      elim (Option-cases (handle_response (deliver ipc.server_id s))) [
        | inl n ↦ rw (e, done, n) refl
        | inr (printed, n) ↦ rw (e, done, n) (t', refl, quiet)
      ]

  -- With no messages in the transport, a request to the server gives over the transport what it gives without.
  pub session-Agrees : Agrees T (transact junk db ipc request) (session T junk db ipc request t)
  session-Agrees = by_round (answer junk db (deliver ipc.id request)) refl
