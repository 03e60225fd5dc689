-- ===== src/Ipc/Shm/Turn.antt =====
-- The turn: what holds while one client is between its write to the memory and its return.
use so.Base.{Option, arith, inl, inr, none, refl, some, ℕ, ◌≡◌, ◌⊎◌}
use so.Actions.{Message}
use so.Ipc.Shm.Ring.{
  ClientMove, ClientPc, ServerMove, ServerPc, Shared, acking, asking, begin, close, copy,
  copy_request, copying, dec, dec_read, dec_reply, dec_request, dec_write, done, emitting, handling,
  idle, ignore, inc, inc_answer, inc_reply, inc_request, inc_write, leaving, listening, reading,
  replying, sending, waiting, write, write_reply, writing,
}

abbrev pub Values : Shared → ℕ → ℕ → ℕ → ℕ → Type 0
Values s a b c d =
    (s.client_write ≡ a) × (s.server_read ≡ b) × (s.client_read ≡ c) × (s.server_write ≡ d)

-- The message on its way to the client, if the request has an answer.
abbrev pub IsReply : (Message → Option Message) → Message → Message → Type 0
IsReply reply req r = reply req ≡ some r

-- The client and the server while the client has the turn.
abbrev pub Turn : (Message → Option Message) → Shared → ClientPc → ServerPc → Type 0
Turn reply s (writing req) listening = Values s 0 0 0 0
Turn reply s (sending req) listening = Values s 0 0 0 0 × (s.memory ≡ req)
Turn reply s (waiting req) listening =
    (Values s 0 1 0 0 × (s.memory ≡ req))
    ⊎ (Values s 0 0 1 0 × IsReply reply req s.memory)
    ⊎ (Values s 0 0 0 1 × (reply req ≡ none))
Turn reply s (waiting req) reading = Values s 0 0 0 0 × (s.memory ≡ req)
Turn reply s (waiting req) (acking m) = Values s 0 0 0 0 × (m ≡ req)
Turn reply s (waiting req) (handling m) = Values s 0 0 0 1 × (m ≡ req)
Turn reply s (waiting req) (replying r) = Values s 0 0 0 0 × IsReply reply req r
Turn reply s (waiting req) (emitting r) = Values s 0 0 0 0 × IsReply reply req r × (s.memory ≡ r)
Turn reply s (copying req) listening = Values s 0 0 0 0 × IsReply reply req s.memory
Turn reply s (leaving req r) listening = Values s 0 0 0 0 × IsReply reply req r
Turn _ _ _ _ = ⊥

-- A client without the turn. What it got, if it is done, is the answer to its request.
abbrev pub Outside : (Message → Option Message) → ClientPc → Type 0
Outside reply idle = Unit
Outside reply (asking req) = Unit
Outside reply (done req r) = IsReply reply req r
Outside reply _ = ⊥

module _ (reply : Message → Option Message) where
  -- While no client has the turn the server waits.
  pub free-server :
      {s s' : Shared} {p p' : ServerPc}
      → ServerMove reply s p s' p'
      → p ≡ listening
      → ¬ Values s 1 0 0 0
  unfolding dec
  free-server (dec_request e) is f = ground arith
  free-server copy_request is f = cc
  free-server inc_reply is f = cc
  free-server (ignore e) is f = cc
  free-server (dec_reply r e) is f = cc
  free-server write_reply is f = cc
  free-server inc_answer is f = cc

  -- A client without the turn stays so, or takes it.
  pub free-client :
      {s s' : Shared} {p p' : ClientPc}
      → ClientMove s p s' p'
      → Outside reply p
      → Values s 1 0 0 0
      → (Outside reply p' × Values s' 1 0 0 0) ⊎ Turn reply s' p' listening
  unfolding dec
  free-client (begin req) o f = inl (tt, f)
  free-client (dec_write e) o f = inr (ground arith)
  free-client write o f = absurd o
  free-client inc_request o f = absurd o
  free-client (dec_read e) o f = absurd o
  free-client copy o f = absurd o
  free-client inc_write o f = absurd o
  free-client close o f = inl (tt, f)

  -- The server, and the client that has the turn, keep it; the client may give it back.
  pub Turn-server :
      {s s' : Shared} {p p' : ServerPc} (c : ClientPc)
      → ServerMove reply s p s' p'
      → Turn reply s c p
      → Turn reply s' c p'
  unfolding dec inc
  Turn-server c (dec_request e) h = ground arith
  Turn-server c copy_request h = ground arith
  Turn-server c inc_reply h = ground arith
  Turn-server c (ignore e) h = ground arith
  Turn-server c (dec_reply r e) h = ground arith
  Turn-server c write_reply h = ground arith
  Turn-server c inc_answer h = ground arith

  pub Turn-client :
      {s s' : Shared} {c c' : ClientPc} (p : ServerPc)
      → ClientMove s c s' c'
      → Turn reply s c p
      → Turn reply s' c' p ⊎ (Outside reply c' × Values s' 1 0 0 0 × (p ≡ listening))
  unfolding dec inc
  Turn-client p (begin req) h = absurd h
  Turn-client p (dec_write e) h = absurd h
  Turn-client p write h = inl (ground arith)
  Turn-client p inc_request h = inl (ground arith)
  Turn-client p (dec_read e) h = inl (ground arith)
  Turn-client p copy h = inl (ground arith)
  Turn-client p inc_write h = inr (ground arith)
  Turn-client p close h = absurd h

  -- Another client cannot take the turn, and does not touch the semaphores or the memory.
  pub Turn-other :
      {s s' : Shared} {c c' : ClientPc} (p : ServerPc) (holder : ClientPc)
      → ClientMove s c s' c'
      → Outside reply c
      → Turn reply s holder p
      → Outside reply c' × (s' ≡ s)
  unfolding dec
  Turn-other p holder (begin req) o h = (tt, refl)
  Turn-other p holder (dec_write e) o h = ground arith
  Turn-other p holder write o h = absurd o
  Turn-other p holder inc_request o h = absurd o
  Turn-other p holder (dec_read e) o h = absurd o
  Turn-other p holder copy o h = absurd o
  Turn-other p holder inc_write o h = absurd o
  Turn-other p holder close o h = (tt, refl)
