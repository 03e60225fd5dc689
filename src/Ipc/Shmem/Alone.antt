-- ===== src/Ipc/Shmem/Alone.antt =====
-- While one client at a time uses the transport, each gets the answer to its own request.
use so.Base.{Option, arith, none, refl, some, ℕ, ◌≡◌, ◌⊎◌}
use so.Actions.{Message}
use so.Ipc.Clients.{update, update_self}
use so.Ipc.Shmem.Protocol.{
  ClientMove, ClientPc, ServerMove, ServerPc, Shared, System, asking, await, await_read,
  await_request, await_write, begin, close, copy, copy_request, copying, done, emit, emit_answer,
  emit_request, emit_write, emitting, handling, idle, ignore, listening, reading, receiving,
  semcreate, sending, start, waiting, write, write_reply, writing,
}

-- The states that one client, alone with the server, leads to.
pub data ReachAlone (reply : Message → Option Message) (memory : Message) (i : ℕ)
    : System → Type 0 where
  here : ReachAlone reply memory i (start memory)
  serves :
      {t : System} {s : Shared} {p : ServerPc}
      → ReachAlone reply memory i t
      → ServerMove reply t.shared t.server s p
      → ReachAlone reply memory i (record t { shared = s; server = p })
  moves :
      {t : System} {s : Shared} {p : ClientPc}
      → ReachAlone reply memory i t
      → ClientMove t.shared (t.client i) s p
      → ReachAlone reply memory i (record t { shared = s; client = update t.client i p })

abbrev Values : Shared → ℕ → ℕ → ℕ → Type 0
Values s a b c = (s.client_can_write ≡ a) × (s.server_can_read ≡ b) × (s.client_can_read ≡ c)

-- The server is between two requests, before or after it lets a client write; `c` responses wait.
abbrev Between : Shared → ServerPc → ℕ → Type 0
Between s receiving c = Values s 0 0 c
Between s listening c = Values s 1 0 c
Between s _ c = ⊥

module _ (reply : Message → Option Message) where
  abbrev Stage : Shared → ClientPc → ServerPc → Type 0
  Stage s idle p = Between s p 0
  Stage s (asking req) p = Between s p 0
  Stage s (done req r) p = Between s p 0 × (reply req ≡ some r)
  Stage s (writing req) listening = Values s 0 0 0
  Stage s (sending req) listening = Values s 0 0 0 × (s.memory ≡ req)
  Stage s (waiting req) listening =
      (Values s 0 1 0 × (s.memory ≡ req))
      ⊎ (Values s 1 0 1 × (reply req ≡ some s.memory))
      ⊎ (Values s 1 0 0 × (reply req ≡ none))
  Stage s (waiting req) reading = Values s 0 0 0 × (s.memory ≡ req)
  Stage s (waiting req) (handling m) = Values s 0 0 0 × (m ≡ req)
  Stage s (waiting req) emitting = Values s 0 0 0 × (reply req ≡ some s.memory)
  Stage s (waiting req) receiving =
      (Values s 0 0 1 × (reply req ≡ some s.memory)) ⊎ (Values s 0 0 0 × (reply req ≡ none))
  Stage s (copying req) receiving = Values s 0 0 0 × (reply req ≡ some s.memory)
  Stage s (copying req) listening = Values s 1 0 0 × (reply req ≡ some s.memory)
  Stage _ _ _ = ⊥

  server-Stage :
      {s s' : Shared} {p p' : ServerPc} (c : ClientPc)
      → ServerMove reply s p s' p'
      → Stage s c p
      → Stage s' c p'
  unfolding emit await
  server-Stage c emit_write h = ground arith
  server-Stage c (await_request e) h = ground arith
  server-Stage c copy_request h = ground arith
  server-Stage c (ignore e) h = ground arith
  server-Stage c (write_reply e) h = ground arith
  server-Stage c emit_answer h = ground arith

  client-Stage :
      {s s' : Shared} {c c' : ClientPc} (p : ServerPc)
      → ClientMove s c s' c'
      → Stage s c p
      → Stage s' c' p
  unfolding emit await
  client-Stage p (begin req) h = h
  client-Stage p (await_write e) h = ground arith
  client-Stage p write h = ground arith
  client-Stage p emit_request h = ground arith
  client-Stage p (await_read e) h = ground arith
  client-Stage p copy h = ground arith
  client-Stage p close h = h.0

  alone-Stage :
      {memory : Message} {i : ℕ} {t : System}
      → ReachAlone reply memory i t
      → Stage t.shared (t.client i) t.server
  unfolding start semcreate
  alone-Stage here = (refl, refl, refl)
  alone-Stage {i} (serves {t} r mv) = server-Stage (t.client i) mv (alone-Stage r)
  alone-Stage {i} (moves {t} {p} r mv) =
      rw (update_self t.client i p) (client-Stage t.server mv (alone-Stage r))

-- In every state that one client at a time reaches, with any number of requests one after the other, what
-- the client got when its `ipc_recv` has returned is the server's answer to the request that it sent.
pub alone_own_reply :
    (reply : Message → Option Message) {memory : Message} {i : ℕ} {t : System} {req got : Message}
    → ReachAlone reply memory i t
    → t.client i ≡ done req got
    → reply req ≡ some got
alone_own_reply reply {t} {req} {got} r e = done-Stage t.server (rw e at (alone-Stage reply r))
  where
    done-Stage : (p : ServerPc) → Stage reply t.shared (done req got) p → reply req ≡ some got
    done-Stage p h = h.1
