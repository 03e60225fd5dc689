-- ===== src/Ipc/Shmem/Overwrite.antt =====
-- With two clients a response can be overwritten before its client reads it.
use so.Base.{Option, refl, some, sym, ℕ, ◌∙◌, ◌≡◌, ◌≢◌}
use so.Actions.{Message}
use so.Ipc.Clients.{update, update-ne, update_self}
use so.Ipc.Shmem.Protocol.{
  ClientMove, ClientPc, Reach, ServerMove, ServerPc, Shared, System, asking, await, await_read,
  await_request, await_write, begin, copy, copy_request, done, emit, emit_answer, emit_request,
  emit_write, here, listening, moves, next, receiving, semcreate, sending, serves, start, waiting,
  write, write_reply,
}

module _ (reply : Message → Option Message) (memory : Message) (a b : ℕ) (ne : a ≢ b) where
  -- A state is reached in which the shared part, the server and the clients `a` and `b` are these.
  record At (s : Shared) (p : ServerPc) (ca cb : ClientPc) : Type 0 where
    system : System
    reach : Reach reply memory system
    shared_is : system.shared ≡ s
    server_is : system.server ≡ p
    a_is : system.client a ≡ ca
    b_is : system.client b ≡ cb

  serve :
      {s s' : Shared} {p p' : ServerPc} {ca cb : ClientPc}
      → ServerMove reply s p s' p'
      → At s p ca cb
      → At s' p' ca cb
  serve {s'} {p'} mv t = record {
    system = record t.system { shared = s'; server = p' };
    reach = next t.reach (serves (rw (t.shared_is, t.server_is) mv));
    shared_is = refl;
    server_is = refl;
    a_is = t.a_is;
    b_is = t.b_is;
  }

  step_a :
      {s s' : Shared} {p : ServerPc} {ca ca' cb : ClientPc}
      → ClientMove s ca s' ca'
      → At s p ca cb
      → At s' p ca' cb
  step_a {s'} {ca'} mv t = record {
    system = record t.system { shared = s'; client = update t.system.client a ca' };
    reach = next t.reach (moves a (rw (t.shared_is, t.a_is) mv));
    shared_is = refl;
    server_is = t.server_is;
    a_is = update_self t.system.client a ca';
    b_is = update-ne t.system.client a ca' b ne ∙ t.b_is;
  }

  step_b :
      {s s' : Shared} {p : ServerPc} {ca cb cb' : ClientPc}
      → ClientMove s cb s' cb'
      → At s p ca cb
      → At s' p ca cb'
  step_b {s'} {cb'} mv t = record {
    system = record t.system { shared = s'; client = update t.system.client b cb' };
    reach = next t.reach (moves b (rw (t.shared_is, t.b_is) mv));
    shared_is = refl;
    server_is = t.server_is;
    a_is = update-ne t.system.client b cb' a (λ e. ne (sym e)) ∙ t.a_is;
    b_is = update_self t.system.client b cb';
  }

  values : ℕ → ℕ → ℕ → Message → Shared
  values w s c m = record {
    client_can_write = w;
    server_can_read = s;
    client_can_read = c;
    memory = m;
  }

  module _ (req_a req_b r : Message) (answers : reply req_a ≡ some r) where
    asked : At (values 0 0 0 memory) receiving (asking req_a) (asking req_b)
    unfolding values start semcreate
    asked = step_b (begin req_b) (
        step_a (begin req_a) (record {
          system = start memory;
          reach = here;
          shared_is = refl;
          server_is = refl;
          a_is = refl;
          b_is = refl;
        }))

    -- `a` writes its request, the server takes it, and its response is in the memory.
    requested : At (values 0 1 0 req_a) listening (waiting req_a) (asking req_b)
    unfolding values emit await
    requested =
        step_a emit_request (step_a write (step_a (await_write refl) (serve emit_write asked)))

    answered : At (values 0 0 1 r) receiving (waiting req_a) (asking req_b)
    unfolding values emit await
    answered =
        serve emit_answer
          (serve (write_reply answers) (serve copy_request (serve (await_request refl) requested)))

    -- The server is back in `ipc_recv` and lets the next client write, before `a` has read.
    overwritten : At (values 0 0 1 req_b) listening (waiting req_a) (sending req_b)
    unfolding values emit await
    overwritten = step_b write (step_b (await_write refl) (serve emit_write answered))

    misled : At (values 0 0 0 req_b) listening (done req_a req_b) (sending req_b)
    unfolding values emit await
    misled = step_a copy (step_a (await_read refl) overwritten)

-- For all two different clients and all requests: there is an order of steps after which client `a`, whose
-- request the server answers, has got the request of client `b` in place of the answer. So more than
-- one message is in use at a time.
pub response_overwritten :
    (reply : Message → Option Message) (memory : Message) (a b : ℕ) (req_a req_b r : Message)
    → a ≢ b
    → reply req_a ≡ some r
    → (t : System) × Reach reply memory t × (t.client a ≡ done req_a req_b)
response_overwritten reply memory a b req_a req_b r ne answers =
    let at = misled reply memory a b ne req_a req_b r answers in (at.system, at.reach, at.a_is)
