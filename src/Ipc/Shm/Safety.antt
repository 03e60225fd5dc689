-- ===== src/Ipc/Shm/Safety.antt =====
-- What holds in every state that the processes reach, for any number of clients.
use so.Base.{
  Bool, Option, arith, false, inl, inr, refl, some, sym, true, ℕ, ℕ_discrete, ◌∙◌, ◌≡◌, ◌≢◌, ◌⊎◌,
}
use so.Actions.{Message}
use so.Ipc.Clients.{update, update-ne, update_self}
use so.Ipc.Shm.Ring.{
  init_posix, inc, listen_posix, ClientMove, ClientPc, Reach, ServerPc, Shared, Step, System,
  copying, done, here, idle, init_systemv, listening, moves, next, reading, replying, serves, start,
  writing,
}
use so.Ipc.Shm.Turn.{
  Outside, Turn, Values, free-client, free-server, Turn-client, Turn-other, Turn-server,
}

-- The memory is being copied from or to.
abbrev pub client_uses : ClientPc → Bool
client_uses (writing req) = true
client_uses (copying req) = true
client_uses _ = false

abbrev pub server_uses : ServerPc → Bool
server_uses reading = true
server_uses (replying r) = true
server_uses _ = false

module _ (reply : Message → Option Message) where
  -- Either nobody has the turn, or one client has it; all other clients are outside.
  abbrev IsFree : System → Type 0
  IsFree t =
      (t.server ≡ listening) × Values t.shared 1 0 0 0 × ((j : ℕ) → Outside reply (t.client j))

  abbrev IsTaken : System → Type 0
  IsTaken t =
      (i : ℕ) × Turn reply t.shared (t.client i) t.server
      × ((j : ℕ) → i ≢ j → Outside reply (t.client j))

  update-Outside :
      (f : ℕ → ClientPc) (i : ℕ) (p : ClientPc)
      → ((j : ℕ) → i ≢ j → Outside reply (f j))
      → Outside reply p
      → (j : ℕ) → Outside reply (update f i p j)
  update-Outside f i p others own j = elim (ℕ_discrete i j) [
    | yes e ↦ rw (← e, update_self f i p) own
    | no n ↦ rw (update-ne f i p j n) (others j n)
  ]

  others-update :
      (f : ℕ → ClientPc) (i : ℕ) (p : ClientPc)
      → ((j : ℕ) → i ≢ j → Outside reply (f j))
      → (j : ℕ) → i ≢ j
      → Outside reply (update f i p j)
  others-update f i p others j n = rw (update-ne f i p j n) (others j n)

  update-within :
      (f : ℕ → ClientPc) (i : ℕ) (p : ClientPc) (j : ℕ)
      → Outside reply (f j)
      → Outside reply p
      → Outside reply (update f i p j)
  update-within f i p j old new = elim (ℕ_discrete i j) [
    | yes e ↦ rw (← e, update_self f i p) new
    | no n ↦ rw (update-ne f i p j n) old
  ]

  client-Free :
      (t : System) (i : ℕ) {s : Shared} {p : ClientPc}
      → ClientMove t.shared (t.client i) s p
      → IsFree t
      → IsFree (record t { shared = s; client = update t.client i p })
        ⊎ IsTaken (record t { shared = s; client = update t.client i p })
  client-Free t i {s} {p} mv (at, values, out) = elim (free-client reply mv (out i) values) [
    | inl (o, v) ↦ inl (at, v, update-Outside t.client i p (λ j n. out j) o)
    | inr turn ↦
        inr (i, rw (update_self t.client i p, at) turn, others-update t.client i p (λ j n. out j))
  ]

  client-Taken :
      (t : System) (i : ℕ) {s : Shared} {p : ClientPc}
      → ClientMove t.shared (t.client i) s p
      → IsTaken t
      → IsFree (record t { shared = s; client = update t.client i p })
        ⊎ IsTaken (record t { shared = s; client = update t.client i p })
  client-Taken t i {s} {p} mv (k, turn, out) = elim (ℕ_discrete k i) [
    | yes e ↦ elim (Turn-client reply t.server mv (rw e at turn)) [
      | inl turn' ↦ inr (
        i,
        rw (update_self t.client i p) turn',
        others-update t.client i p (λ j m. out j (rw e m)),
      )
      | inr (o, v, at) ↦ inl (at, v, update-Outside t.client i p (λ j m. out j (rw e m)) o)
    ]
    | no n ↦
        let (o, same) = Turn-other reply t.server (t.client k) mv (out i n) turn in
        inr (
          k,
          rw (update-ne t.client i p k (λ e. n (sym e)), same) turn,
          λ j m. update-within t.client i p j (out j m) o,
        )
  ]

  IsSafe : System → Type 0
  IsSafe t = IsFree t ⊎ IsTaken t

  Step-IsSafe : {t u : System} → Step reply t u → IsSafe t → IsSafe u
  unfolding IsSafe
  Step-IsSafe {t} (serves mv) (inl (at, values, out)) = absurd (free-server reply mv at values)
  Step-IsSafe {t} (serves mv) (inr (i, turn, out)) =
      inr (i, Turn-server reply (t.client i) mv turn, out)
  Step-IsSafe {t} (moves i mv) (inl free) = client-Free t i mv free
  Step-IsSafe {t} (moves i mv) (inr taken) = client-Taken t i mv taken

  Reach-IsSafe : {memory : Message} {t : System} → Reach reply memory t → IsSafe t
  unfolding IsSafe start init_systemv
  Reach-IsSafe here = inl (refl, (refl, refl, refl, refl), λ j. tt)
  Reach-IsSafe (next r st) = Step-IsSafe st (Reach-IsSafe r)

  Outside-idle : (c : ClientPc) → Outside reply c → client_uses c ≡ false
  Outside-idle idle o = refl
  Outside-idle _ o = ground arith

  -- The client that has the turn does not use the memory while the server does.
  Turn-exclusive :
      (s : Shared) (c : ClientPc) (p : ServerPc)
      → Turn reply s c p
      → client_uses c ≡ true
      → server_uses p ≡ false
  Turn-exclusive s c p h u = ground arith

  done-Turn : (s : Shared) (req got : Message) (p : ServerPc) → ¬ Turn reply s (done req got) p
  done-Turn s req got p h = h

-- In every reachable state, whatever the number of clients and the order of steps: what a client got when
-- its `ipc_recv` has returned is the server's answer to the request that this client sent.
pub got_own_reply :
    (reply : Message → Option Message) {memory : Message} {t : System} (i : ℕ) {req got : Message}
    → Reach reply memory t
    → t.client i ≡ done req got
    → reply req ≡ some got
unfolding IsSafe
got_own_reply reply {t} i {req} {got} r e = elim (Reach-IsSafe reply r) [
  | inl (at, values, out) ↦ rw e at (out i)
  | inr (k, turn, out) ↦ elim (ℕ_discrete k i) [
    | yes same ↦ absurd (done-Turn reply t.shared req got t.server (rw (same, e) at turn))
    | no n ↦ rw e at (out i n)
  ]
]

-- In every reachable state at most one process copies to or from the shared memory: not two clients, and
-- no client while the server does.
pub memory_exclusive :
    (reply : Message → Option Message) {memory : Message} {t : System} (i j : ℕ)
    → Reach reply memory t
    → client_uses (t.client i) ≡ true
    → (server_uses t.server ≡ false) × ((i ≡ j) ⊎ (client_uses (t.client j) ≡ false))
unfolding IsSafe
memory_exclusive reply {t} i j r u = elim (Reach-IsSafe reply r) [
  | inl (at, values, out) ↦ absurd (cc (Outside-idle reply (t.client i) (out i)))
  | inr (k, turn, out) ↦ elim (ℕ_discrete k i) [
    | no n ↦ absurd (cc (Outside-idle reply (t.client i) (out i n)))
    | yes same ↦ (
      Turn-exclusive reply t.shared (t.client i) t.server (rw same at turn) u,
      elim (ℕ_discrete k j) [
        | yes also ↦ inl (sym same ∙ also)
        | no n ↦ inr (Outside-idle reply (t.client j) (out j n))
      ],
    )
  ]
]

-- The two files set up the same semaphores: creating them at 0 and then `inc(CLIENT_WRITE)`, as
-- shmposix.c does, leaves the state that shmsystemv.c sets at once.
pub listen_posix-eq : (memory : Message) → listen_posix memory ≡ init_systemv memory
unfolding listen_posix init_posix init_systemv inc
listen_posix-eq memory = refl
