-- ===== src/Ipc/Fifo/Whole.antt =====
-- src/ipc/fifo.c: the lock keeps the messages of different writers apart.
use so.Base.{
  List, [], append_assoc, arith, inl, inr, refl, some, sym, ℕ, ℕ_discrete, ◌++◌, ◌∙◌, ◌∷◌, ◌≡◌, ◌≢◌,
  ◌⊎◌,
}
use so.Actions.{Message}
use so.Ipc.Clients.{update, update-ne, update_self}
use so.Ipc.Fifo.Order.{
  AreWhole, Holds, Holds-read, Inside, Outside, Inside-move, Outside-move, partial, partial-waits,
}
use so.Ipc.Fifo.Pipe.{ipc_recv, pipe_bytes, queue_bytes, recv-front, recv_empty}
use so.Ipc.Fifo.Writers.{
  Inbox, Reach, Step, System, WriterMove, WriterPc, completes, here, ipc_create, next, reads,
  writes,
}
use so.Ipc.Mqueues.{given}

-- Nobody has the lock, or one writer has it and what it has written of its message ends the pipe.
abbrev IsFree : System → Type 0
IsFree t =
    Holds t.inbox.pipe t.sent t.received [] × (t.inbox.lock ≡ 1) × ((j : ℕ) → Outside (t.writer j))

abbrev IsTaken : System → Type 0
IsTaken t =
    (i : ℕ) × Holds t.inbox.pipe t.sent t.received (partial (t.writer i))
    × (t.inbox.lock ≡ 0)
    × Inside (t.writer i)
    × ((j : ℕ) → i ≢ j → Outside (t.writer j))

IsOrdered : System → Type 0
IsOrdered t = IsFree t ⊎ IsTaken t

update-all :
    (f : ℕ → WriterPc) (i : ℕ) (p : WriterPc)
    → ((j : ℕ) → i ≢ j → Outside (f j))
    → Outside p
    → (j : ℕ) → Outside (update f i p j)
update-all f i p others own j = elim (ℕ_discrete i j) [
  | yes e ↦ rw (← e, update_self f i p) own
  | no n ↦ rw (update-ne f i p j n) (others j n)
]

update-others :
    (f : ℕ → WriterPc) (i : ℕ) (p : WriterPc)
    → ((j : ℕ) → i ≢ j → Outside (f j))
    → (j : ℕ) → i ≢ j
    → Outside (update f i p j)
update-others f i p others j n = rw (update-ne f i p j n) (others j n)

update-one :
    (f : ℕ → WriterPc) (i : ℕ) (p : WriterPc) (j : ℕ)
    → Outside (f j)
    → Outside p
    → Outside (update f i p j)
update-one f i p j old new = elim (ℕ_discrete i j) [
  | yes e ↦ rw (← e, update_self f i p) new
  | no n ↦ rw (update-ne f i p j n) old
]

-- The state after a step of writer `i`.
abbrev after : System → ℕ → Inbox → WriterPc → System
after t i b p = record t {
  inbox = b;
  writer = update t.writer i p;
  sent = t.sent ++ completes (t.writer i);
}

move-IsFree :
    (t : System) (i : ℕ) {b : Inbox} {p : WriterPc}
    → WriterMove t.inbox (t.writer i) b p
    → IsFree t
    → IsFree (after t i b p) ⊎ IsTaken (after t i b p)
move-IsFree t i {b} {p} mv (h, lock, out) =
    let (h', step) = Outside-move mv (out i) h in
    elim step [
      | inl (o, same) ↦ inl (h', same ∙ lock, update-all t.writer i p (λ j n. out j) o)
      | inr (free, taken, inside, nothing) ↦ inr (
        i,
        rw (update_self t.writer i p, nothing) h',
        omega arith,
        rw (update_self t.writer i p) inside,
        update-others t.writer i p (λ j n. out j),
      )
    ]

move-IsTaken :
    (t : System) (i : ℕ) {b : Inbox} {p : WriterPc}
    → WriterMove t.inbox (t.writer i) b p
    → IsTaken t
    → IsFree (after t i b p) ⊎ IsTaken (after t i b p)
move-IsTaken t i {b} {p} mv (k, h, lock, inside, out) = elim (ℕ_discrete k i) [
  | yes e ↦
      let (h', step) = Inside-move mv (rw e at inside) (rw e at h) in
      elim step [
        | inl (inside', same) ↦ inr (
          i,
          rw (update_self t.writer i p) h',
          same ∙ lock,
          rw (update_self t.writer i p) inside',
          update-others t.writer i p (λ j m. out j (rw e m)),
        )
        | inr (o, given, nothing) ↦
            inl (rw (← nothing) h', omega arith, update-all t.writer i p (λ j m. out j (rw e m)) o)
      ]
  | no n ↦
      let (h', step) = Outside-move mv (out i n) h in
      let apart : i ≢ k = λ e. n (sym e) in
      elim step [
        | inl (o, same) ↦ inr (
          k,
          rw (update-ne t.writer i p k apart) h',
          same ∙ lock,
          rw (update-ne t.writer i p k apart) inside,
          λ j m. update-one t.writer i p j (out j m) o,
        )
        | inr (free, taken, holds, nothing) ↦ absurd (omega arith)
      ]
]

Step-IsOrdered : {t u : System} → Step t u → IsOrdered t → IsOrdered u
unfolding IsOrdered
Step-IsOrdered {t} (writes i mv) (inl free) = move-IsFree t i mv free
Step-IsOrdered {t} (writes i mv) (inr taken) = move-IsTaken t i mv taken
Step-IsOrdered {t} (reads got) (inl (h, lock, out)) = inl (Holds-read recv_empty got h, lock, out)
Step-IsOrdered {t} (reads got) (inr (i, h, lock, inside, out)) =
    inr (i, Holds-read (partial-waits (t.writer i) inside) got h, lock, inside, out)

Reach-IsOrdered : {t : System} → Reach t → IsOrdered t
unfolding IsOrdered ipc_create queue_bytes
Reach-IsOrdered here =
    inl (record { pending = []; whole = tt; order = refl; bytes = refl }, refl, λ j. tt)
Reach-IsOrdered (next r st) = Step-IsOrdered st (Reach-IsOrdered r)

-- In every state that any number of writers and the reader reach, in any order of their writes: the
-- messages received are the first of the messages sent, each whole and in the order sent.
pub received_in_order :
    {t : System} → Reach t → (pending : List Message) × (t.sent ≡ t.received ++ pending)
unfolding IsOrdered
received_in_order r = elim (Reach-IsOrdered r) [
  | inl (h, lock, out) ↦ (h.pending, h.order)
  | inr (i, h, lock, inside, out) ↦ (h.pending, h.order)
]

append-cancel : (xs ys zs : List Message) → xs ++ ys ≡ xs ++ zs → ys ≡ zs
append-cancel [] ys zs e = e
append-cancel (x ∷ xs) ys zs e = append-cancel xs ys zs (ground arith)

Holds-front :
    (pipe : List ℕ) (all got : List Message) (part : List ℕ) (m : Message) (ms : List Message)
    → all ≡ got ++ m ∷ ms
    → Holds pipe all got part
    → (rest : List ℕ) × (ipc_recv pipe ≡ some (m, rest))
Holds-front pipe all got part m ms e h =
    let is : h.pending ≡ m ∷ ms = append-cancel got h.pending (m ∷ ms) (sym h.order ∙ e) in
    let whole : AreWhole (m ∷ ms) = rw is at h.whole in
    let bytes : pipe ≡ queue_bytes (m ∷ ms) ++ part = rw is at h.bytes in
    (
      queue_bytes ms ++ part,
      rw bytes (
          unfold queue_bytes in
          rw (append_assoc (pipe_bytes m) (queue_bytes ms) part)
            (recv-front m (queue_bytes ms ++ part) whole.0.0)),
    )

-- In every such state, if a message is sent and not received, then a call of `ipc_recv` does not wait, also
-- while another writer is between two writes: it returns the first of these messages.
pub sent_is_received :
    {t : System} (m : Message) (ms : List Message)
    → Reach t
    → t.sent ≡ t.received ++ m ∷ ms
    → (rest : List ℕ) × (ipc_recv t.inbox.pipe ≡ some (m, rest))
unfolding IsOrdered
sent_is_received {t} m ms r e = elim (Reach-IsOrdered r) [
  | inl (h, lock, out) ↦ Holds-front t.inbox.pipe t.sent t.received [] m ms e h
  | inr (i, h, lock, inside, out) ↦
      Holds-front t.inbox.pipe t.sent t.received (partial (t.writer i)) m ms e h
]
