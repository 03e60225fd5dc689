-- ===== src/Ipc/Filesig/Settle.antt =====
-- src/ipc/filesig.c: an owner that sleeps in `ipc_recv` when a message comes returns with it.
use so.Base.{
  List, ap, arith, inl, inr, refl, some, some-injective, suc, sym, zero, ℕ, ◌+◌, ◌<◌, ◌^◌, ◌∙◌, ◌≡◌,
  ◌≢◌, ◌≤◌, length, Bool-cases, ◌==◌,
}
use so.Actions.{Message}
use so.Ipc.Filesig.Inbox.{ipc_recv, ipc_send, take_message}
use so.Ipc.Filesig.Stack.{inbox_of, recv-send, sent_message}
use so.Ipc.Filesig.Wake.{
  ReceiverMove, ReceiverPc, Waiting, finds_empty, finds_some, locking, measuring, paused,
  paused-stays, returned, takes, waiting, wake,
}

recv_filled :
    (file : List ℕ) {r : Message × List ℕ}
    → ipc_recv file ≡ some r
    → (length file ≢ 0) × (take_message (length file) file ≡ some r)
unfolding ipc_recv
recv_filled file {r} e = elim (Bool-cases (length file == 0)) [
  | inl y ↦ absurd (ground (arith, rw y at e))
  | inr n ↦ (ground (arith, n), rw n at e)
]

-- A step of the owner, or a signal of a message that was appended: no other message comes.
pub data Settles (t : Waiting) : Waiting → Type 0 where
  acts :
      {file : List ℕ} {p : ReceiverPc}
      → ReceiverMove t.file t.receiver file p
      → Settles t (record t { file = file; receiver = p })
  signalled :
      {n : ℕ} → t.signals ≡ n + 1 → Settles t (record t { receiver = wake t.receiver; signals = n })

-- Whichever of these steps are made, in whatever order, the owner returns with the message `m` after finitely
-- many of them, and leaves the file `rest`; until then a step is possible.
pub data Returns (m : Message) (rest : List ℕ) : Waiting → Type 0 where
  done : {n : ℕ} → Returns m rest (waiting rest (returned m) n)
  goes_on :
      {t : Waiting}
      → (u : Waiting) × Settles t u
      → ((u : Waiting) → Settles t u → Returns m rest u)
      → Returns m rest t

-- Every signal is taken once.
by_signals : (P : ℕ → Type 0) → ((n : ℕ) → ((k : ℕ) → n ≡ k + 1 → P k) → P n) → (n : ℕ) → P n
by_signals P step zero = step 0 (λ k h. absurd (omega (arith, h)))
by_signals P step (suc n) =
    let below : P n = by_signals P step n in
    step (suc n) (λ k h. let same : n ≡ k = omega (arith, h) in rw (← same) below)

takes-Returns :
    {file file' rest : List ℕ} {p : ReceiverPc} {m : Message} (size n : ℕ)
    → take_message size file ≡ some (m, rest)
    → ReceiverMove file (locking size) file' p
    → Returns m rest (waiting file' p n)
takes-Returns size n e (takes e') =
    let same = some-injective _ _ (sym e ∙ e') in
    rw (← ap (λ r. r.0) same, ← ap (λ r. r.1) same) done

locking-Returns :
    (size : ℕ) (file rest : List ℕ) (m : Message)
    → take_message size file ≡ some (m, rest)
    → (n : ℕ) → Returns m rest (waiting file (locking size) n)
unfolding wake
locking-Returns size file rest m e =
    by_signals (λ n. Returns m rest (waiting file (locking size) n))
      (λ n below. goes_on (_, acts (takes e)) (next n below))
  where
    next :
        (n : ℕ)
        → ((k : ℕ) → n ≡ k + 1 → Returns m rest (waiting file (locking size) k))
        → (u : Waiting) → Settles (waiting file (locking size) n) u
        → Returns m rest u
    next n below u (acts mv) = takes-Returns size n e mv
    next n below u (signalled {n = k} h) = below k h

measures-Returns :
    {file file' rest : List ℕ} {p : ReceiverPc} {m : Message} (n : ℕ)
    → length file ≢ 0
    → take_message (length file) file ≡ some (m, rest)
    → ReceiverMove file measuring file' p
    → Returns m rest (waiting file' p n)
measures-Returns n filled e (finds_empty bare) = absurd (filled bare)
measures-Returns {file} {rest} {m} n filled e (finds_some other) =
    locking-Returns (length file) file rest m e n

measuring-Returns :
    (file rest : List ℕ) (m : Message)
    → length file ≢ 0
    → take_message (length file) file ≡ some (m, rest)
    → (n : ℕ) → Returns m rest (waiting file measuring n)
unfolding wake
measuring-Returns file rest m filled e =
    by_signals (λ n. Returns m rest (waiting file measuring n))
      (λ n below. goes_on (_, acts (finds_some filled)) (next n below))
  where
    next :
        (n : ℕ)
        → ((k : ℕ) → n ≡ k + 1 → Returns m rest (waiting file measuring k))
        → (u : Waiting) → Settles (waiting file measuring n) u
        → Returns m rest u
    next n below u (acts mv) = measures-Returns n filled e mv
    next n below u (signalled {n = k} h) = below k h

paused-Returns :
    (file rest : List ℕ) (m : Message) (n : ℕ)
    → length file ≢ 0
    → take_message (length file) file ≡ some (m, rest)
    → Returns m rest (waiting file paused (n + 1))
unfolding wake
paused-Returns file rest m n filled e = goes_on (_, signalled refl) next
  where
    next : (u : Waiting) → Settles (waiting file paused (n + 1)) u → Returns m rest u
    next u (acts mv) = absurd (paused-stays file refl mv)
    next u (signalled {n = k} h) = measuring-Returns file rest m filled e k

-- The owner of an inbox file, which holds any messages, sleeps in pause, and `n` signals of earlier messages are
-- still to come. A process appends a message. From then on, as long as no other message is appended, and in
-- whatever order the signals, that of this message included, and the calls of the owner come: the owner
-- returns from `ipc_recv` with this message after finitely many of them, its inbox is then as before, and
-- until then one of them is possible.
pub send_wakes :
    (id size : ℕ) (content : List ℕ) (ms : List Message) (n : ℕ)
    → id < 2 ^ 16
    → size < 2 ^ 16
    → size ≤ length content
    → Returns
        (sent_message id content size)
        (inbox_of ms)
        (waiting (ipc_send id content size (inbox_of ms)) paused (n + 1))
send_wakes id size content ms n a b c =
    let popped = (recv-send id size content ms a b c).1 in
    let (filled, taken) = recv_filled (ipc_send id content size (inbox_of ms)) popped in
    paused-Returns (ipc_send id content size (inbox_of ms)) (inbox_of ms)
      (sent_message id content size) n filled taken
