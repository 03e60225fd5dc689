-- ===== src/Ipc/Fifo/Order.antt =====
-- What holds in every state that the writers and the reader of one pipe reach.
use so.Base.{
  List, [], append-nil, append_assoc, arith, inl, inr, none, refl, some, sym, ℕ, ◌++◌, ◌+◌, ◌-◌,
  ◌<◌, ◌∙◌, ◌∷◌, ◌≡◌, ◌⊎◌,
}
use so.Actions.{Message}
use so.Bytes.{put_u16}
use so.Ipc.Fifo.Pipe.{
  ipc_recv, pipe_bytes, queue_bytes, queue_bytes-append, recv-front, recv-header, recv-sender,
  recv_empty,
}
use so.Ipc.Fifo.Writers.{
  Inbox, WriterMove, WriterPc, acquire, acquiring, at_content, at_id, at_length, begin, completes,
  idle, locks, release, releasing, unlocks, write_content, write_id, write_length,
}
use so.Ipc.Messages.{IsMessage}

-- A message as a caller passes it: its content is not empty.
abbrev pub IsWhole : Message → Type 0
IsWhole m = IsMessage m × (0 < m.content_length)

abbrev pub AreWhole : List Message → Type 0
AreWhole [] = Unit
AreWhole (m ∷ ms) = IsWhole m × AreWhole ms

AreWhole-append :
    (ms : List Message) (m : Message) → AreWhole ms → IsWhole m → AreWhole (ms ++ m ∷ [])
AreWhole-append [] m all new = (new, tt)
AreWhole-append (x ∷ ms) m all new = (all.0, AreWhole-append ms m all.1 new)

-- A writer without the lock, and the one that holds it.
abbrev pub Outside : WriterPc → Type 0
Outside idle = Unit
Outside (acquiring m) = IsWhole m
Outside _ = ⊥

abbrev pub Inside : WriterPc → Type 0
Inside (at_id m) = IsWhole m
Inside (at_length m) = IsWhole m
Inside (at_content m) = IsWhole m
Inside releasing = Unit
Inside _ = ⊥

-- The bytes of a message that is not complete.
abbrev pub partial : WriterPc → List ℕ
partial (at_length m) = put_u16 m.sender
partial (at_content m) = put_u16 m.sender ++ put_u16 m.content_length
partial _ = []

-- The pipe holds the messages that are sent and not received, and then `part`.
pub record Holds (pipe : List ℕ) (sent received : List Message) (part : List ℕ) : Type 0 where
  pub pending : List Message
  pub whole : AreWhole pending
  pub order : sent ≡ received ++ pending
  pub bytes : pipe ≡ queue_bytes pending ++ part

Holds-write :
    {pipe : List ℕ} {sent received : List Message} {part : List ℕ} (new : List ℕ)
    → Holds pipe sent received part
    → Holds (pipe ++ new) (sent ++ []) received (part ++ new)
Holds-write {sent} {part} new h = record {
  pending = h.pending;
  whole = h.whole;
  order = append-nil sent ∙ h.order;
  bytes = rw (h.bytes) (append_assoc (queue_bytes h.pending) part new);
}

Holds-complete :
    {pipe : List ℕ} {sent received : List Message} (m : Message)
    → IsWhole m
    → Holds pipe sent received (put_u16 m.sender ++ put_u16 m.content_length)
    → Holds (pipe ++ m.content) (sent ++ m ∷ []) received []
Holds-complete {pipe} {sent} {received} m new h = record {
  pending = h.pending ++ m ∷ [];
  whole = AreWhole-append h.pending m h.whole new;
  order = rw (h.order) (append_assoc received h.pending (m ∷ []));
  bytes = rw (h.bytes, queue_bytes-append h.pending m) (simp (append_assoc, append-nil));
}

-- What the reader takes is the message that was sent first of those it has not taken.
read-pending :
    {pipe rest part : List ℕ} {sent : List Message} {m : Message} (received ms : List Message)
    → ipc_recv part ≡ none
    → ipc_recv pipe ≡ some (m, rest)
    → AreWhole ms
    → sent ≡ received ++ ms
    → pipe ≡ queue_bytes ms ++ part
    → Holds rest sent (received ++ m ∷ []) part
unfolding queue_bytes
read-pending received [] blocked got whole order bytes = absurd (cc)
read-pending {pipe} {rest} {part} {sent} {m} received (x ∷ ms) blocked got whole order bytes =
    let front : ipc_recv pipe ≡ some (x, queue_bytes ms ++ part) =
      rw (bytes, append_assoc (pipe_bytes x) (queue_bytes ms) part)
        (recv-front x (queue_bytes ms ++ part) whole.0.0) in
    let same : m ≡ x = cc in
    record {
      pending = ms;
      whole = whole.1;
      order = order ∙ rw (same) (sym (append_assoc received (x ∷ []) ms));
      bytes = cc;
    }

pub Holds-read :
    {pipe rest part : List ℕ} {sent received : List Message} {m : Message}
    → ipc_recv part ≡ none
    → ipc_recv pipe ≡ some (m, rest)
    → Holds pipe sent received part
    → Holds rest sent (received ++ m ∷ []) part
Holds-read {received} blocked got h =
    read-pending received h.pending blocked got h.whole h.order h.bytes

pub partial-waits : (p : WriterPc) → Inside p → ipc_recv (partial p) ≡ none
partial-waits (at_id m) h = recv_empty
partial-waits (at_length m) h = recv-sender m.sender
partial-waits (at_content m) h = recv-header m h.0 h.1
partial-waits releasing h = recv_empty
partial-waits idle h = absurd h
partial-waits (acquiring m) h = absurd h

acquire-some :
    (b b' : Inbox)
    → acquire b ≡ some b'
    → (0 < b.lock) × (b'.lock ≡ b.lock - 1) × (b'.pipe ≡ b.pipe)
unfolding acquire
acquire-some b b' e = ground arith

-- A writer without the lock leaves the pipe as it is, and may take the lock.
pub Outside-move :
    {b b' : Inbox} {p p' : WriterPc} {sent received : List Message} {part : List ℕ}
    → WriterMove b p b' p'
    → Outside p
    → Holds b.pipe sent received part
    → Holds b'.pipe (sent ++ completes p) received part
      × ((Outside p' × (b'.lock ≡ b.lock))
          ⊎ ((0 < b.lock) × (b'.lock ≡ b.lock - 1) × Inside p' × (partial p' ≡ [])))
Outside-move {b} {sent} (begin m v filled) o h = (rw (append-nil sent) h, inl ((v, filled), refl))
Outside-move {b} {b'} {sent} (locks e) o h =
    let (free, taken, same) = acquire-some b b' e in
    (rw (append-nil sent, same) h, inr (free, taken, o, refl))
Outside-move write_id o h = absurd o
Outside-move write_length o h = absurd o
Outside-move write_content o h = absurd o
Outside-move unlocks o h = absurd o

-- The writer with the lock writes the next part, or gives the lock back.
pub Inside-move :
    {b b' : Inbox} {p p' : WriterPc} {sent received : List Message}
    → WriterMove b p b' p'
    → Inside p
    → Holds b.pipe sent received (partial p)
    → Holds b'.pipe (sent ++ completes p) received (partial p')
      × ((Inside p' × (b'.lock ≡ b.lock))
          ⊎ (Outside p' × (b'.lock ≡ b.lock + 1) × (partial p' ≡ [])))
Inside-move (begin m v filled) o h = absurd o
Inside-move (locks e) o h = absurd o
Inside-move (write_id {m}) o h = (Holds-write (put_u16 m.sender) h, inl (o, refl))
Inside-move (write_length {m}) o h = (Holds-write (put_u16 m.content_length) h, inl (o, refl))
Inside-move (write_content {m}) o h = (Holds-complete m o h, inl (tt, refl))
Inside-move {sent} unlocks o h = unfold release in (rw (append-nil sent) h, inr (tt, refl, refl))
