-- ===== src/Ipc/Fifo/Writers.antt =====
-- Processes that call `ipc_send` of src/ipc/fifo.c on one inbox, and its owner, who calls `ipc_recv`.
use so.Base.{List, Option, [], none, some, ℕ, ◌++◌, ◌+◌, ◌-◌, ◌<◌, ◌∷◌, ◌≡◌, if◌then◌else◌, ◌==◌}
use so.Actions.{Message}
use so.Bytes.{put_u16}
use so.Ipc.Clients.{update}
use so.Ipc.Fifo.Pipe.{ipc_recv}
use so.Ipc.Messages.{IsMessage}

-- Where a writer stands in `ipc_send`.
pub data WriterPc : Type 0 where
  idle : WriterPc
  acquiring : Message → WriterPc  -- before acquire(lock)
  at_id : Message → WriterPc  -- before write(inbox, &(ipc->id))
  at_length : Message → WriterPc  -- before write(inbox, &length)
  at_content : Message → WriterPc  -- before write(inbox, content)
  releasing : WriterPc  -- before release(lock)

-- The bytes in the pipe and the value of the lock's semaphore.
pub record Inbox : Type 0 where
  pub pipe : List ℕ
  pub lock : ℕ

-- `acquire` on the lock: at 0 the process waits (none).
unfoldable pub acquire : Inbox → Option Inbox
acquire b = if b.lock == 0 then none else some (record b { lock = b.lock - 1 })

unfoldable pub release : Inbox → Inbox
release b = record b { lock = b.lock + 1 }

-- A step of one writer; a write appends its bytes.
pub data WriterMove (b : Inbox) : WriterPc → Inbox → WriterPc → Type 0 where
  begin : (m : Message) → IsMessage m → 0 < m.content_length → WriterMove b idle b (acquiring m)
  locks : {m : Message} {b' : Inbox} → acquire b ≡ some b' → WriterMove b (acquiring m) b' (at_id m)
  write_id :
      {m : Message}
      → WriterMove b (at_id m) (record b { pipe = b.pipe ++ put_u16 m.sender }) (at_length m)
  write_length :
      {m : Message}
      → WriterMove b
          (at_length m)
          (record b { pipe = b.pipe ++ put_u16 m.content_length })
          (at_content m)
  write_content :
      {m : Message}
      → WriterMove b (at_content m) (record b { pipe = b.pipe ++ m.content }) releasing
  unlocks : WriterMove b releasing (release b) idle

-- `sent` lists the messages whose content has been written, in the order of these writes; `received`
-- the messages that the owner has read.
pub record System : Type 0 where
  pub inbox : Inbox
  pub writer : ℕ → WriterPc
  pub sent : List Message
  pub received : List Message

-- What a step of a writer adds to `sent`.
abbrev pub completes : WriterPc → List Message
completes (at_content m) = m ∷ []
completes _ = []

pub data Step (t : System) : System → Type 0 where
  writes :
      (i : ℕ) {b : Inbox} {p : WriterPc}
      → WriterMove t.inbox (t.writer i) b p
      → Step t (record t {
        inbox = b;
        writer = update t.writer i p;
        sent = t.sent ++ completes (t.writer i);
      })
  reads :
      {m : Message} {rest : List ℕ}
      → ipc_recv t.inbox.pipe ≡ some (m, rest)
      → Step t
          (record t { inbox = record t.inbox { pipe = rest }; received = t.received ++ m ∷ [] })

-- `ipc_create` makes the pipe and sets its lock to 1.
unfoldable pub ipc_create : System
ipc_create = record {
  inbox = record { pipe = []; lock = 1 };
  writer = λ i. idle;
  sent = [];
  received = [];
}

pub data Reach : System → Type 0 where
  here : Reach ipc_create
  next : {t u : System} → Reach t → Step t u → Reach u
