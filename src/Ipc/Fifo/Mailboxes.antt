-- ===== src/Ipc/Fifo/Mailboxes.antt =====
-- The pipes of src/ipc/fifo.c as mailboxes, where calls do not overlap.
use so.Base.{
  List, Option, [], append_assoc, arith, false, none, refl, some, ℕ, ◌++◌, ◌+◌, ◌-◌, ◌^◌, ◌∷◌, ◌≡◌,
  ◌≢◌, All, length, take, ◌==◌,
}
use so.Actions.{Message, Send}
use so.Bytes.{put_u16, ◌>>=◌}
use so.Ipc.Clients.{update, update-both}
use so.Ipc.Fifo.Pipe.{ipc_recv, queue_bytes, queue_bytes-append, recv-front, recv_empty}
use so.Ipc.Fifo.Writers.{Inbox, acquire, release}
use so.Ipc.Messages.{IsAddress, IsMessage, IsSend, deliver, deliver-IsMessage}
use so.Ipc.Transport.{All-append, Picks, Picks-last, Transport, first}

-- `ipc_send` as a whole; none while another process has the lock.
unfoldable pub ipc_send : ℕ → List ℕ → ℕ → Inbox → Option Inbox
ipc_send id content length b = do
  locked ← acquire b
  some (
      release (record locked {
        pipe = ((locked.pipe ++ put_u16 id) ++ put_u16 length) ++ take length content;
      }))

-- The pipe of each process and its lock.
abbrev pub Pipes : Type 0
Pipes = ℕ → Inbox

unfoldable pub send : ℕ → Send → Pipes → Option Pipes
send id s pipes = do
  inbox ← ipc_send id s.message s.size (pipes s.recipient)
  some (update pipes s.recipient inbox)

unfoldable pub recv : ℕ → Pipes → Option (Message × Pipes)
recv id pipes = do
  (m, rest) ← ipc_recv (pipes id).pipe
  some (m, update pipes id (record (pipes id) { pipe = rest }))

abbrev pub IsInbox : Inbox → List Message → Type 0
IsInbox b ms = (b.lock ≡ 1) × (b.pipe ≡ queue_bytes ms) × All IsMessage ms

abbrev pub HoldsPipes : Pipes → (ℕ → List Message) → Type 0
HoldsPipes pipes box = (j : ℕ) → IsInbox (pipes j) (box j)

ipc_send-IsInbox :
    (id : ℕ) (s : Send) (b : Inbox) (ms : List Message)
    → IsInbox b ms
    → IsMessage (deliver id s)
    → (b' : Inbox) × (ipc_send id s.message s.size b ≡ some b')
      × IsInbox b' (ms ++ deliver id s ∷ [])
unfolding ipc_send acquire release
ipc_send-IsInbox id s b ms (lock, pipe, all) new =
    let free : (b.lock == 0) ≡ false = ground arith in
    (
      record {
        pipe = ((b.pipe ++ put_u16 id) ++ put_u16 s.size) ++ take s.size s.message;
        lock = b.lock - 1 + 1;
      },
      rw free refl,
      (
        omega arith,
        rw (pipe, queue_bytes-append ms (deliver id s)) (unfold deliver in simp append_assoc),
        All-append IsMessage ms all new,
      ),
    )

pub send_lem :
    (id : ℕ) (s : Send) (pipes : Pipes) (box : ℕ → List Message)
    → HoldsPipes pipes box
    → IsAddress id
    → IsSend (2 ^ 16) s
    → (pipes' : Pipes) × (ms : List Message) × (send id s pipes ≡ some pipes')
      × Picks (deliver id s) ms (box s.recipient)
      × HoldsPipes pipes' (update box s.recipient ms)
unfolding send
send_lem id s pipes box holds a v =
    let (b, e, is) =
      ipc_send-IsInbox id s (pipes s.recipient) (box s.recipient) (holds s.recipient)
        (deliver-IsMessage (2 ^ 16) id s a v) in
    (
      update pipes s.recipient b,
      box s.recipient ++ deliver id s ∷ [],
      rw e refl,
      Picks-last (box s.recipient) (deliver id s),
      update-both IsInbox pipes box s.recipient holds is,
    )

pub recv_lem :
    (id : ℕ) (pipes : Pipes) (box : ℕ → List Message)
    → HoldsPipes pipes box
    → box id ≢ []
    → (m : Message) × (pipes' : Pipes) × (ms : List Message) × (recv id pipes ≡ some (m, pipes'))
      × Picks m (box id) ms
      × HoldsPipes pipes' (update box id ms)
unfolding recv queue_bytes
recv_lem id pipes box holds filled = of_box (box id) (holds id) filled
  where
    of_box :
        (ms : List Message)
        → IsInbox (pipes id) ms
        → ms ≢ []
        → (m : Message) × (pipes' : Pipes) × (rest : List Message) × (recv id pipes
            ≡ some (m, pipes'))
          × Picks m ms rest
          × HoldsPipes pipes' (update box id rest)
    of_box [] is ne = absurd (ne refl)
    of_box (m ∷ ms) (lock, pipe, all) ne =
        let e : ipc_recv (pipes id).pipe ≡ some (m, queue_bytes ms) =
          rw pipe (recv-front m (queue_bytes ms) all.0) in
        (m, _, ms, rw e refl, first, update-both IsInbox pipes box id holds (lock, refl, all.1))

pub recv_waits :
    (id : ℕ) (pipes : Pipes) (box : ℕ → List Message)
    → HoldsPipes pipes box
    → box id ≡ []
    → recv id pipes ≡ none
unfolding recv queue_bytes
recv_waits id pipes box holds nothing =
    let bare : (pipes id).pipe ≡ [] = rw nothing at (holds id).1 in rw (bare, recv_empty) refl

-- src/ipc/fifo.c, as the server and the client use it.
abbrev pub fifo : Transport
fifo = record {
  State = Pipes;
  send = send;
  recv = recv;
  sleeps = false;
  capacity = 2 ^ 16;
  Holds = HoldsPipes;
  send_lem = λ id s t box h a b v. send_lem id s t box h a v;
  recv_lem = λ id t box h a ne. recv_lem id t box h ne;
  recv_waits = λ id t box h a e. recv_waits id t box h e;
}
