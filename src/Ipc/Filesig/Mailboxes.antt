-- ===== src/Ipc/Filesig/Mailboxes.antt =====
-- The inbox files of src/ipc/filesig.c as mailboxes, where calls do not overlap.
use so.Base.{List, Option, [], none, refl, some, true, ℕ, ◌^◌, ◌∷◌, ◌≡◌, ◌≢◌, All}
use so.Actions.{Message, Send}
use so.Bytes.{◌>>=◌}
use so.Ipc.Clients.{update, update-both}
use so.Ipc.Filesig.Inbox.{ipc_recv, ipc_send, record_bytes}
use so.Ipc.Filesig.Stack.{inbox_of, ipc_recv-inbox_of}
use so.Ipc.Messages.{IsAddress, IsMessage, IsSend, deliver, deliver-IsMessage}
use so.Ipc.Transport.{Picks, Transport, first}

-- The file of each process, empty if there is none.
abbrev pub Files : Type 0
Files = ℕ → List ℕ

unfoldable pub send : ℕ → Send → Files → Option Files
send id s files = some (update files s.recipient (ipc_send id s.message s.size (files s.recipient)))

unfoldable pub recv : ℕ → Files → Option (Message × Files)
recv id files = do (m, rest) ← ipc_recv (files id); some (m, update files id rest)

-- A file is the stack of its messages, the last one sent on top.
abbrev pub IsInbox : List ℕ → List Message → Type 0
IsInbox file ms = (file ≡ inbox_of ms) × All IsMessage ms

abbrev pub HoldsFiles : Files → (ℕ → List Message) → Type 0
HoldsFiles files box = (j : ℕ) → IsInbox (files j) (box j)

pub send_lem :
    (id : ℕ) (s : Send) (files : Files) (box : ℕ → List Message)
    → HoldsFiles files box
    → IsAddress id
    → IsSend (2 ^ 16) s
    → (files' : Files) × (ms : List Message) × (send id s files ≡ some files')
      × Picks (deliver id s) ms (box s.recipient)
      × HoldsFiles files' (update box s.recipient ms)
unfolding send ipc_send record_bytes deliver
send_lem id s files box holds a v =
    let (is, all) = holds s.recipient in
    (
      _,
      deliver id s ∷ box s.recipient,
      refl,
      first,
      update-both IsInbox files box s.recipient holds
          (rw is (unfold inbox_of in refl), (deliver-IsMessage (2 ^ 16) id s a v, all)),
    )

pub recv_lem :
    (id : ℕ) (files : Files) (box : ℕ → List Message)
    → HoldsFiles files box
    → box id ≢ []
    → (m : Message) × (files' : Files) × (ms : List Message) × (recv id files ≡ some (m, files'))
      × Picks m (box id) ms
      × HoldsFiles files' (update box id ms)
recv_lem id files box holds filled = of_box (box id) (holds id) filled
  where
    of_box :
        (ms : List Message)
        → IsInbox (files id) ms
        → ms ≢ []
        → (m : Message) × (files' : Files) × (rest : List Message) × (recv id files
            ≡ some (m, files'))
          × Picks m ms rest
          × HoldsFiles files' (update box id rest)
    of_box [] is ne = absurd (ne refl)
    of_box (m ∷ ms) (is, all) ne =
        let e = ipc_recv-inbox_of (m ∷ ms) all in
        (
          m,
          update files id (inbox_of ms),
          ms,
          unfold recv in rw (is, e) refl,
          first,
          update-both IsInbox files box id holds (refl, all.1),
        )

pub recv_waits :
    (id : ℕ) (files : Files) (box : ℕ → List Message)
    → HoldsFiles files box
    → box id ≡ []
    → recv id files ≡ none
unfolding recv
recv_waits id files box holds empty = rw ((holds id).0, empty, ipc_recv-inbox_of [] tt) refl

-- src/ipc/filesig.c, as the server and the client use it.
abbrev pub filesig : Transport
filesig = record {
  State = Files;
  send = send;
  recv = recv;
  sleeps = true;
  capacity = 2 ^ 16;
  Holds = HoldsFiles;
  send_lem = λ id s t box h a b v. send_lem id s t box h a v;
  recv_lem = λ id t box h a ne. recv_lem id t box h ne;
  recv_waits = λ id t box h a e. recv_waits id t box h e;
}
