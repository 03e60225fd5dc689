-- ===== src/Ipc/Filesig/Tests.antt =====
-- The inbox file with short messages.
use so.Base.{List, [], arith, refl, some, ℕ, ◌∷◌, ◌≡◌, take}
use so.Actions.{Message}
use so.Ipc.Filesig.Inbox.{ipc_recv, ipc_send}
use so.Ipc.Filesig.Race.{late_send_loses, recv_late}
use so.Ipc.Filesig.Settle.{Returns, send_wakes}
use so.Ipc.Filesig.Stack.{inbox_of, message_bytes, recv-send}
use so.Ipc.Filesig.Wake.{ReceiverMove, ReceiverPc, Steps, measuring, paused, waiting, wakeup_lost}
use so.Ipc.Messages.{IsMessage}

abbrev hello : Message
hello = record { sender = 5; content_length = 2; content = 8 ∷ 9 ∷ [] }

hello-IsMessage : IsMessage hello
hello-IsMessage = record { sender_fits = omega arith; length_fits = omega arith; exact = refl }

abbrev late : Message
late = record { sender = 6; content_length = 1; content = 7 ∷ [] }

late-IsMessage : IsMessage late
late-IsMessage = record { sender_fits = omega arith; length_fits = omega arith; exact = refl }

recv-send_example :
    (ipc_send 6 (7 ∷ 0 ∷ []) 1 (inbox_of (hello ∷ [])) ≡ inbox_of (late ∷ hello ∷ []))
    × (ipc_recv (ipc_send 6 (7 ∷ 0 ∷ []) 1 (inbox_of (hello ∷ [])))
        ≡ some (late, inbox_of (hello ∷ [])))
recv-send_example =
    recv-send 6 1 (7 ∷ 0 ∷ []) (hello ∷ []) (omega arith) (omega arith) (omega arith)

late_send_loses_example :
    recv_late (message_bytes hello) (message_bytes late) ≡ some (late, take 1 (message_bytes hello))
late_send_loses_example = late_send_loses hello late hello-IsMessage late-IsMessage (omega arith)

send_wakes_example :
    Returns late
      (inbox_of (hello ∷ []))
      (waiting (ipc_send 6 (7 ∷ 0 ∷ []) 1 (inbox_of (hello ∷ []))) paused 3)
send_wakes_example =
    send_wakes 6 1 (7 ∷ 0 ∷ []) (hello ∷ []) 2 (omega arith) (omega arith) (omega arith)

wakeup_lost_example :
    Steps (waiting [] measuring 0) (waiting (ipc_send 6 (7 ∷ []) 1 []) paused 0)
    × (ipc_recv (ipc_send 6 (7 ∷ []) 1 []) ≡ some (late, []))
    × ((file' : List ℕ) (p : ReceiverPc) → ¬ ReceiverMove (ipc_send 6 (7 ∷ []) 1 []) paused file' p)
wakeup_lost_example = wakeup_lost 6 1 (7 ∷ []) (omega arith) (omega arith) (omega arith)
