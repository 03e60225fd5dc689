-- ===== src/Ipc/Fifo/Tests.antt =====
-- The pipe after one message of one writer.
use so.Base.{List, [], arith, refl, some, ℕ, ◌++◌, ◌∷◌, ◌≡◌}
use so.Actions.{Message}
use so.Bytes.{put_u16}
use so.Ipc.Clients.{update}
use so.Ipc.Fifo.Delivery.{closes, creates, events, is_open, no_inbox, send-delivers, sends_to}
use so.Ipc.Fifo.Locks.{completes, ipc_send}
use so.Ipc.Fifo.Pipe.{ipc_recv}
use so.Ipc.Fifo.Whole.{received_in_order, sent_is_received}
use so.Ipc.Fifo.Writers.{
  Reach, System, WriterPc, acquire, acquiring, at_content, at_id, at_length, begin, here, idle,
  ipc_create, locks, next, release, releasing, unlocks, write_content, write_id, write_length,
  writes,
}
use so.Ipc.Messages.{IsMessage}

abbrev hello : Message
hello = record { sender = 5; content_length = 1; content = 9 ∷ [] }

hello-IsMessage : IsMessage hello
hello-IsMessage = record { sender_fits = omega arith; length_fits = omega arith; exact = refl }

-- The writer 3 has sent its message, and the writer 4 has the lock and has written its address.
abbrev writers : ℕ → WriterPc
writers =
    let w =
      update (update (update (λ i. idle) 3 (acquiring hello)) 3 (at_id hello)) 3
        (at_length hello) in
    let w' = update (update (update w 3 (at_content hello)) 3 releasing) 3 idle in
    update (update (update w' 4 (acquiring hello)) 4 (at_id hello)) 4 (at_length hello)

abbrev half_written : System
half_written = record {
  inbox = record { pipe = 5 ∷ 0 ∷ 1 ∷ 0 ∷ 9 ∷ 5 ∷ 0 ∷ []; lock = 0 };
  writer = writers;
  sent = hello ∷ [];
  received = [];
}

Reach-half_written : Reach half_written
unfolding ipc_create put_u16 acquire release
Reach-half_written =
    let free = next here (writes 3 (begin hello hello-IsMessage (omega arith))) in
    let locked = next free (writes 3 (locks refl)) in
    let headed = next (next locked (writes 3 write_id)) (writes 3 write_length) in
    let sent = next (next headed (writes 3 write_content)) (writes 3 unlocks) in
    let again = next sent (writes 4 (begin hello hello-IsMessage (omega arith))) in
    next (next again (writes 4 (locks refl))) (writes 4 write_id)

received_in_order_example : (pending : List Message) × (hello ∷ [] ≡ [] ++ pending)
received_in_order_example = received_in_order Reach-half_written

sent_is_received_example :
    (rest : List ℕ) × (ipc_recv (5 ∷ 0 ∷ 1 ∷ 0 ∷ 9 ∷ 5 ∷ 0 ∷ []) ≡ some (hello, rest))
sent_is_received_example = sent_is_received hello [] Reach-half_written refl

-- To the inbox of 3, whose owner closed it and came again, and to that of 4, which closed it.
send-delivers_example :
    ((ipc_send 3 (
        events
          (creates 3
            ∷ sends_to 4
            ∷ sends_to 3
            ∷ creates 4
            ∷ closes 3
            ∷ sends_to 3
            ∷ closes 4
            ∷ creates 3
            ∷ [])
          no_inbox)).0
      ≡ completes)
unfolding is_open
send-delivers_example =
    send-delivers
      (creates 3
        ∷ sends_to 4
        ∷ sends_to 3
        ∷ creates 4
        ∷ closes 3
        ∷ sends_to 3
        ∷ closes 4
        ∷ creates 3
        ∷ [])
      3
