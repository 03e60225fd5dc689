-- ===== src/Ipc/Filesig/Stack.antt =====
-- An inbox is a stack of messages: the last one sent is received first.
use so.Base.{
  List, [], ap, append_assoc, arith, false, none, refl, some, true, ℕ, ◌++◌, ◌+◌, ◌-◌, ◌<◌, ◌^◌,
  ◌∙◌, ◌∷◌, ◌≡◌, ◌≤◌, All, drop, drop-append, length, length-append, length-take, take, take-append,
  leb, ◌==◌,
}
use so.Actions.{Message}
use so.Bytes.{first_u16, put_u16, first_u16-put_u16, first_u16-put_u16_last}
use so.Ipc.Filesig.Inbox.{ipc_recv, ipc_send, record_bytes, seek_end, take_message, truncate}
use so.Ipc.Messages.{IsMessage}

abbrev pub message_bytes : Message → List ℕ
message_bytes m = m.content ++ (put_u16 m.sender ++ put_u16 m.content_length)

-- The file for a stack of messages, the top first.
unfoldable pub inbox_of : List Message → List ℕ
inbox_of [] = []
inbox_of (m ∷ ms) = inbox_of ms ++ message_bytes m

pub length-message_bytes :
    (m : Message) → IsMessage m → length (message_bytes m) ≡ 4 + m.content_length
unfolding put_u16
length-message_bytes m v =
    omega (arith, v.exact, length-append m.content (put_u16 m.sender ++ put_u16 m.content_length))

module _ (rest : List ℕ) (m : Message) (v : IsMessage m) where
  inbox : List ℕ
  inbox = rest ++ message_bytes m

  length-inbox : length inbox ≡ length rest + (4 + m.content_length)
  unfolding inbox
  length-inbox = omega (arith, length-append rest (message_bytes m), length-message_bytes m v)

  header_at : seek_end inbox 4 0 ≡ length (rest ++ m.content)
  unfolding seek_end
  header_at =
      let inside : leb 4 (length inbox) ≡ true = ground (arith, length-inbox) in
      rw inside (omega (arith, length-inbox, length-append rest m.content, v.exact))

  drop_header :
      drop (length (rest ++ m.content)) inbox ≡ put_u16 m.sender ++ put_u16 m.content_length
  unfolding inbox
  drop_header =
      rw (← append_assoc) (drop-append (length (rest ++ m.content)) (rest ++ m.content) _ refl)

  drop-length : drop (length (rest ++ m.content) + 2) inbox ≡ put_u16 m.content_length
  unfolding inbox
  drop-length =
      let shape : rest ++ message_bytes m
          ≡ ((rest ++ m.content) ++ put_u16 m.sender) ++ put_u16 m.content_length =
        simp append_assoc in
      rw shape (
        drop-append (length (rest ++ m.content) + 2) ((rest ++ m.content) ++ put_u16 m.sender) _
          (unfold put_u16 in length-append (rest ++ m.content) (put_u16 m.sender)))

  content_at : seek_end inbox (4 + m.content_length) (length (rest ++ m.content) + 4) ≡ length rest
  unfolding seek_end
  content_at =
      let inside : leb (4 + m.content_length) (length inbox) ≡ true =
        ground (arith, length-inbox) in
      rw inside (omega (arith, length-inbox))

  content_read : take m.content_length (drop (length rest) inbox) ≡ m.content
  unfolding inbox
  content_read =
      rw (drop-append (length rest) rest (message_bytes m) refl)
        (take-append m.content_length m.content _ v.exact)

  -- The message on top is read whatever `size` was measured before.
  take_message-top :
      (size : ℕ) → take_message size inbox ≡ some (m, truncate inbox size (4 + m.content_length))
  unfolding take_message
  take_message-top size =
      let sender : first_u16 (put_u16 m.sender ++ put_u16 m.content_length) ≡ some m.sender =
        first_u16-put_u16 m.sender (put_u16 m.content_length)
        ∙ ap some (omega (arith, v.sender_fits)) in
      let count : first_u16 (put_u16 m.content_length) ≡ some m.content_length =
        first_u16-put_u16_last m.content_length ∙ ap some (omega (arith, v.length_fits)) in
      rw (header_at, drop_header, sender, drop-length, count, content_at, content_read)

  truncated : truncate inbox (length inbox) (4 + m.content_length) ≡ rest
  unfolding truncate
  truncated =
      let inside : leb (4 + m.content_length) (length inbox) ≡ true =
        ground (arith, length-inbox) in
      let size : length inbox - (4 + m.content_length) ≡ length rest =
        omega (arith, length-inbox) in
      rw (inside, size) (unfold inbox in take-append (length rest) rest (message_bytes m) refl)

pub take_message-append :
    (rest : List ℕ) (m : Message) (size : ℕ)
    → IsMessage m
    → take_message size (rest ++ message_bytes m)
      ≡ some (m, truncate (rest ++ message_bytes m) size (4 + m.content_length))
unfolding inbox
take_message-append rest m size v = take_message-top rest m v size

-- What a sender appends is the message with its address.
abbrev pub sent_message : ℕ → List ℕ → ℕ → Message
sent_message id content size = record {
  sender = id;
  content_length = size;
  content = take size content;
}

sent_message-IsMessage :
    (id size : ℕ) (content : List ℕ)
    → id < 2 ^ 16
    → size < 2 ^ 16
    → size ≤ length content
    → IsMessage (sent_message id content size)
sent_message-IsMessage id size content a b c = record {
  sender_fits = a;
  length_fits = b;
  exact = omega (arith, length-take size content);
}

-- A receiver that is alone with the inbox takes the message on top and leaves the others.
recv-top :
    (m : Message) (rest : List ℕ)
    → IsMessage m
    → ipc_recv (rest ++ message_bytes m) ≡ some (m, rest)
unfolding ipc_recv inbox
recv-top m rest v =
    let filled : (length (rest ++ message_bytes m) == 0) ≡ false =
      ground (arith, length-inbox rest m v) in
    rw (filled, take_message-top rest m v (length (rest ++ message_bytes m)), truncated rest m v)

-- `ipc_send` pushes a message on the inbox, and `ipc_recv` pops it: on the file that holds the messages
-- `ms`, the top first, a send of `size` bytes and then a receive give the sender's address, the size and
-- these bytes, and leave the file of `ms`.
pub recv-send :
    (id size : ℕ) (content : List ℕ) (ms : List Message)
    → id < 2 ^ 16
    → size < 2 ^ 16
    → size ≤ length content
    → (ipc_send id content size (inbox_of ms) ≡ inbox_of (sent_message id content size ∷ ms))
      × (ipc_recv (ipc_send id content size (inbox_of ms))
          ≡ some (sent_message id content size, inbox_of ms))
unfolding ipc_send record_bytes inbox_of
recv-send id size content ms a b c = (
  refl,
  recv-top (sent_message id content size) (inbox_of ms)
      (sent_message-IsMessage id size content a b c),
)

-- On the file of a stack of messages, `ipc_recv` waits exactly when the stack is empty, and else takes the
-- last message that was sent.
pub ipc_recv-inbox_of :
    (ms : List Message)
    → All IsMessage ms
    → ipc_recv (inbox_of ms) ≡ elim ms [ [] ↦ none | m ∷ rest ↦ some (m, inbox_of rest) ]
unfolding inbox_of ipc_recv
ipc_recv-inbox_of [] v = refl
ipc_recv-inbox_of (m ∷ ms) v = unfold inbox_of in recv-top m (inbox_of ms) v.0
