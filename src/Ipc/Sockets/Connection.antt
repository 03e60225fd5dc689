-- ===== src/Ipc/Sockets/Connection.antt =====
-- Requests and responses travel on the same connection.
use so.Base.{
  List, [], append-nil, append_assoc, arith, false, refl, some, sym, true, ℕ, ℕ_discrete, ◌%◌, ◌++◌,
  ◌<◌, ◌^◌, ◌≡◌, drop-append, length, length-append, take, take-append, take_all, if◌then◌else◌,
  leb, ◌==◌,
}
use so.Actions.{Message}
use so.Bytes.{put_u16, drop-put_u16, first_u16-put_u16}
use so.Client.{request}
use so.Ipc.Clients.{update, update_self}
use so.Ipc.Sockets.Streams.{Socket, Streams, ipc_recv, ipc_send, read_message}

-- The bytes of a message on a connection.
abbrev pub frame : List ℕ → List ℕ
frame content = put_u16 (length content) ++ content

read_message-frame :
    (skt : ℕ) (content rest : List ℕ) (s : Streams)
    → length content < 2 ^ 16
    → s.incoming skt ≡ frame content ++ rest
    → read_message skt s
      ≡ some (
        record { sender = skt % 2 ^ 16; content_length = length content; content = content },
        record s { incoming = update s.incoming skt rest },
      )
unfolding read_message
read_message-frame skt content rest s small e =
    let shape : frame content ++ rest ≡ put_u16 (length content) ++ (content ++ rest) =
      append_assoc (put_u16 (length content)) content rest in
    let count : length content % 65536 ≡ length content = omega arith in
    let fits : leb (length content) (length (content ++ rest)) ≡ true =
      ground (arith, length-append content rest) in
    rw (
      e,
      shape,
      first_u16-put_u16 (length content) (content ++ rest),
      count,
      drop-put_u16 (length content) (content ++ rest),
      fits,
      take-append (length content) content rest refl,
      drop-append (length content) content rest refl,
    )

-- The server that accepts a connection with a descriptor below 2 ^ 16 reads the request that waits there,
-- and what it sends to the address of this request is written to the same connection and to no other.
pub response-connection :
    (ipc : Socket) (skt : ℕ) (request response rest : List ℕ) (s : Streams)
    → ipc.is_server ≡ true
    → skt < 2 ^ 16
    → length request < 2 ^ 16
    → s.incoming skt ≡ frame request ++ rest
    → (m : Message) × (s' : Streams) × (ipc_recv ipc skt s ≡ some (m, s'))
      × (m.content ≡ request)
      × (s'.incoming skt ≡ rest)
      × ((j : ℕ)
          → (ipc_send m.sender response (length response) s').outgoing j
            ≡ s.outgoing j ++ (if skt == j then frame response else []))
unfolding ipc_recv ipc_send
response-connection ipc skt request response rest s server low small e =
    let own : skt % 65536 ≡ skt = omega arith in
    let whole : take (length response) response ≡ response =
      take_all (length response) response (omega arith) in
    (
      record { sender = skt % 2 ^ 16; content_length = length request; content = request },
      record s { incoming = update s.incoming skt rest },
      rw server (read_message-frame skt request rest s small e),
      refl,
      update_self s.incoming skt rest,
      λ j.
          rw (own, whole)
            (elim (ℕ_discrete skt j) [
              | yes same ↦ let here : (skt == j) ≡ true = ground arith in rw (here, same) refl
              | no n ↦
                  let other : (skt == j) ≡ false = ground arith in
                  rw other (sym (append-nil (s.outgoing j)))
            ]),
    )

-- The client reads from its connection the response that the server wrote to it, whole, with the
-- descriptor of the connection as its sender.
pub client_recv-frame :
    (ipc : Socket) (accepted : ℕ) (response rest : List ℕ) (s : Streams)
    → ipc.is_server ≡ false
    → ipc.id < 2 ^ 16
    → length response < 2 ^ 16
    → s.incoming ipc.id ≡ frame response ++ rest
    → ipc_recv ipc accepted s
      ≡ some (
        record { sender = ipc.id; content_length = length response; content = response },
        record s { incoming = update s.incoming ipc.id rest },
      )
unfolding ipc_recv
client_recv-frame ipc accepted response rest s client low small e =
    let own : ipc.id % 65536 ≡ ipc.id = omega arith in
    rw client (rw own at (read_message-frame ipc.id response rest s small e))
