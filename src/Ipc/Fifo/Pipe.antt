-- ===== src/Ipc/Fifo/Pipe.antt =====
-- src/ipc/fifo.c: `ipc_recv` on the bytes in a pipe.
use so.Base.{
  List, Option, [], append-nil, append_assoc, arith, false, none, refl, some, sym, true, ℕ, ◌%◌,
  ◌++◌, ◌<◌, ◌∷◌, ◌≡◌, drop, drop-append, length, length-append, take, take-append, if◌then◌else◌,
  leb,
}
use so.Actions.{Message}
use so.Bytes.{first_u16, put_u16, ◌>>=◌, drop-put_u16, first_u16-put_u16, first_u16-put_u16_last}
use so.Ipc.Messages.{IsMessage}

-- The two reads of the header and the read of the content. A read of bytes that no writer has written
-- yet waits (none).
unfoldable pub ipc_recv : List ℕ → Option (Message × List ℕ)
ipc_recv inbox = do
  sender ← first_u16 inbox
  content_length ← first_u16 (drop 2 inbox)
  let rest = drop 4 inbox
  if leb content_length (length rest)
      then some (
        record {
          sender = sender;
          content_length = content_length;
          content = take content_length rest;
        },
        drop content_length rest,
      )
      else none

-- The header and the content, as the three writes of `ipc_send` leave them in the pipe.
abbrev pub pipe_bytes : Message → List ℕ
pipe_bytes m = put_u16 m.sender ++ (put_u16 m.content_length ++ m.content)

unfoldable pub queue_bytes : List Message → List ℕ
queue_bytes [] = []
queue_bytes (m ∷ ms) = pipe_bytes m ++ queue_bytes ms

drop_header : (a b : ℕ) (r : List ℕ) → drop 4 (put_u16 a ++ (put_u16 b ++ r)) ≡ r
unfolding put_u16
drop_header a b r = refl

-- `ipc_recv` takes the message at the front of the pipe.
pub recv-front :
    (m : Message) (rest : List ℕ) → IsMessage m → ipc_recv (pipe_bytes m ++ rest) ≡ some (m, rest)
unfolding ipc_recv
recv-front m rest v =
    let body = m.content ++ rest in
    let shape : pipe_bytes m ++ rest ≡ put_u16 m.sender ++ (put_u16 m.content_length ++ body) =
      simp append_assoc in
    let fits : leb m.content_length (length body) ≡ true =
      ground (arith, v.exact, length-append m.content rest) in
    let sender : m.sender % 65536 ≡ m.sender = omega (arith, v.sender_fits) in
    let count : m.content_length % 65536 ≡ m.content_length = omega (arith, v.length_fits) in
    rw (
      shape,
      first_u16-put_u16 m.sender (put_u16 m.content_length ++ body),
      sender,
      drop-put_u16 m.sender (put_u16 m.content_length ++ body),
      first_u16-put_u16 m.content_length body,
      count,
      drop_header m.sender m.content_length body,
      fits,
      take-append m.content_length m.content rest v.exact,
      drop-append m.content_length m.content rest v.exact,
    )

-- A header whose content is not written yet makes the reader wait.
pub recv-header :
    (m : Message)
    → IsMessage m
    → 0 < m.content_length
    → ipc_recv (put_u16 m.sender ++ put_u16 m.content_length) ≡ none
unfolding ipc_recv
recv-header m v filled =
    let waits : leb m.content_length 0 ≡ false = ground arith in
    let count : m.content_length % 65536 ≡ m.content_length = omega (arith, v.length_fits) in
    let empty : drop 4 (put_u16 m.sender ++ put_u16 m.content_length) ≡ [] =
      unfold put_u16 in refl in
    rw (
      first_u16-put_u16 m.sender (put_u16 m.content_length),
      drop-put_u16 m.sender (put_u16 m.content_length),
      first_u16-put_u16_last m.content_length,
      count,
      empty,
      waits,
    )

pub recv-sender : (n : ℕ) → ipc_recv (put_u16 n) ≡ none
unfolding ipc_recv put_u16 first_u16
recv-sender n = refl

pub recv_empty : ipc_recv [] ≡ none
unfolding ipc_recv first_u16
recv_empty = refl

pub queue_bytes-append :
    (ms : List Message) (m : Message) → queue_bytes (ms ++ m ∷ []) ≡ queue_bytes ms ++ pipe_bytes m
unfolding queue_bytes
queue_bytes-append [] m = append-nil (pipe_bytes m)
queue_bytes-append (x ∷ ms) m =
    rw (queue_bytes-append ms m) (sym (append_assoc (pipe_bytes x) (queue_bytes ms) (pipe_bytes m)))
