-- ===== src/Ipc/SelectServer/Datagrams.antt =====
-- src/ipc/socket/socket.c: `ipc_send` and `ipc_recv`. Both put a message into a block that malloc gave for
-- sizeof(message_t) bytes: `usable` is how many bytes the block has, and a write or read behind it is none.
-- sizeof(message_t)
use so.Base.{
  List, Option, [], append_assoc, arith, none, refl, some, sym, true, ℕ, ◌%◌, ◌&&◌, ◌++◌, ◌+◌, ◌<◌,
  ◌^◌, ◌∷◌, ◌≡◌, ◌≢◌, ◌≤◌, All, drop, drop_all, length, length-append, take, take-append, take_all,
  if◌then◌else◌, leb,
}
use so.Actions.{Message}
use so.Bytes.{first_u16, put_u16, ◌>>=◌, drop-put_u16, first_u16-put_u16}
use so.Libc.{c_string-append_zero, c_string}

abbrev pub header_size : ℕ
header_size = 4

-- The block after strcpy(msg->content, message), behind the header; `block` is what it held before.
unfoldable pub strcpy_content : ℕ → List ℕ → List ℕ → Option (List ℕ)
strcpy_content usable block message =
    let text = c_string message in
    if leb (header_size + (length text + 1)) usable
    then some (text ++ 0 ∷ drop (length text + 1) block)
    else none

-- `ipc_send` from the socket `s`: the bytes that `send` is given. `block` are the usable bytes behind the
-- header, as malloc left them.
unfoldable pub ipc_send : ℕ → List ℕ → ℕ → List ℕ → ℕ → Option (List ℕ)
ipc_send usable block s message length_ = do
  content ← strcpy_content usable block message
  if leb (header_size + length_) usable
      then some (put_u16 s ++ (put_u16 length_ ++ take length_ content))
      else none

-- What `recv` takes: sizeof(msg) is the size of a pointer.
abbrev pub largest : ℕ
largest = 8 + 1024

-- `ipc_recv`, where these bytes wait at the socket and the block holds `block` as malloc left it: the message,
-- with the NUL that is written behind its content, and the bytes that are left. What recv did not fill, the
-- header included, is read from the block.
unfoldable pub ipc_recv : ℕ → List ℕ → List ℕ → Option (Message × List ℕ)
ipc_recv usable block incoming = do
  let got = take largest incoming
  let filled = got ++ drop (length got) block
  sender ← first_u16 filled
  content_length ← first_u16 (drop 2 filled)
  if leb (length got) usable && leb (header_size + (content_length + 1)) usable
      then some (
        record {
          sender = sender;
          content_length = content_length;
          content = take content_length (drop header_size filled);
        },
        drop largest incoming,
      )
      else none

-- The bytes of a text with its NUL, behind the header.
abbrev datagram : ℕ → List ℕ → List ℕ
datagram s text = put_u16 s ++ (put_u16 (length text + 1) ++ (text ++ 0 ∷ []))

drop_header : (a b : ℕ) (x : List ℕ) → drop header_size (put_u16 a ++ (put_u16 b ++ x)) ≡ x
unfolding put_u16
drop_header a b x = refl

module _ (usable s : ℕ) (block text : List ℕ) (plain : All (λ b. b ≢ 0) text)
    (room : length text + 6 ≤ usable) (short : length text ≤ 1027) (small : s < 2 ^ 16) where
  length-text : length (text ++ 0 ∷ []) ≡ length text + 1
  length-text = length-append text (0 ∷ [])

  sends_text : ipc_send usable block s (text ++ 0 ∷ []) (length text + 1) ≡ some (datagram s text)
  unfolding ipc_send strcpy_content
  sends_text =
      let fits : leb (header_size + (length text + 1)) usable ≡ true = ground (arith, room) in
      let read : c_string (text ++ 0 ∷ []) ≡ text = c_string-append_zero text [] plain in
      let shape : text ++ 0 ∷ drop (length text + 1) block
          ≡ (text ++ 0 ∷ []) ++ drop (length text + 1) block =
        sym (append_assoc text (0 ∷ []) (drop (length text + 1) block)) in
      rw
        (
          read,
          fits,
          shape,
          take-append (length text + 1) (text ++ 0 ∷ []) (drop (length text + 1) block) length-text,
        )
        refl

  length-datagram : length (datagram s text) ≡ 4 + (length text + 1)
  unfolding put_u16
  length-datagram = omega (arith, length-text)

  datagram-append :
      (x : List ℕ)
      → datagram s text ++ x ≡ put_u16 s ++ (put_u16 (length text + 1) ++ ((text ++ 0 ∷ []) ++ x))
  unfolding put_u16
  datagram-append x = refl

  recv_text :
      (old : List ℕ)
      → ipc_recv usable old (datagram s text)
        ≡ some
            (record { sender = s; content_length = length text + 1; content = text ++ 0 ∷ [] }, [])
  unfolding ipc_recv
  recv_text old =
      let left : List ℕ = drop (length (datagram s text)) old in
      let body : List ℕ = (text ++ 0 ∷ []) ++ left in
      let all : take largest (datagram s text) ≡ datagram s text =
        take_all largest (datagram s text) (omega (arith, length-datagram, short)) in
      let bare : drop largest (datagram s text) ≡ [] =
        drop_all largest (datagram s text) (omega (arith, length-datagram, short)) in
      let inside : leb (length (datagram s text)) usable ≡ true =
        ground (arith, length-datagram, room) in
      let nul : leb (4 + (length text + 1 + 1)) usable ≡ true = ground (arith, room) in
      let sender : s % 65536 ≡ s = omega (arith, small) in
      let count : (length text + 1) % 65536 ≡ length text + 1 = omega (arith, short) in
      rw
        (
          all,
          bare,
          inside,
          datagram-append left,
          first_u16-put_u16 s (put_u16 (length text + 1) ++ body),
          sender,
          drop-put_u16 s (put_u16 (length text + 1) ++ body),
          first_u16-put_u16 (length text + 1) body,
          count,
          nul,
          drop_header s (length text + 1) body,
          take-append (length text + 1) (text ++ 0 ∷ []) left length-text,
        )
        refl

-- A text without a NUL, sent with the NUL at its end from a socket to an idle one, is received as it is, with
-- the sender's descriptor, if the blocks that malloc gives have room for it, with its header and a second NUL,
-- although only the size of the header was asked for, and it has at most 1027 bytes.
pub recv-send_text :
    (usable s : ℕ) (block old text : List ℕ)
    → All (λ b. b ≢ 0) text
    → length text + 6 ≤ usable
    → length text ≤ 1027
    → s < 2 ^ 16
    → (sent : List ℕ) × (ipc_send usable block s (text ++ 0 ∷ []) (length text + 1) ≡ some sent)
      × (ipc_recv usable old sent
          ≡ some (
            record { sender = s; content_length = length text + 1; content = text ++ 0 ∷ [] },
            [],
          ))
recv-send_text usable s block old text plain room short small = (
  datagram s text,
  sends_text usable s block text plain room short small,
  recv_text usable s block text plain room short small old,
)

-- What stands behind the first NUL of a message is not sent: of two messages with the same text before it the
-- same bytes go out, whatever the sizes of the structures are.
pub ipc_send_stops :
    (usable s n : ℕ) (block text x y : List ℕ)
    → All (λ b. b ≢ 0) text
    → ipc_send usable block s (text ++ 0 ∷ x) n ≡ ipc_send usable block s (text ++ 0 ∷ y) n
unfolding ipc_send strcpy_content
ipc_send_stops usable s n block text x y plain =
    rw (c_string-append_zero text x plain, c_string-append_zero text y plain) refl

-- From a peer that has closed its connection recv takes nothing: the message that `ipc_recv` gives has the content
-- length that the block happens to hold, if that fits the block.
pub recv_closed :
    (usable sender n : ℕ) (content : List ℕ)
    → sender < 2 ^ 16
    → n + 5 ≤ usable
    → n < 2 ^ 16
    → ipc_recv usable (put_u16 sender ++ (put_u16 n ++ content)) []
      ≡ some (record { sender = sender; content_length = n; content = take n content }, [])
unfolding ipc_recv
recv_closed usable sender n content a room b =
    let nul : leb (4 + (n + 1)) usable ≡ true = ground (arith, room) in
    let none_read : leb 0 usable ≡ true = ground arith in
    let from : sender % 65536 ≡ sender = omega (arith, a) in
    let count : n % 65536 ≡ n = omega (arith, b) in
    rw
      (
        first_u16-put_u16 sender (put_u16 n ++ content),
        from,
        drop-put_u16 sender (put_u16 n ++ content),
        first_u16-put_u16 n content,
        count,
        none_read,
        nul,
        drop_header sender n content,
      )
      refl
