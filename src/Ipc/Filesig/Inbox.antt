-- ===== src/Ipc/Filesig/Inbox.antt =====
-- src/ipc/filesig.c: `ipc_send` and `ipc_recv` on the bytes of an inbox file.
use so.Base.{
  List, Option, none, some, ℕ, ◌++◌, ◌+◌, ◌-◌, drop, length, take, if◌then◌else◌, leb, ◌==◌,
}
use so.Actions.{Message}
use so.Bytes.{first_u16, put_u16, ◌>>=◌}

-- What `ipc_send` appends to the inbox: the content, then the header.
unfoldable pub record_bytes : ℕ → List ℕ → ℕ → List ℕ
record_bytes id content length = take length content ++ (put_u16 id ++ put_u16 length)

-- `ipc_send` by the process `id`, on the inbox of the recipient.
unfoldable pub ipc_send : ℕ → List ℕ → ℕ → List ℕ → List ℕ
ipc_send id content length inbox = inbox ++ record_bytes id content length

-- fseek(inbox, -n, SEEK_END) from position `at`: it fails, and moves nothing, before the start.
unfoldable pub seek_end : List ℕ → ℕ → ℕ → ℕ
seek_end inbox n at = if leb n (length inbox) then length inbox - n else at

-- ftruncate(size - message_size): a size_t that wraps is no file size, and the call fails.
unfoldable pub truncate : List ℕ → ℕ → ℕ → List ℕ
truncate inbox size message_size =
    if leb message_size size then take (size - message_size) inbox else inbox

-- sizeof(message_t)
abbrev pub header_size : ℕ
header_size = 4

-- `ipc_recv` after the lock is taken. `size` is what `fsize` gave before; header fields that are not
-- in the file are not set (none).
unfoldable pub take_message : ℕ → List ℕ → Option (Message × List ℕ)
take_message size inbox = do
  let at = seek_end inbox header_size 0
  sender ← first_u16 (drop at inbox)
  content_length ← first_u16 (drop (at + 2) inbox)
  let message_size = header_size + content_length
  let start = seek_end inbox message_size (at + 4)
  some (
    record {
      sender = sender;
      content_length = content_length;
      content = take content_length (drop start inbox);
    },
    truncate inbox size message_size,
  )

-- `ipc_recv` where no other process writes meanwhile; an empty inbox makes it wait (none).
unfoldable pub ipc_recv : List ℕ → Option (Message × List ℕ)
ipc_recv inbox = if length inbox == 0 then none else take_message (length inbox) inbox
