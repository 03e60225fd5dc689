-- ===== src/Ipc/Sockets/Streams.antt =====
-- src/ipc/sockets.c: `ipc_send` and `ipc_recv` on the bytes of the connections.
use so.Base.{
  Bool, List, Option, none, some, ℕ, ◌%◌, ◌++◌, ◌^◌, drop, length, take, if◌then◌else◌, leb,
}
use so.Actions.{Message}
use so.Bytes.{first_u16, put_u16, ◌>>=◌}
use so.Ipc.Clients.{update}

-- The bytes that wait to be read from each descriptor of a process, and those written to it.
pub record Streams : Type 0 where
  pub incoming : ℕ → List ℕ
  pub outgoing : ℕ → List ℕ

-- `ipc_t`: the descriptor `id` is the listening one of the server, or the connection of a client.
pub record Socket : Type 0 where
  pub id : ℕ
  pub server_id : ℕ
  pub is_server : Bool

-- `ipc_send`: the recipient, a uint16_t, is the descriptor.
unfoldable pub ipc_send : ℕ → List ℕ → ℕ → Streams → Streams
ipc_send recipient message size s = record s {
  outgoing =
      update s.outgoing recipient (s.outgoing recipient ++ (put_u16 size ++ take size message));
}

-- The two reads of `ipc_recv` from the descriptor `skt`. A read of bytes that have not come waits (none).
-- `sender` is a uint16_t.
unfoldable pub read_message : ℕ → Streams → Option (Message × Streams)
read_message skt s = do
  content_length ← first_u16 (s.incoming skt)
  let rest = drop 2 (s.incoming skt)
  if leb content_length (length rest)
      then some (
        record {
          sender = skt % 2 ^ 16;
          content_length = content_length;
          content = take content_length rest;
        },
        record s { incoming = update s.incoming skt (drop content_length rest) },
      )
      else none

-- `ipc_recv`, where `accepted` is the descriptor that accept gives to the server.
unfoldable pub ipc_recv : Socket → ℕ → Streams → Option (Message × Streams)
ipc_recv ipc accepted s = read_message (if ipc.is_server then accepted else ipc.id) s
