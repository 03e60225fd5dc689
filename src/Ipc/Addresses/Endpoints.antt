-- ===== src/Ipc/Addresses/Endpoints.antt =====
-- `ipc_listen` and `ipc_connect` of src/ipc/filesig.c, which src/ipc/fifo.c has in the same words.
use so.Base.{List, ℕ, ◌%◌, ◌++◌, ◌^◌, ◌∷◌}
use so.Base.Int.{to_u16}
use so.Libc.{decimal, basename, dirname, atoi}

-- The directory and the two addresses of `ipc_t`, both uint16_t.
pub record Endpoint : Type 0 where
  pub root : List ℕ
  pub id : ℕ
  pub server_id : ℕ

unfoldable pub filepath : List ℕ → List ℕ
filepath path = dirname path

unfoldable pub filename : List ℕ → List ℕ
filename path = basename path

-- By the process `pid`.
unfoldable pub ipc_listen : ℕ → List ℕ → Endpoint
ipc_listen pid dir = record { root = dir; id = pid % 2 ^ 16; server_id = pid % 2 ^ 16 }

-- By the process `pid`, after `access` has found the file.
unfoldable pub ipc_connect : ℕ → List ℕ → Endpoint
ipc_connect pid file = record {
  root = filepath file;
  id = pid % 2 ^ 16;
  server_id = to_u16 (atoi (filename file));
}

-- sprintf(path, "%s/%d", root, id): the file that `ipc_send` opens for a recipient, and `ipc_recv` for
-- its own process.
unfoldable pub inbox_path : List ℕ → ℕ → List ℕ
inbox_path root id = root ++ b'/' ∷ decimal id
