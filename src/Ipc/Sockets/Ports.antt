-- ===== src/Ipc/Sockets/Ports.antt =====
-- src/ipc/sockets.c: `ipc_listen` and `ipc_connect`. The descriptors that `socket` gives and the results of
-- bind, listen, connect and inet_pton are those of the system.
-- The calls into the system: none, or false, where the call fails.
use so.Base.{
  Bool, List, Option, [], arith, false, none, refl, some, true, ℕ, ◌%◌, ◌&&◌, ◌++◌, ◌<◌, ◌^◌, ◌∷◌,
  ◌≡◌, ◌≢◌, All, if◌then◌else◌,
}
use so.Base.Int.{to_u16}
use so.Bytes.{◌>>=◌}
use so.Ipc.Sockets.Streams.{Socket}
use so.Libc.{
  IsDigit, atoi-decimal, decimal, decimal-IsDigit, decimal_filled, atoi, strtok, strtok_first,
  strtok_last,
}

pub record Network : Type 0 where
  pub socket : Option ℕ
  pub inet_pton : List ℕ → Option ℕ
  pub binds : ℕ → Bool
  pub listens : Bool
  pub connected : ℕ → ℕ → Bool

-- INADDR_ANY
abbrev pub inaddr_any : ℕ
inaddr_any = 0

-- `ipc_t`, with the host and the port of its address.
pub record Opened : Type 0 where
  pub ipc : Socket
  pub host : ℕ
  pub port : ℕ

-- The conversions of a descriptor to the uint16_t id, and of a port to the argument of htons.
abbrev pub socket_of : Bool → ℕ → Socket
socket_of is_server fd = record { id = fd % 2 ^ 16; server_id = fd % 2 ^ 16; is_server = is_server }

-- none where a `check` ends the program.
unfoldable pub ipc_listen : Network → List ℕ → Option Opened
ipc_listen net port_str = do
  fd ← net.socket
  let port = to_u16 (atoi port_str)
  if net.binds port && net.listens
      then some (record { ipc = socket_of true fd; host = inaddr_any; port = port })
      else none

-- Also none where the address has no port: atoi of NULL.
unfoldable pub ipc_connect : Network → List ℕ → Option Opened
ipc_connect net address = do
  let (host_token, rest) = strtok b':' address
  let (port_token, _) = strtok b':' rest
  ip_host_str ← host_token
  ip_port_str ← port_token
  let port = to_u16 (atoi ip_port_str)
  fd ← net.socket
  host ← net.inet_pton ip_host_str
  if net.connected host port
      then some (record { ipc = socket_of false fd; host = host; port = port })
      else none

port_digits : (n : ℕ) → All (λ b. b ≢ b':') (decimal n)
port_digits n = of_digits (decimal n) (decimal-IsDigit n)
  where
    of_digits : (bs : List ℕ) → All IsDigit bs → All (λ b. b ≢ b':') bs
    of_digits [] h = tt
    of_digits (b ∷ bs) h = (omega (arith, h.0), of_digits bs h.1)

-- A client that connects to `host:port`, written with the port at which a server listens, of a host whose
-- name has no colon, gets an address with this host and the port of the server, if its own system can make
-- the connection; its requests go to its own descriptor. The port is the number that was written.
pub ipc_connect-ipc_listen_port :
    (server_net client_net : Network) (host : List ℕ) (port server_fd client_fd ip : ℕ)
    → host ≢ []
    → All (λ b. b ≢ b':') host
    → port < 2 ^ 16
    → server_net.socket ≡ some server_fd
    → client_net.socket ≡ some client_fd
    → client_net.inet_pton host ≡ some ip
    → server_net.binds port ≡ true
    → server_net.listens ≡ true
    → client_net.connected ip port ≡ true
    → (s : Opened) × (c : Opened) × (ipc_listen server_net (decimal port) ≡ some s)
      × (ipc_connect client_net (host ++ b':' ∷ decimal port) ≡ some c)
      × (c.port ≡ s.port)
      × (s.port ≡ port)
      × (c.host ≡ ip)
      × (s.ipc.is_server ≡ true)
      × (c.ipc.is_server ≡ false)
      × (c.ipc.server_id ≡ c.ipc.id)
unfolding ipc_listen ipc_connect
ipc_connect-ipc_listen_port server_net client_net host port server_fd client_fd ip ne plain small s
      c r b l e =
    let written : to_u16 (atoi (decimal port)) ≡ port = rw (atoi-decimal port) (ground arith) in
    (
      record { ipc = socket_of true server_fd; host = inaddr_any; port = port },
      record { ipc = socket_of false client_fd; host = ip; port = port },
      rw (s, written, b, l) refl,
      rw
          (
            strtok_first b':' host (decimal port) ne plain,
            strtok_last b':' (decimal port) (decimal_filled port) (port_digits port),
            written,
            c,
            r,
            e,
          )
          refl,
      refl,
      refl,
      refl,
      refl,
      refl,
      refl,
    )
