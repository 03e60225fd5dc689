-- ===== src/Ipc/Addresses/Inbox.antt =====
-- The files that the server and a client open are the same.
use so.Base.{List, [], arith, refl, ℕ, ◌++◌, ◌<◌, ◌^◌, ◌∷◌, ◌≡◌, ◌≢◌, All}
use so.Ipc.Addresses.Endpoints.{filename, filepath, inbox_path, ipc_connect, ipc_listen}
use so.Libc.{
  IsDigit, atoi-decimal, decimal, decimal-IsDigit, decimal_filled, NoSlash, basename, dirname,
  dirname-basename, strip_slashes,
}

digits-NoSlash : (bs : List ℕ) → All IsDigit bs → NoSlash bs
digits-NoSlash [] h = tt
digits-NoSlash (b ∷ bs) h = (omega (arith, h.0), digits-NoSlash bs h.1)

inbox_path-parts :
    (root : List ℕ) (n : ℕ)
    → root ≢ []
    → strip_slashes root ≡ root
    → (dirname (inbox_path root n) ≡ root) × (basename (inbox_path root n) ≡ decimal n)
unfolding inbox_path
inbox_path-parts root n filled plain =
    of_digits (decimal n) (digits-NoSlash (decimal n) (decimal-IsDigit n)) (decimal_filled n)
  where
    of_digits :
        (bs : List ℕ)
        → NoSlash bs
        → bs ≢ []
        → (dirname (root ++ b'/' ∷ bs) ≡ root) × (basename (root ++ b'/' ∷ bs) ≡ bs)
    of_digits [] h ne = absurd (ne refl)
    of_digits (b ∷ bs) h ne = dirname-basename root b bs h filled plain

-- A client that connects to the path of the inbox of a server, whose directory is not empty and does not end
-- in a slash and whose process number fits a uint16_t, has the directory and the address of this server: the
-- file it sends requests to is the one from which the server receives, and the file to which the server
-- sends a response for the client's address is the one from which the client receives.
pub ipc_connect-ipc_listen :
    (server_pid client_pid : ℕ) (dir : List ℕ)
    → dir ≢ []
    → strip_slashes dir ≡ dir
    → server_pid < 2 ^ 16
    → (((ipc_connect client_pid (inbox_path dir server_pid)).server_id)
        ≡ (ipc_listen server_pid dir).id)
      × (inbox_path
            (ipc_connect client_pid (inbox_path dir server_pid)).root
            (ipc_connect client_pid (inbox_path dir server_pid)).server_id
          ≡ inbox_path (ipc_listen server_pid dir).root (ipc_listen server_pid dir).id)
      × (inbox_path
            (ipc_listen server_pid dir).root
            (ipc_connect client_pid (inbox_path dir server_pid)).id
          ≡ inbox_path
              (ipc_connect client_pid (inbox_path dir server_pid)).root
              (ipc_connect client_pid (inbox_path dir server_pid)).id)
unfolding ipc_connect ipc_listen filepath filename
ipc_connect-ipc_listen server_pid client_pid dir filled plain small =
    let (root, name) = inbox_path-parts dir server_pid filled plain in
    rw (root, name, atoi-decimal server_pid) (refl, refl, refl)
