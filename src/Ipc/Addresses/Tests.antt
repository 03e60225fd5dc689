-- ===== src/Ipc/Addresses/Tests.antt =====
-- A server 4711 in the directory `tmp`.
use so.Base.{List, arith, refl, ℕ, ◌≡◌}
use so.Ipc.Addresses.Endpoints.{inbox_path, ipc_connect, ipc_listen}
use so.Ipc.Addresses.Inbox.{ipc_connect-ipc_listen}
use so.Libc.{decimal, decimal_from, strip_slashes, codes}

abbrev dir : List ℕ
dir = codes "tmp"

inbox_of_server : inbox_path dir 4711 ≡ codes "tmp/4711"
unfolding inbox_path decimal decimal_from
inbox_of_server = refl

ipc_connect-ipc_listen_example :
    ((ipc_connect 5000 (inbox_path dir 4711)).server_id ≡ (ipc_listen 4711 dir).id)
    × (inbox_path
          (ipc_connect 5000 (inbox_path dir 4711)).root
          (ipc_connect 5000 (inbox_path dir 4711)).server_id
        ≡ inbox_path (ipc_listen 4711 dir).root (ipc_listen 4711 dir).id)
    × (inbox_path (ipc_listen 4711 dir).root (ipc_connect 5000 (inbox_path dir 4711)).id
        ≡ inbox_path
            (ipc_connect 5000 (inbox_path dir 4711)).root
            (ipc_connect 5000 (inbox_path dir 4711)).id)
ipc_connect-ipc_listen_example = ipc_connect-ipc_listen 4711 5000 dir (λ e. cc) plain (omega arith)
  where
    plain : strip_slashes dir ≡ dir
    plain = unfold strip_slashes in refl
