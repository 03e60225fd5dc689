-- ===== src/System/Progress.antt =====
-- What a client that waits in `ipc_recv` waits for.
-- What can happen next for the client `j` that waits.
use so.Base.{ℕ, ◌≡◌}
use so.Actions.{Message}
use so.Database.{Database}
use so.Ipc.Transport.{Transport}
use so.System.Interleaved.{Programs, Step, World, got}
use so.System.Pending.{Pending}

pub data Proceeds (T : Transport) (junk : ℕ → ℕ) (p : Programs T) (w : World T) (j : ℕ)
    : Type 0 where
  server_goes : {u : World T} → Step T junk p w u → u.client ≡ w.client → Proceeds T junk p w j
  client_goes :
      {u : World T} {m : Message} → Step T junk p w u → u.client j ≡ got m → Proceeds T junk p w j
