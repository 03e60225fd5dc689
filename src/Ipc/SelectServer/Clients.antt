-- ===== src/Ipc/SelectServer/Clients.antt =====
-- src/ipc/socket/socketsrv.c: the array of client descriptors.
use so.Base.{
  Bool, List, Option, [], false, none, some, suc, true, zero, ℕ, ◌+◌, ◌-◌, ◌∷◌, get_elem?, set,
  if◌then◌else◌, leb, ltb, ◌==◌,
}
use so.Base.Int.{eq_ℤ, ltb_ℤ, negsuc, pos, ℤ}
use so.Actions.{Message}

-- MAXCLIENTS
abbrev pub maxclients : ℕ
maxclients = 10

-- `clients` and `nclients`.
pub record Clients : Type 0 where
  pub cfd : List ℤ
  pub ncli : ℕ

-- A descriptor that is closed is -1.
abbrev pub is_closed : ℤ → Bool
is_closed fd = eq_ℤ fd (negsuc 0)

-- The loop of `get_max_fd`, over the descriptors that are left.
unfoldable pub max_from : ℤ → ℕ → List ℤ → ℤ
max_from max zero clis = max
max_from max (suc n) [] = max
max_from max (suc n) (fd ∷ clis) = max_from (if ltb_ℤ max fd then fd else max) n clis

-- `clis` NULL is none.
unfoldable pub get_max_fd : Option (List ℤ) → ℕ → ℤ
get_max_fd none n = pos 0
get_max_fd (some []) n = pos 0
get_max_fd (some (fd ∷ clis)) n = if ltb n 1 then pos 0 else max_from fd n (fd ∷ clis)

-- The loop of `reorganize_clients_array`, from the indices `i` and `j`, for `left` more elements.
unfoldable pub move_down : ℕ → ℕ → ℕ → List ℤ → List ℤ × ℕ
move_down zero i j array = (array, j)
move_down (suc left) i j array = elim (get_elem? array i) [
  | none ↦ move_down left (i + 1) j array
  | some fd ↦ elim (is_closed fd) [
    | true ↦ move_down left (i + 1) j array
    | false ↦ move_down left (i + 1) (j + 1) (set array j fd)
  ]
]

unfoldable pub reorganize_clients_array : Clients → Clients
reorganize_clients_array c =
    if c.ncli == 0
    then c
    else let r = move_down c.ncli 0 0 c.cfd in record { cfd = r.0; ncli = r.1 }

-- `new_client` for the descriptor that `accept_client` gives (-1 where accept failed), with the
-- descriptors that it closes.
unfoldable pub new_client : ℤ → Clients → Clients × List ℤ
new_client fd c =
    let cfd = set c.cfd c.ncli fd in
    if leb maxclients (c.ncli + 1)
    then (record { cfd = cfd; ncli = c.ncli + 1 - 1 }, fd ∷ [])
    else (record { cfd = cfd; ncli = c.ncli + 1 }, [])

-- What `select` finds at a descriptor: nothing, or that it is ready, with the message that `ipc_recv` of
-- src/ipc/socket/socket.c then gives. That looks at no result of recv: for a peer that has closed, the
-- message is whatever malloc left in its block.
pub data Event : Type 0 where
  quiet : Event
  received : Message → Event

-- The loop over the clients in `main`, from index `i` on, for `left` more: a client with a message without
-- content is marked by -1. What `main` does with another message is left out; it does not touch the array.
unfoldable pub serve_clients : (ℕ → Event) → ℕ → ℕ → List ℤ → List ℤ
serve_clients event zero i clients = clients
serve_clients event (suc left) i clients = elim (event i) [
  | quiet ↦ serve_clients event left (i + 1) clients
  | received msg ↦
      serve_clients event left (i + 1)
        (if ltb 0 msg.content_length then clients else set clients i (negsuc 0))
]

-- One turn of the loop in `main`, up to the array; `accepted` is what accept gives, if `select` finds
-- the listening socket ready. The descriptors that are closed come with the result.
unfoldable pub round : (ℕ → Event) → Option ℤ → Clients → Clients × List ℤ
round event accepted c =
    let tidy = reorganize_clients_array c in
    let served = record tidy { cfd = serve_clients event tidy.ncli 0 tidy.cfd } in
    elim accepted [ none ↦ (served, []) | some fd ↦ new_client fd served ]
