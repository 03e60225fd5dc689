-- ===== src/Ipc/SelectServer/Tests.antt =====
-- The array of ten descriptors with three in use, one of them closed.
use so.Base.{[], arith, refl, some, suc, zero, ℕ, ◌++◌, ◌∷◌, ◌≡◌, length, replicate}
use so.Base.Int.{negsuc, pos}
use so.Ipc.SelectServer.Clients.{
  Clients, Event, get_max_fd, max_from, move_down, new_client, quiet, received,
  reorganize_clients_array, round, serve_clients,
}
use so.Ipc.SelectServer.Round.{joining, marked, round-IsClients}
use so.Ipc.SelectServer.Slots.{IsClients, clients_of, open_ones, reorganize_clients_array-open}

abbrev three : Clients
three = record { cfd = pos 4 ∷ negsuc 0 ∷ pos 6 ∷ replicate 7 (pos 0); ncli = 3 }

three-IsClients : IsClients three
three-IsClients = record { sized = refl; below = omega arith }

reorganize_clients_array-open_example :
    (clients_of (reorganize_clients_array three) ≡ open_ones (clients_of three))
    × (length (reorganize_clients_array three).cfd ≡ 10)
    × ((reorganize_clients_array three).ncli ≡ length (open_ones (clients_of three)))
reorganize_clients_array-open_example = reorganize_clients_array-open three (omega arith)

largest : get_max_fd (some three.cfd) 3 ≡ pos 6
unfolding get_max_fd max_from
largest = refl

closed_up : clients_of (reorganize_clients_array three) ≡ pos 4 ∷ pos 6 ∷ []
unfolding reorganize_clients_array move_down
closed_up = refl

-- The first of the open clients is ready, with a message without content, and a new one comes.
abbrev first_closes : ℕ → Event
first_closes zero = received (record { sender = 4; content_length = 0; content = [] })
first_closes (suc i) = quiet

round-IsClients_example :
    IsClients (round first_closes (some (pos 7)) three).0
    × (clients_of (round first_closes (some (pos 7)) three).0
        ≡ marked first_closes 0 (open_ones (clients_of three))
          ++ joining (length (open_ones (clients_of three))) (some (pos 7)))
round-IsClients_example = round-IsClients first_closes (some (pos 7)) three three-IsClients

after_round : clients_of (round first_closes (some (pos 7)) three).0 ≡ negsuc 0 ∷ pos 6 ∷ pos 7 ∷ []
unfolding round reorganize_clients_array move_down serve_clients new_client
after_round = refl
