-- ===== src/Ipc/SelectServer/Round.antt =====
-- src/ipc/socket/socketsrv.c: one turn of the loop in `main`, and the clients that stay.
use so.Base.{
  List, Option, [], ap, append-nil, append_assoc, ap₂, arith, inl, inr, none, refl, some, suc, sym,
  ℕ, ◌++◌, ◌+◌, ◌<◌, ◌∙◌, ◌∷◌, ◌≡◌, ◌≤◌, drop, length, length-append, length-drop, length-take,
  set-append, take, take-append, Bool-cases, if◌then◌else◌, ltb,
}
use so.Base.Int.{negsuc, ℤ}
use so.Ipc.SelectServer.Clients.{
  Clients, Event, quiet, received, reorganize_clients_array, round, serve_clients,
}
use so.Ipc.SelectServer.Polling.{new_client-IsClients}
use so.Ipc.SelectServer.Slots.{
  IsClients, clients_of, open_ones, reorganize_clients_array-open, take-drop,
}

-- What the loop leaves of the clients from index `i` on.
abbrev pub mark : Event → ℤ → ℤ
mark quiet fd = fd
mark (received msg) fd = if ltb 0 msg.content_length then fd else negsuc 0

unfoldable pub marked : (ℕ → Event) → ℕ → List ℤ → List ℤ
marked event i [] = []
marked event i (fd ∷ fds) = mark (event i) fd ∷ marked event (suc i) fds

length-marked :
    (event : ℕ → Event) (i : ℕ) (fds : List ℤ) → length (marked event i fds) ≡ length fds
unfolding marked
length-marked event i [] = refl
length-marked event i (fd ∷ fds) = ap suc (length-marked event (suc i) fds)

serve_one :
    (event : ℕ → Event) (left i : ℕ) (before : List ℤ) (fd : ℤ) (behind : List ℤ)
    → i ≡ length before
    → serve_clients event (suc left) i (before ++ fd ∷ behind)
      ≡ serve_clients event left (i + 1) (before ++ mark (event i) fd ∷ behind)
unfolding serve_clients
serve_one event left i before fd behind at = by_event (event i) refl
  where
    by_event :
        (e : Event)
        → event i ≡ e
        → serve_clients event (suc left) i (before ++ fd ∷ behind)
          ≡ serve_clients event left (i + 1) (before ++ mark e fd ∷ behind)
    by_event quiet e = rw (serve_clients, e) refl
    by_event (received msg) e = elim (Bool-cases (ltb 0 msg.content_length)) [
      | inl filled ↦ rw (serve_clients, e, filled) refl
      | inr empty ↦ rw (serve_clients, e, empty, set-append before fd behind i (negsuc 0) at) refl
    ]

serve_clients-marked :
    (event : ℕ → Event) (before fds behind : List ℤ) (i : ℕ)
    → i ≡ length before
    → serve_clients event (length fds) i (before ++ (fds ++ behind))
      ≡ before ++ (marked event i fds ++ behind)
unfolding marked
serve_clients-marked event before [] behind i at = unfold serve_clients in refl
serve_clients-marked event before (fd ∷ fds) behind i at =
    let next : i + 1 ≡ suc i = omega arith in
    let shape : (before ++ mark (event i) fd ∷ []) ++ (fds ++ behind)
        ≡ before ++ mark (event i) fd ∷ (fds ++ behind) =
      append_assoc before (mark (event i) fd ∷ []) (fds ++ behind) in
    let rest =
      serve_clients-marked event (before ++ mark (event i) fd ∷ []) fds behind (suc i)
        (omega (arith, length-append before (mark (event i) fd ∷ []))) in
    serve_one event (length fds) i before fd (fds ++ behind) at
    ∙ rw next (rw shape at rest)
    ∙ append_assoc before (mark (event i) fd ∷ []) (marked event (suc i) fds ++ behind)

length-open_ones : (fds : List ℤ) → length (open_ones fds) ≤ length fds
unfolding open_ones
length-open_ones [] = omega arith
length-open_ones (fd ∷ fds) = ground (arith, length-open_ones fds)

-- The array after the loop over the clients.
serve_clients-clients_of :
    (event : ℕ → Event) (cfd : List ℤ) (n : ℕ)
    → n ≤ length cfd
    → (take n (serve_clients event n 0 cfd) ≡ marked event 0 (take n cfd))
      × (length (serve_clients event n 0 cfd) ≡ length cfd)
serve_clients-clients_of event cfd n h =
    let used : length (take n cfd) ≡ n = omega (arith, length-take n cfd) in
    let whole = take-drop n cfd in
    let e : serve_clients event n 0 cfd ≡ marked event 0 (take n cfd) ++ drop n cfd =
      rw (used, whole) at (serve_clients-marked event [] (take n cfd) (drop n cfd) 0 refl) in
    (
      rw e (
          take-append n (marked event 0 (take n cfd)) (drop n cfd)
            (length-marked event 0 (take n cfd) ∙ used)),
      rw e (
          omega (
            arith,
            length-append (marked event 0 (take n cfd)) (drop n cfd),
            length-marked event 0 (take n cfd),
            used,
            length-drop n cfd,
          )),
    )

-- The new client, if there is one and fewer than nine clients are in the array.
abbrev pub joining : ℕ → Option ℤ → List ℤ
joining n none = []
joining n (some fd) = if ltb n 9 then fd ∷ [] else []

-- A turn of the loop keeps the array within its ten places, with one of them free. The clients after it are
-- those that were open before, in their order, with -1 for each that was ready and for which `ipc_recv` gave
-- a message whose header has the content length 0, and then the new client, if there is room for it.
pub round-IsClients :
    (event : ℕ → Event) (accepted : Option ℤ) (c : Clients)
    → IsClients c
    → IsClients (round event accepted c).0
      × (clients_of (round event accepted c).0
          ≡ marked event 0 (open_ones (clients_of c))
            ++ joining (length (open_ones (clients_of c))) accepted)
round-IsClients event accepted c v = of_accepted accepted
  where
    tidy : Clients
    tidy = reorganize_clients_array c

    served : Clients
    served = record tidy { cfd = serve_clients event tidy.ncli 0 tidy.cfd }

    open_now : List ℤ
    open_now = open_ones (clients_of c)

    reorganized :
        (clients_of tidy ≡ open_now)
        × (length tidy.cfd ≡ length c.cfd)
        × (tidy.ncli ≡ length open_now)
    reorganized = reorganize_clients_array-open c (omega (arith, v.sized, v.below))

    few : length open_now < 10
    few = omega (arith, length-open_ones (clients_of c), length-take c.ncli c.cfd, v.below)

    marked_now :
        (clients_of served ≡ marked event 0 (clients_of tidy))
        × (length served.cfd ≡ length tidy.cfd)
    marked_now =
        serve_clients-clients_of event tidy.cfd tidy.ncli
          (omega (arith, reorganized.1, reorganized.2, few, v.sized))

    served_clients : clients_of served ≡ marked event 0 open_now
    served_clients = marked_now.0 ∙ ap (λ fds. marked event 0 fds) reorganized.0

    served-IsClients : IsClients served
    served-IsClients = record {
      sized = marked_now.1 ∙ reorganized.1 ∙ v.sized;
      below = omega (arith, reorganized.2, few);
    }

    of_accepted :
        (a : Option ℤ)
        → IsClients (round event a c).0
          × (clients_of (round event a c).0
              ≡ marked event 0 open_now ++ joining (length open_now) a)
    of_accepted none = unfold round in (served-IsClients, served_clients ∙ sym (append-nil _))
    of_accepted (some fd) =
        unfold round in
        let (ok, clients, closed) = new_client-IsClients fd served served-IsClients in
        (ok, clients ∙ ap₂ (λ fds n. fds ++ joining n (some fd)) served_clients reorganized.2)
