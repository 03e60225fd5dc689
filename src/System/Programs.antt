-- ===== src/System/Programs.antt =====
-- src/exe/client.c from its command line on, over any transport.
-- A request goes to the server, and is one of the three structures of inc/actions.h.
use so.Base.{List, [], arith, inl, inr, refl, ℕ, ◌∷◌, ◌≡◌, Bool-cases, ◌==◌}
use so.Base.Int.{pred_ℤ, to_u16, ℤ}
use so.Actions.{
  action_string_to_code, req_buy_ticket, req_get_ticket, req_movie_list, Ipc, Send,
  action_buy_ticket, action_movie_list, buy_request, list_request, ticket_bytes,
}
use so.Bytes.{put_i32, put_u16, put_u32}
use so.Client.{
  Usage, main, no_param, one_param, request, requests, usage_buy, usage_get, usage_list,
}
use so.Client.Session.{transact}
use so.Database.{Database}
use so.Ipc.Messages.{IsSend}
use so.Ipc.Transport.{Transport}
use so.Libc.{atoi}
use so.System.Serving.{Carries}
use so.System.Session.{Agrees, AreApart, IsQuiet, session, session-Agrees}

abbrev pub IsForServer : Ipc → Send → Type 0
IsForServer ipc s = (s.recipient ≡ ipc.server_id) × IsSend 8 s

module _ (junk : ℕ → ℕ) (ipc : Ipc) where
  pub list-IsForServer : IsForServer ipc (req_movie_list ipc)
  unfolding req_movie_list list_request
  list-IsForServer =
      (refl, record { size_fits = omega arith; in_memory = omega arith; carried = omega arith })

  pub buy-IsForServer : (i : ℕ) → IsForServer ipc (req_buy_ticket junk ipc i)
  unfolding req_buy_ticket buy_request put_u16
  buy-IsForServer i =
      (refl, record { size_fits = omega arith; in_memory = omega arith; carried = omega arith })

  pub get-IsForServer : (t : ℤ) → IsForServer ipc (req_get_ticket junk ipc t)
  unfolding req_get_ticket ticket_bytes put_i32 put_u32
  get-IsForServer t =
      (refl, record { size_fits = omega arith; in_memory = omega arith; carried = omega arith })

  no_param-IsForServer :
      (u : Usage) (params : List (List ℕ)) (send : Send) {s : Send}
      → IsForServer ipc send
      → no_param u send params ≡ requests s
      → IsForServer ipc s
  unfolding no_param
  no_param-IsForServer u [] send {s} h e = let same : send ≡ s = ground arith in rw (← same) h
  no_param-IsForServer u (p ∷ ps) send h e = ground arith

  one_param-IsForServer :
      (u : Usage) (params : List (List ℕ)) (send : ℤ → Send) {s : Send}
      → ((n : ℤ) → IsForServer ipc (send n))
      → one_param u send params ≡ requests s
      → IsForServer ipc s
  unfolding one_param
  one_param-IsForServer u [] send h e = ground arith
  one_param-IsForServer u (p ∷ []) send {s} h e =
      let same : send (atoi p) ≡ s = ground arith in rw (← same) (h (atoi p))
  one_param-IsForServer u (p ∷ r ∷ ps) send h e = ground arith

  request-IsForServer :
      (code : ℕ) (params : List (List ℕ)) {s : Send}
      → request junk ipc code params ≡ requests s
      → IsForServer ipc s
  unfolding request
  request-IsForServer code params e = elim (Bool-cases (code == action_movie_list)) [
    | inl y ↦
        no_param-IsForServer usage_list params (req_movie_list ipc) list-IsForServer (rw y at e)
    | inr n ↦ elim (Bool-cases (code == action_buy_ticket)) [
      | inl y ↦
          one_param-IsForServer usage_buy params
            (λ movie_id. req_buy_ticket junk ipc (to_u16 (pred_ℤ movie_id)))
            (λ movie_id. buy-IsForServer (to_u16 (pred_ℤ movie_id))) (rw (n, y) at e)
      | inr n' ↦
          one_param-IsForServer usage_get params (λ ticket. req_get_ticket junk ipc ticket)
            get-IsForServer (rw (n, n') at e)
    ]
  ]

  main-IsForServer :
      (args : List (List ℕ)) {s : Send} → main junk ipc args ≡ requests s → IsForServer ipc s
  unfolding main
  main-IsForServer [] e = ground arith
  main-IsForServer (a ∷ []) e = ground arith
  main-IsForServer (a ∷ b ∷ []) e = ground arith
  main-IsForServer (a ∷ b ∷ action ∷ params) e =
      elim (Bool-cases (action_string_to_code action == 0)) [
        | inl y ↦ absurd (ground (arith, rw y at e))
        | inr n ↦ request-IsForServer (action_string_to_code action) params (rw n at e)
      ]

-- For a client and a server with different addresses, a transport that holds no message, and a valid database
-- whose list of movies, and a movie, the transport carries: if the client's command line makes a request,
-- then sending it, one round of the server's loop with its response, and what the client prints for the
-- message that it receives give over this transport the texts and the database that they give when every
-- message is delivered as it is sent, and then the transport holds no message again. If the latter gives no
-- result, a process waits or crashes over the transport too.
pub session-transact :
    (T : Transport) (junk junk' : ℕ → ℕ) (db : Database) (ipc : Ipc) (args : List (List ℕ))
    (request : Send) (t : T.State)
    → main junk ipc args ≡ requests request
    → Carries T.capacity db
    → IsQuiet T t
    → AreApart ipc
    → Agrees T (transact junk' db ipc request) (session T junk' db ipc request t)
session-transact T junk junk' db ipc args request t e c q far =
    let (to, v) = main-IsForServer junk ipc args e in
    session-Agrees T junk' db ipc request t c q far to (record {
      size_fits = v.size_fits;
      in_memory = v.in_memory;
      carried = omega (arith, v.carried, c.found);
    })
