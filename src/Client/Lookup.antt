-- ===== src/Client/Lookup.antt =====
-- The whole of `get number`, from the command line to what is printed.
use so.Database.BoxOffice
use so.Base.{
  List, Option, [], arith, none, refl, some, ℕ, ◌<◌, ◌∙◌, ◌∷◌, ◌≡◌, get_elem?-total, length,
}
use so.Base.Int.{IsI32, ℤ}
use so.Actions.{
  Print, movie_name, movie_time, no_such_ticket, ticket_number, action_string_to_code,
  req_get_ticket, found_response, Ipc, Send,
}
use so.Client.Get.{
  ArePrinted, ArePrinted-get, IsTicketText, answer-get, receive-found, receive-missing, unlocked,
}
use so.Client.Main.{main, one_param, request, requests}
use so.Client.Session.{receive, transact}
use so.Database.{Database, f_unlck}
use so.Database.Buying.{get-sales}
use so.Database.File.{IsSized}
use so.Database.Pointer.{db_get_ticket-lt}
use so.Database.Sales.{IsMovie-at, sales}
use so.Database.Sized.{IsMovie-IsSized}
use so.Database.Valid.{IsValid}
use so.Libc.{atoi, codes, same_string}

main-get :
    (junk : ℕ → ℕ) (ipc : Ipc) (program address number : List ℕ)
    → main junk ipc (program ∷ address ∷ codes "get" ∷ number ∷ [])
      ≡ requests (req_get_ticket junk ipc (atoi number))
unfolding main action_string_to_code request one_param same_string
main-get junk ipc program address number = refl

module _ (junk junk' : ℕ → ℕ) (db : Database) (ipc : Ipc) (t : ℤ) (v : IsValid db) (h : IsI32 t)
    (texts : ArePrinted db.movies) where
  transact-get :
      {response : Send} {printed : List Print}
      → found_response junk' (unlocked db) ipc.id t (BoxOffice.get (sales db) t) ≡ some response
      → receive ipc.server_id (some response, unlocked db) ≡ some (printed, unlocked db)
      → transact junk' db ipc (req_get_ticket junk ipc t) ≡ some (printed, unlocked db)
  unfolding transact
  transact-get e r = rw (answer-get junk junk' db ipc t h v e) r

  pub lookup_round :
      (p : Option ℕ)
      → BoxOffice.get (sales db) t ≡ p
      → (printed : List Print) × (transact junk' db ipc (req_get_ticket junk ipc t)
          ≡ some (printed, unlocked db))
        × IsTicketText db.movies t p printed
  unfolding found_response
  lookup_round none e = (
    no_such_ticket ∷ [],
    transact-get (rw e) (receive-missing junk' ipc.id ipc.server_id (unlocked db) t h),
    refl,
  )
  lookup_round (some i) e =
      let lt : i < length db.movies = db_get_ticket-lt db t i v (get-sales db t v ∙ e) in
      let (m, here) = get_elem?-total db.movies i lt in
      let (name, time, printed) = ArePrinted-get db.movies i texts here in
      let sized : IsSized m =
        IsMovie-IsSized i m (omega (arith, v.counted, v.small)) (IsMovie-at db i v here) in
      (
        ticket_number t ∷ movie_name name ∷ movie_time time ∷ [],
        transact-get (rw (e, here))
            (receive-found junk' ipc.id ipc.server_id (unlocked db) t h m sized printed),
        (m, name, time, here, printed, refl),
      )

-- For a valid database whose movies have texts that end, and a number in the range of int32_t: the client
-- that runs `get number` sends a request, the server answers it, and the client prints the number, the
-- name and the time of the movie that the box office names for this number, or, where it names none,
-- that there is no such ticket. The movies of the database stay as they are.
pub get_session :
    (junk junk' : ℕ → ℕ) (db : Database) (ipc : Ipc) (program address number : List ℕ)
    → IsValid db
    → ArePrinted db.movies
    → IsI32 (atoi number)
    → (send : Send) × (printed : List Print) × (main junk ipc
          (program ∷ address ∷ codes "get" ∷ number ∷ [])
        ≡ requests send)
      × (transact junk' db ipc send ≡ some (printed, record db { held = f_unlck }))
      × IsTicketText db.movies (atoi number) (BoxOffice.get (sales db) (atoi number)) printed
get_session junk junk' db ipc program address number v texts h =
    let (printed, done, same) =
      lookup_round junk junk' db ipc (atoi number) v h texts
        (BoxOffice.get (sales db) (atoi number)) refl in
    (
      req_get_ticket junk ipc (atoi number),
      printed,
      main-get junk ipc program address number,
      done,
      same,
    )
