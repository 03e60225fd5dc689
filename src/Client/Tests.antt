-- ===== src/Client/Tests.antt =====
-- The sessions of a client at the hall of two movies, and of one at a hall of 231.
use so.Database.BoxOffice
use so.Base.{List, [], arith, none, refl, some, ℕ, ◌*◌, ◌+◌, ◌<◌, ◌∷◌, ◌≡◌, ◌≢◌}
use so.Base.Int.{pos, ℤ}
use so.Actions.{
  Print, movie_name, movie_time, ticket_line, ticket_number, req_buy_ticket, req_get_ticket,
  req_movie_list, res_movie_list, Ipc, Send,
}
use so.Client.Buy.{buy_session, sale_text}
use so.Client.Get.{IsPrinted, IsTicketText}
use so.Client.Listing.{IsListing, list_session}
use so.Client.Lookup.{get_session}
use so.Client.Main.{main, requests}
use so.Client.Overrun.{list_overrun}
use so.Client.Purchase.{buy_then_get}
use so.Client.Samples.{crowded, crowded-IsValid, hall-ArePrinted}
use so.Client.Session.{transact}
use so.Database.{movie_init, Database, f_unlck}
use so.Database.Sales.{sales}
use so.Database.Samples.{alien, hall, hall-IsValid}
use so.Database.Valid.{IsValid}
use so.Libc.{atoi, codes}

abbrev junk : ℕ → ℕ
junk i = i

abbrev ipc : Ipc
ipc = record { id = 100; server_id = 7 }

abbrev program : List ℕ
program = codes "client"

abbrev address : List ℕ
address = codes "ipc/7"

two : atoi (codes "2") ≡ pos 2
unfolding atoi
two = refl

twenty_one : atoi (codes "21") ≡ pos 21
unfolding atoi
twenty_one = refl

buy_session_example :
    (send : Send) × (db' : Database) × (main junk ipc
        (program ∷ address ∷ codes "buy" ∷ codes "2" ∷ [])
      ≡ requests send)
    × (transact junk hall ipc send
        ≡ some (sale_text (BoxOffice.buy (sales hall) (pos 1)).0 ∷ [], db'))
    × (sales db' ≡ (BoxOffice.buy (sales hall) (pos 1)).1)
    × IsValid db'
buy_session_example =
    buy_session junk junk hall ipc program address (codes "2") 1 hall-IsValid (omega arith) two

get_session_example :
    (send : Send) × (printed : List Print) × (main junk ipc
        (program ∷ address ∷ codes "get" ∷ codes "21" ∷ [])
      ≡ requests send)
    × (transact junk hall ipc send ≡ some (printed, record hall { held = f_unlck }))
    × IsTicketText hall.movies
        (atoi (codes "21"))
        (BoxOffice.get (sales hall) (atoi (codes "21")))
        printed
get_session_example =
    get_session junk junk hall ipc program address (codes "21") hall-IsValid hall-ArePrinted
      (rw twenty_one (omega arith))

list_session_example :
    (send : Send) × (printed : List Print) × (main junk ipc (program ∷ address ∷ codes "list" ∷ [])
      ≡ requests send)
    × (transact junk hall ipc send ≡ some (printed, hall))
    × IsListing 0 hall.movies printed
list_session_example =
    list_session junk hall ipc program address hall-IsValid (omega arith) hall-ArePrinted

list_overrun_example :
    ((res_movie_list junk (crowded 231) 100).size < 4 + 284 * 231)
    × (transact junk (crowded 231) ipc (req_movie_list ipc) ≡ none)
list_overrun_example =
    list_overrun junk (crowded 231) ipc (crowded-IsValid 231 (omega arith)) (omega arith)

buy_then_get_example :
    (ticket : ℤ) × (db' : Database) × (name : List ℕ) × (time : List ℕ) × (transact junk hall ipc
        (req_buy_ticket junk ipc 1)
      ≡ some (ticket_line ticket ∷ [], db'))
    × (transact junk db' ipc (req_get_ticket junk ipc ticket)
        ≡ some (
          ticket_number ticket ∷ movie_name name ∷ movie_time time ∷ [],
          record db' { held = f_unlck },
        ))
    × IsPrinted alien name time
buy_then_get_example =
    buy_then_get junk junk hall ipc ipc 1 alien hall-IsValid hall-ArePrinted refl some_left
  where
    some_left : alien.remaining_tickets ≢ 0
    some_left = unfold movie_init in λ e. cc
