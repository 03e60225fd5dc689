-- ===== src/System/ScriptRun.antt =====
-- The whole run of src/exe/test.c.
use so.Database.BoxOffice
use so.Base.{List, Option, [], arith, refl, some, true, ℕ, ◌++◌, ◌∷◌, ◌≡◌, ◌≢◌, ◌≤◌, get_elem?}
use so.Base.Int.{IsI32, ltb_ℤ, pos, ℤ}
use so.Actions.{
  Print, movie_name, movie_time, ticket_line, ticket_number, req_buy_ticket, req_get_ticket,
  req_movie_list, Ipc, buy_request, list_request, ticket_bytes,
}
use so.Bytes.{get_u8}
use so.Client.Buy.{buy_round}
use so.Client.Get.{ArePrinted, IsPrinted}
use so.Client.Listing.{IsListing, list_round}
use so.Client.Purchase.{Bought-sells, buy_then_get}
use so.Client.Session.{transact}
use so.Database.{db_buy_ticket, Database, Movie, f_unlck}
use so.Database.Buying.{db_buy_ticket-refines, outcome}
use so.Database.Sales.{sales}
use so.Database.Valid.{Bought, IsValid}
use so.Ipc.Messages.{deliver}
use so.Ipc.Transport.{Transport}
use so.Server.{answer, dispatch}
use so.Server.Unique.{Bought-IsI32}
use so.System.Exchanges.{buy_read, exchanges, get_read, list_read}
use so.System.Programs.{buy-IsForServer, get-IsForServer, list-IsForServer}
use so.System.Script.{expect_buy, expect_get, expect_list, script}
use so.System.Serving.{Carries}
use so.System.Session.{AreApart, IsQuiet}

-- `server` expects the requests that come.
module _ (junk junk' : ℕ → ℕ) (db : Database) (ipc : Ipc) where
  expect_list-answer :
      expect_list junk' db (deliver ipc.id (req_movie_list ipc))
      ≡ answer junk' db (deliver ipc.id (req_movie_list ipc))
  unfolding expect_list answer dispatch deliver req_movie_list list_request get_u8
  expect_list-answer = refl

  expect_buy-answer :
      (i : ℕ)
      → expect_buy junk' db (deliver ipc.id (req_buy_ticket junk ipc i))
        ≡ answer junk' db (deliver ipc.id (req_buy_ticket junk ipc i))
  unfolding expect_buy answer dispatch deliver req_buy_ticket buy_request get_u8
  expect_buy-answer i = refl

  expect_get-answer :
      (t : ℤ)
      → expect_get junk' db (deliver ipc.id (req_get_ticket junk ipc t))
        ≡ answer junk' db (deliver ipc.id (req_get_ticket junk ipc t))
  unfolding expect_get answer dispatch deliver req_get_ticket ticket_bytes get_u8
  expect_get-answer t = refl

-- The purchase of a ticket for the second movie and the lookup of its number, where a ticket is left.
record Sold (junk junk' : ℕ → ℕ) (db : Database) (ipc : Ipc) (m : Movie) : Type 0 where
  number : ℤ
  db' : Database
  name : List ℕ
  time : List ℕ
  sells : db_buy_ticket db (pos 1) ≡ some (number, db')
  positive : ltb_ℤ (pos 0) number ≡ true
  fits : IsI32 number
  valid : IsValid db'
  promised : (number, sales db') ≡ BoxOffice.buy (sales db) (pos 1)
  sale : transact junk' db ipc (req_buy_ticket junk ipc 1) ≡ some (ticket_line number ∷ [], db')
  lookup :
      transact junk' db' ipc (req_get_ticket junk ipc number)
      ≡ some (
        ticket_number number ∷ movie_name name ∷ movie_time time ∷ [],
        record db' { held = f_unlck },
      )
  texts : IsPrinted m name time

second-Sold :
    (junk junk' : ℕ → ℕ) (db : Database) (ipc : Ipc) (m : Movie)
    → IsValid db
    → ArePrinted db.movies
    → get_elem? db.movies 1 ≡ some m
    → m.remaining_tickets ≢ 0
    → Sold junk junk' db ipc m
second-Sold junk junk' db ipc m v texts here left =
    let (r, sells, same, v') = db_buy_ticket-refines db (pos 1) v in
    let b : Bought db (pos 1) r = outcome db (pos 1) v sells in
    let positive : ltb_ℤ (pos 0) r.0 ≡ true = Bought-sells b here left v in
    let (ticket, db', name, time, e1, e2, printed) =
      buy_then_get junk junk' db ipc ipc 1 m v texts here left in
    let sale : transact junk' db ipc (req_buy_ticket junk ipc 1)
        ≡ some (ticket_line r.0 ∷ [], r.1) =
      rw positive at (buy_round junk junk' db ipc 1 v (omega arith) sells) in
    let number : ticket ≡ r.0 = ground (arith, e1, sale) in
    let left_db : db' ≡ r.1 = ground (arith, e1, sale) in
    record {
      number = r.0;
      db' = r.1;
      name = name;
      time = time;
      sells = sells;
      positive = positive;
      fits = Bought-IsI32 db (pos 1) v b;
      valid = v';
      promised = same;
      sale = sale;
      lookup = rw (number, left_db) at e2;
      texts = printed;
    }

-- What the whole run prints: the list, the sale of the second movie, and this movie.
pub record IsScriptRun (T : Transport) (db : Database) (m : Movie)
    (r : Option (List Print × Database × T.State)) : Type 0 where
  pub movies : List Print
  pub number : ℤ
  pub name : List ℕ
  pub time : List ℕ
  pub db' : Database
  pub t' : T.State
  pub result :
      r
      ≡ some (
        movies
            ++ ticket_line number ∷ ticket_number number ∷ movie_name name ∷ movie_time time ∷ [],
        record db' { held = f_unlck },
        t',
      )
  pub listing : IsListing 0 db.movies movies
  pub promised : (number, sales db') ≡ BoxOffice.buy (sales db) (pos 1)
  pub texts : IsPrinted m name time
  pub quiet : IsQuiet T t'

-- For a client and a server with different addresses, a transport that holds no message, a valid database of
-- at most 230 movies whose texts end, of whose second movie a ticket is left, and whose list of movies the
-- transport carries: the scripted run ends. It prints the list of the movies, the number that the box office
-- gives for the second movie, and this number again with the name and the time of this movie. The sales that
-- are left are those of the box office, and the transport holds no message.
pub script-IsScriptRun :
    (T : Transport) (junk junk' : ℕ → ℕ) (db : Database) (ipc : Ipc) (m : Movie) (t : T.State)
    → Carries T.capacity db
    → db.count ≤ 230
    → ArePrinted db.movies
    → get_elem? db.movies 1 ≡ some m
    → m.remaining_tickets ≢ 0
    → IsQuiet T t
    → AreApart ipc
    → IsScriptRun T db m (script T junk junk' db ipc t)
unfolding script
script-IsScriptRun T junk junk' db ipc m t c few texts here left q far =
    let (movies, e, listing) = list_round junk' db c.valid (omega (arith, few)) ipc texts in
    let s : Sold junk junk' db ipc m = second-Sold junk junk' db ipc m c.valid texts here left in
    let x1 =
      exchanges T junk' ipc far (expect_list junk' db) (expect_list-answer junk junk' db ipc) e c q
        (list-IsForServer junk ipc) in
    let x2 =
      exchanges T junk' ipc far (expect_buy junk' db) (expect_buy-answer junk junk' db ipc 1) s.sale
        x1.carries x1.quiet (buy-IsForServer junk ipc 1) in
    let x3 =
      exchanges T junk' ipc far (expect_get junk' s.db')
        (expect_get-answer junk junk' s.db' ipc s.number) s.lookup x2.carries x2.quiet
        (get-IsForServer junk ipc s.number) in
    let lines = list_read T junk junk' ipc far (expect_list junk' db) x1 c.valid few in
    let (ticket, line) =
      buy_read T junk junk' ipc far (expect_buy junk' db) 1 x2 c.valid (omega arith) s.sells
        s.positive in
    let found = get_read T junk junk' ipc far (expect_get junk' s.db') s.number x3 s.valid s.fits in
    record {
      movies = movies;
      number = s.number;
      name = s.name;
      time = s.time;
      db' = s.db';
      t' = x3.after;
      result = rw (x1.done, lines, x2.done, ticket, line, x3.done, found) refl;
      listing = listing;
      promised = s.promised;
      texts = s.texts;
      quiet = x3.quiet;
    }
