-- ===== src/Client/Purchase.antt =====
-- A client buys a ticket and later asks for it, as the client of src/exe/test.c does.
use so.Base.{
  List, [], arith, refl, some, suc, sym, true, zero, ℕ, ℕ_discrete, ◌<◌, ◌^◌, ◌∙◌, ◌∷◌, ◌≡◌, ◌≢◌,
  get_elem?, get_elem?-lt, get_elem?-set_ne, get_elem?-set_self, set,
}
use so.Base.Int.{ltb_ℤ, pos, ℤ}
use so.Actions.{
  movie_name, movie_time, ticket_line, ticket_number, req_buy_ticket, req_get_ticket, Ipc,
}
use so.Client.Buy.{buy_round}
use so.Client.Get.{ArePrinted, IsPrinted}
use so.Client.Lookup.{lookup_round}
use so.Client.Session.{transact}
use so.Database.{Database, Movie, f_unlck}
use so.Database.Buying.{db_buy_ticket-refines, db_buy_ticket_fresh, get-sales, outcome}
use so.Database.Valid.{Bought, IsValid, bought, missing, sold_one, sold_out}
use so.Libc.{lines}
use so.Server.Unique.{Bought-IsI32}

ArePrinted-set :
    (ms : List Movie) (i k : ℕ) {m : Movie}
    → get_elem? ms i ≡ some m
    → ArePrinted ms
    → ArePrinted (set ms i (sold_one k m))
ArePrinted-set [] i k e h = tt
ArePrinted-set (x ∷ ms) zero k {m} e ((name, time, p), h) =
    let same : x ≡ m = ground arith in
    (
      (
        name,
        time,
        record { name_ends = rw same at p.name_ends; time_ends = rw same at p.time_ends },
      ),
      h,
    )
ArePrinted-set (x ∷ ms) (suc i) k e h = (h.0, ArePrinted-set ms i k e h.1)

-- No call of `db_buy_ticket` changes a text.
Bought-ArePrinted :
    {db : Database} {i : ℤ} {r : ℤ × Database}
    → Bought db i r
    → ArePrinted db.movies
    → ArePrinted r.1.movies
Bought-ArePrinted (missing out) h = h
Bought-ArePrinted (sold_out i m is lt e none_left) h = h
Bought-ArePrinted {db} (bought i m is lt e left) h = ArePrinted-set db.movies i i e h

Bought-texts :
    {db : Database} {i : ℤ} {r : ℤ × Database} (j : ℕ) (m' : Movie)
    → Bought db i r
    → get_elem? r.1.movies j ≡ some m'
    → (m : Movie) × (get_elem? db.movies j ≡ some m) × (m.name ≡ m'.name) × (m.time ≡ m'.time)
Bought-texts j m' (missing out) h = (m', h, refl, refl)
Bought-texts j m' (sold_out i m is lt e none_left) h = (m', h, refl, refl)
Bought-texts {db} j m' (bought i m is lt e left) h = elim (ℕ_discrete i j) [
  | yes same ↦
      let new = get_elem?-set_self db.movies i (sold_one i m) (get_elem?-lt db.movies i m e) in
      let is_sold : m' ≡ sold_one i m = ground (arith, rw same at new) in
      (m, rw (← same) e, rw is_sold refl, rw is_sold refl)
  | no n ↦ (m', rw (get_elem?-set_ne db.movies i j (sold_one i m) n) at h, refl, refl)
]

-- Of a movie that has a ticket left one is sold.
pub Bought-sells :
    {db : Database} {i : ℕ} {m : Movie} {r : ℤ × Database}
    → Bought db (pos i) r
    → get_elem? db.movies i ≡ some m
    → m.remaining_tickets ≢ 0
    → IsValid db
    → ltb_ℤ (pos 0) r.0 ≡ true
Bought-sells {db} {i} {m} (missing out) e left v =
    let outside = out i refl in absurd (omega (arith, get_elem?-lt db.movies i m e, v.counted))
Bought-sells {db} {i} {m} (sold_out j m' is lt e' none_left) e left v =
    let place : i ≡ j = ground arith in
    let movie : m ≡ m' = ground (arith, rw place at e) in absurd (left (rw movie none_left))
Bought-sells (bought j m' is lt e' some_left) e left v = ground arith

-- For a valid database whose movies have texts that end, and a movie of which a ticket is left: a client that
-- requests a ticket for it prints a number, and a client that asks for this number from the server's new
-- database, which the server answers, prints the number, and the name and the time of this movie.
pub buy_then_get :
    (junk junk' : ℕ → ℕ) (db : Database) (buyer asker : Ipc) (i : ℕ) (m : Movie)
    → IsValid db
    → ArePrinted db.movies
    → get_elem? db.movies i ≡ some m
    → m.remaining_tickets ≢ 0
    → (ticket : ℤ) × (db' : Database) × (name : List ℕ) × (time : List ℕ) × (transact junk' db buyer
          (req_buy_ticket junk buyer i)
        ≡ some (ticket_line ticket ∷ [], db'))
      × (transact junk' db' asker (req_get_ticket junk asker ticket)
          ≡ some (
            ticket_number ticket ∷ movie_name name ∷ movie_time time ∷ [],
            record db' { held = f_unlck },
          ))
      × IsPrinted m name time
buy_then_get junk junk' db buyer asker i m v texts here left =
    let (r, e, same, v') = db_buy_ticket-refines db (pos i) v in
    let b : Bought db (pos i) r = outcome db (pos i) v e in
    let sells : ltb_ℤ (pos 0) r.0 ≡ true = Bought-sells b here left v in
    let low : i < 2 ^ 16 = omega (arith, get_elem?-lt db.movies i m here, v.counted, v.small) in
    let (unsold, j, is, found) = db_buy_ticket_fresh db (pos i) v e sells in
    let (printed, done, (m', name, time, at, p, lines)) =
      lookup_round junk junk' r.1 asker r.0 v' (Bought-IsI32 db (pos i) v b)
        (Bought-ArePrinted b texts) (some j) (sym (get-sales r.1 r.0 v') ∙ found) in
    let (m'', before, names, times) = Bought-texts j m' b at in
    let place : i ≡ j = ground arith in
    let movie : m ≡ m'' = ground (arith, rw place at here) in
    (
      r.0,
      r.1,
      name,
      time,
      rw sells at (buy_round junk junk' db buyer i v low e),
      rw lines at done,
      record {
        name_ends = rw (movie, names) p.name_ends;
        time_ends = rw (movie, times) p.time_ends;
      },
    )
