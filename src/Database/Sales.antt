-- ===== src/Database/Sales.antt =====
-- A valid database sells and looks up tickets as `BoxOffice` does.
use so.Database.BoxOffice
use so.Base.{
  List, [], ap, arith, false, map, none, refl, some, suc, sym, true, zero, ℕ, ◌+◌, ◌/◌, ◌∙◌, ◌∷◌,
  ◌≡◌, ◌≤◌, get_elem?, length, length-set, set, take_all, ltb,
}
use so.Base.Int.{negsuc, pos, ℤ}
use so.Database.BoxOffice.{Sales}
use so.Database.Lookup.{scan_neg, scan_pos, scan_zero, sold_of}
use so.Database.Tickets.{db_get_ticket, db_lock, db_rlock, db_unlock}
use so.Database.Types.{Database, Movie, f_unlck}
use so.Database.Valid.{
  AreMovies, AreMovies-get, AreMovies-set, Bought, IsMovie, IsValid, bought, missing, sold_one,
  sold_one-IsMovie, sold_out,
}

abbrev pub sales : Database → Sales
sales db = map sold_of db.movies

module _ {ℓ κ} {A : Type ℓ} {B : Type κ} (f : A → B) where
  pub get_elem?-map :
      (xs : List A) (i : ℕ) {a : A} → get_elem? xs i ≡ some a → get_elem? (map f xs) i ≡ some (f a)
  get_elem?-map [] i e = cc
  get_elem?-map (x ∷ xs) zero e = cc
  get_elem?-map (x ∷ xs) (suc i) e = get_elem?-map xs i e

  get_elem?-map-none : (xs : List A) (i : ℕ) → length xs ≤ i → get_elem? (map f xs) i ≡ none
  get_elem?-map-none [] i h = refl
  get_elem?-map-none (x ∷ xs) zero h = absurd (omega arith)
  get_elem?-map-none (x ∷ xs) (suc i) h = get_elem?-map-none xs i (omega arith)

  map-set : (xs : List A) (i : ℕ) (a : A) → map f (set xs i a) ≡ set (map f xs) i (f a)
  map-set [] i a = refl
  map-set (x ∷ xs) zero a = refl
  map-set (x ∷ xs) (suc i) a = ap (λ t. f x ∷ t) (map-set xs i a)

zero_place : (i : ℕ) → 0 + i ≡ i
zero_place i = omega arith

pub IsMovie-at :
    (db : Database) (i : ℕ) {m : Movie} → IsValid db → get_elem? db.movies i ≡ some m → IsMovie i m
IsMovie-at db i v g = rw (zero_place i) at (AreMovies-get 0 i db.movies v.movies g)

set-AreMovies :
    (ms : List Movie) (i : ℕ) {m : Movie} → AreMovies 0 ms → IsMovie i m → AreMovies 0 (set ms i m)
set-AreMovies ms i {m} h v = AreMovies-set 0 i ms m h (rw (zero_place i) v)

-- A call of `db_buy_ticket` keeps the invariant, whichever way it ends.
pub Bought-IsValid :
    {db : Database} {i : ℤ} {r : ℤ × Database} → Bought db i r → IsValid db → IsValid r.1
Bought-IsValid (missing h) v = record { counted = v.counted; small = v.small; movies = v.movies }
Bought-IsValid (sold_out i m e lt g z) v = record {
  counted = v.counted;
  small = v.small;
  movies = v.movies;
}
Bought-IsValid {db} (bought i m e lt g nz) v = record {
  counted = v.counted ∙ sym (length-set db.movies i (sold_one i m));
  small = v.small;
  movies = set-AreMovies db.movies i v.movies (sold_one-IsMovie i m (IsMovie-at db i v g) nz);
}

pub Bought-sales :
    {db : Database} {i : ℤ} {r : ℤ × Database}
    → Bought db i r
    → IsValid db
    → (r.0, sales r.1) ≡ BoxOffice.buy (sales db) i
unfolding BoxOffice.buy
Bought-sales {db} {i = negsuc n} (missing h) v = refl
Bought-sales {db} {i = pos i} (missing h) v =
    rw (get_elem?-map-none sold_of db.movies i (omega (arith, h i refl, v.counted)), BoxOffice.buy)
Bought-sales {db} (sold_out i m e lt g z) v =
    let out : ltb (sold_of m) 20 ≡ false = ground arith in
    rw (e, get_elem?-map sold_of db.movies i g, BoxOffice.buy, out)
Bought-sales {db} (bought i m e lt g nz) v =
    let few : m.remaining_tickets ≤ 20 = (IsMovie-at db i v g).few in
    let room : ltb (sold_of m) 20 ≡ true = ground arith in
    let more : sold_of (sold_one i m) ≡ suc (sold_of m) = omega arith in
    rw (
      e,
      get_elem?-map sold_of db.movies i g,
      BoxOffice.buy,
      room,
      map-set sold_of db.movies i (sold_one i m),
      more,
    )

-- In a valid database `db_get_ticket` answers as `BoxOffice.get` does, for every number, and leaves the
-- movies alone.
pub db_get_ticket-sales :
    (db : Database) (t : ℤ)
    → IsValid db
    → db_get_ticket db t ≡ (BoxOffice.get (sales db) t, record db { held = f_unlck })
unfolding db_get_ticket db_rlock db_unlock db_lock BoxOffice.get
db_get_ticket-sales db (negsuc n) v =
    rw
      (take_all db.count db.movies (omega (arith, v.counted)), scan_neg n 0 db.movies none v.movies)
db_get_ticket-sales db (pos zero) v =
    rw (take_all db.count db.movies (omega (arith, v.counted)), scan_zero 0 db.movies none v.movies)
db_get_ticket-sales db (pos (suc x)) v = rw (
  take_all db.count db.movies (omega (arith, v.counted)),
  scan_pos x 0 (x / 20) db.movies none v.movies (omega arith),
)

-- A lookup keeps the invariant.
pub get-IsValid : (db : Database) (t : ℤ) → IsValid db → IsValid (db_get_ticket db t).1
get-IsValid db t v =
    rw (db_get_ticket-sales db t v)
      (record { counted = v.counted; small = v.small; movies = v.movies })
