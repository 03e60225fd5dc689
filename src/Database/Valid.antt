-- ===== src/Database/Valid.antt =====
-- The invariant of the database: the tickets of a movie are numbered by its place in the file, in the
-- order of their sale, and the free places hold 0. The operations keep it.
use so.Base.{
  List, Option, [], ap, append_assoc, arith, false, inl, inr, none, refl, some, suc, sym, zero, ℕ,
  ◌*◌, ◌++◌, ◌+◌, ◌-◌, ◌<◌, ◌^◌, ◌∙◌, ◌∷◌, ◌≡◌, ◌≢◌, ◌≤◌, get_elem?, get_elem?-total, length,
  length-append, replicate, set, set-append, ==→eq, Bool-cases, le→ltb, ltb, ltb→lt, ◌==◌,
}
use so.Base.Int.{negsuc, pos, ℤ}
use so.Database.Layout.{movie_init}
use so.Database.Tickets.{buy_at, db_buy_ticket, db_lock, db_unlock, db_wlock, next_ticket, sell}
use so.Database.Types.{
  Database, Movie, err_no_more_tickets, err_no_such_movie, f_unlck, f_wrlck, movie_max_tickets,
}
use so.Libc.{length-strncpy}

-- The tickets `base + 1`, …, `base + n`.
unfoldable pub issued : ℕ → ℕ → List ℤ
issued base zero = []
issued base (suc n) = issued base n ++ pos (base + n + 1) ∷ []

pub length-issued : (base n : ℕ) → length (issued base n) ≡ n
unfolding issued
length-issued base zero = refl
length-issued base (suc n) =
    omega (arith, length-append (issued base n) (pos (base + n + 1) ∷ []), length-issued base n)

-- What `tickets` holds for the movie at place `i` when `r` of its tickets remain.
abbrev pub ticket_array : ℕ → ℕ → List ℤ
ticket_array i r = issued (i * movie_max_tickets) (movie_max_tickets - r) ++ replicate r (pos 0)

pub record IsMovie (i : ℕ) (m : Movie) : Type 0 where
  pub name_size : length m.name ≡ 100
  pub time_size : length m.time ≡ 100
  pub few : m.remaining_tickets ≤ movie_max_tickets
  pub sold : m.tickets ≡ ticket_array i m.remaining_tickets

-- The movies from place `k` on.
abbrev pub AreMovies : ℕ → List Movie → Type 0
AreMovies k [] = Unit
AreMovies k (m ∷ ms) = IsMovie k m × AreMovies (suc k) ms

pub record IsValid (db : Database) : Type 0 where
  pub counted : db.count ≡ length db.movies
  pub small : db.count < 2 ^ 16
  pub movies : AreMovies 0 db.movies

-- A movie as `movie_init` leaves it fits every place.
pub movie_init-IsMovie : (name time : List ℕ) (i : ℕ) → IsMovie i (movie_init name time)
unfolding movie_init issued
movie_init-IsMovie name time i = record {
  name_size = length-strncpy name 100;
  time_size = length-strncpy time 100;
  few = omega arith;
  sold = refl;
}

pub AreMovies-get :
    (k i : ℕ) (ms : List Movie) {m : Movie}
    → AreMovies k ms
    → get_elem? ms i ≡ some m
    → IsMovie (k + i) m
AreMovies-get k i [] h e = ground arith
AreMovies-get k zero (x ∷ ms) {m} h e =
    let p : k + zero ≡ k = omega arith in let q : x ≡ m = cc in rw (p, ← q) (h.0)
AreMovies-get k (suc i) (x ∷ ms) {m} h e =
    let p : k + suc i ≡ suc k + i = omega arith in rw p (AreMovies-get (suc k) i ms h.1 e)

pub AreMovies-set :
    (k i : ℕ) (ms : List Movie) (m : Movie)
    → AreMovies k ms
    → IsMovie (k + i) m
    → AreMovies k (set ms i m)
AreMovies-set k i [] m h v = h
AreMovies-set k zero (x ∷ ms) m h v = let p : k + zero ≡ k = omega arith in (rw p at v, h.1)
AreMovies-set k (suc i) (x ∷ ms) m h v =
    let p : k + suc i ≡ suc k + i = omega arith in
    (h.0, AreMovies-set (suc k) i ms m h.1 (rw p at v))

-- The record that a sale writes.
abbrev pub sold_one : ℕ → Movie → Movie
sold_one i m = record m {
  tickets =
      set m.tickets (movie_max_tickets - m.remaining_tickets) (next_ticket i m.remaining_tickets);
  remaining_tickets = m.remaining_tickets - 1;
}

-- A sale writes the first free place, and that extends the row of tickets by one.
set-ticket_array :
    (i r : ℕ)
    → r < 20
    → set (ticket_array i (suc r)) (20 - suc r) (next_ticket i (suc r)) ≡ ticket_array i r
unfolding issued
set-ticket_array i r h =
    let step : 20 - r ≡ suc (20 - suc r) = omega arith in
    rw (
      set-append (issued (i * 20) (20 - suc r)) (pos 0) (replicate r (pos 0)) (20 - suc r)
          (next_ticket i (suc r)) (sym (length-issued (i * 20) (20 - suc r))),
      step,
      append_assoc,
    )

sell-ticket_array :
    (i r : ℕ)
    → r ≤ 20
    → r ≢ 0
    → set (ticket_array i r) (20 - r) (next_ticket i r) ≡ ticket_array i (r - 1)
sell-ticket_array i zero h ne = absurd (ne refl)
sell-ticket_array i (suc r) h ne =
    let back : suc r - 1 ≡ r = omega arith in rw back (set-ticket_array i r (omega arith))

pub sold_one-IsMovie :
    (i : ℕ) (m : Movie) → IsMovie i m → m.remaining_tickets ≢ 0 → IsMovie i (sold_one i m)
sold_one-IsMovie i m v ne = record {
  name_size = v.name_size;
  time_size = v.time_size;
  few = omega (arith, v.few);
  sold =
      ap (λ ts. set ts (20 - m.remaining_tickets) (next_ticket i m.remaining_tickets)) v.sold
      ∙ sell-ticket_array i m.remaining_tickets v.few ne;
}

-- What a call of `db_buy_ticket` comes to, on every branch.
pub data Bought (db : Database) (movie_i : ℤ) : ℤ × Database → Type 0 where
  missing :
      ((i : ℕ) → movie_i ≡ pos i → db.count ≤ i)
      → Bought db movie_i (err_no_such_movie, record db { held = f_wrlck })
  sold_out :
      (i : ℕ) (m : Movie)
      → movie_i ≡ pos i
      → i < db.count
      → get_elem? db.movies i ≡ some m
      → m.remaining_tickets ≡ 0
      → Bought db movie_i (err_no_more_tickets, record db { held = f_wrlck })
  bought :
      (i : ℕ) (m : Movie)
      → movie_i ≡ pos i
      → i < db.count
      → get_elem? db.movies i ≡ some m
      → m.remaining_tickets ≢ 0
      → Bought db movie_i (
        next_ticket i m.remaining_tickets,
        record db { movies = set db.movies i (sold_one i m); held = f_unlck },
      )

abbrev pub Bought? : Database → ℤ → Option (ℤ × Database) → Type 0
Bought? db movie_i none = ⊥
Bought? db movie_i (some r) = Bought db movie_i r

sell-Bought :
    (db : Database) (i : ℕ) (m : Movie)
    → IsValid db
    → i < db.count
    → get_elem? db.movies i ≡ some m
    → Bought? db (pos i) (sell (record db { held = f_wrlck }) i m)
unfolding sell db_unlock
sell-Bought db i m v lt e = elim (Bool-cases (m.remaining_tickets == 0)) [
  | inl z ↦ rw z (sold_out i m refl lt e (==→eq _ _ z))
  | inr nz ↦
      let big : ltb movie_max_tickets m.remaining_tickets ≡ false =
        ground (arith, (AreMovies-get 0 i db.movies v.movies e).few) in
      rw (nz, big) (bought i m refl lt e (ground arith))
]

buy_at-Bought :
    (db : Database) (i : ℕ)
    → IsValid db
    → i < db.count
    → Bought? db (pos i) (buy_at (record db { held = f_wrlck }) (pos i))
unfolding buy_at
buy_at-Bought db i v lt =
    let (m, e) = get_elem?-total db.movies i (omega (arith, v.counted)) in
    rw (e, Bought?) (sell-Bought db i m v lt e)

-- On a valid database the call returns, and what it returns is one of the three outcomes.
pub db_buy_ticket-Bought :
    (db : Database) (movie_i : ℤ) → IsValid db → Bought? db movie_i (db_buy_ticket db movie_i)
unfolding db_buy_ticket db_wlock db_lock
db_buy_ticket-Bought db (negsuc n) v = missing (λ i e. cc)
db_buy_ticket-Bought db (pos i) v = elim (Bool-cases (ltb i db.count)) [
  | inl lt ↦ rw (lt, le→ltb i 0 (omega arith)) (buy_at-Bought db i v (ltb→lt _ _ lt))
  | inr ge ↦ rw (ge, le→ltb i 0 (omega arith)) (missing (λ j e. ground arith))
]
