-- ===== src/Database/Tickets.antt =====
-- src/database.c: the record locks, `db_find`, `db_buy_ticket` and `db_get_ticket`.
use so.Base.{
  ℕ, suc, ◌+◌, ◌-◌, ◌*◌, ◌||◌, Option, none, some, List, [], ◌∷◌, take, set, get_elem?, ltb, ◌==◌,
  if◌then◌else◌, not,
}
use so.Base.Int.{ℤ, pos, negsuc, ltb_ℤ, eq_ℤ}
use so.Libc.{c_string, same_string}
use so.Database.Types.{
  movie_max_tickets, err_no_such_movie, err_no_more_tickets, Movie, Lock, f_rdlck, f_wrlck, f_unlck,
  Database,
}

-- fcntl(F_SETLKW) returns once the process holds a lock of the type asked for, on the whole file.
unfoldable pub db_lock : Lock → Database → Database
db_lock type db = record db { held = type }

unfoldable pub db_rlock : Database → Database
db_rlock db = db_lock f_rdlck db

unfoldable pub db_wlock : Database → Database
db_wlock db = db_lock f_wrlck db

unfoldable pub db_unlock : Database → Database
db_unlock db = record db { held = f_unlck }

-- The loop of `db_find` from index `i`: pointers are indices into `movies`, none is NULL.
unfoldable pub find_from : List ℕ → ℕ → List Movie → Option ℕ
find_from name i [] = none
find_from name i (m ∷ ms) =
    let rest = find_from name (suc i) ms in
    if same_string (c_string m.name) name then some i else rest

unfoldable pub db_find : Database → List ℕ → Option ℕ
db_find db name = find_from name 0 (take db.count db.movies)

-- The ticket number for the next sale.
abbrev pub next_ticket : ℕ → ℕ → ℤ
next_ticket movie_i remaining =
    pos (movie_i * movie_max_tickets + (movie_max_tickets - remaining) + 1)

-- `db_buy_ticket` from `movie_t *movie` on. A write outside `tickets` is a fault (none).
unfoldable pub sell : Database → ℕ → Movie → Option (ℤ × Database)
sell db movie_i m =
    if m.remaining_tickets == 0
    then some (err_no_more_tickets, db)
    else if ltb movie_max_tickets m.remaining_tickets
    then none
    else some (
      next_ticket movie_i m.remaining_tickets,
      db_unlock (record db {
        movies = set db.movies movie_i (record m {
          tickets =
              set m.tickets (movie_max_tickets - m.remaining_tickets)
                (next_ticket movie_i m.remaining_tickets);
          remaining_tickets = m.remaining_tickets - 1;
        });
      }),
    )

-- `database->movies[movie_i]`: a read outside `movies` is a fault (none).
unfoldable pub buy_at : Database → ℤ → Option (ℤ × Database)
buy_at db (negsuc n) = none
buy_at db (pos i) = elim (get_elem? db.movies i) [ none ↦ none | some m ↦ sell db i m ]

-- The early returns, here and in `sell`, leave the lock as `db_wlock` set it.
unfoldable pub db_buy_ticket : Database → ℤ → Option (ℤ × Database)
db_buy_ticket db movie_i =
    let locked = db_wlock db in
    if ltb_ℤ movie_i (pos 0) || not (ltb_ℤ movie_i (pos locked.count))
    then some (err_no_such_movie, locked)
    else buy_at locked movie_i

-- The inner loop of `db_get_ticket`, at movie `movie_i`; `movie` is the variable it assigns.
unfoldable pub scan_tickets : ℤ → ℕ → List ℤ → Option ℕ → Option ℕ
scan_tickets ticket movie_i [] movie = movie
scan_tickets ticket movie_i (t ∷ ts) movie =
    scan_tickets ticket movie_i ts (if eq_ℤ t ticket then some movie_i else movie)

-- The outer loop, from `movie_i` on.
unfoldable pub scan_movies : ℤ → ℕ → List Movie → Option ℕ → Option ℕ
scan_movies ticket movie_i [] movie = movie
scan_movies ticket movie_i (m ∷ ms) movie =
    scan_movies ticket (suc movie_i) ms
      (scan_tickets ticket movie_i (take movie_max_tickets m.tickets) movie)

unfoldable pub db_get_ticket : Database → ℤ → Option ℕ × Database
db_get_ticket db ticket =
    let locked = db_rlock db in
    (scan_movies ticket 0 (take locked.count locked.movies) none, db_unlock locked)
