-- ===== src/Database/Samples.antt =====
-- A hall with two movies, and the same after the sale of a ticket: data of the tests.
use so.Base.{[], arith, refl, some, ◌∷◌, ◌≡◌}
use so.Base.Int.{pos}
use so.Database.Buying.{outcome}
use so.Database.Layout.{movie_init}
use so.Database.Sales.{Bought-IsValid}
use so.Database.Tickets.{buy_at, db_buy_ticket, db_lock, db_unlock, db_wlock, sell}
use so.Database.Types.{Database, Movie, f_unlck}
use so.Database.Valid.{IsValid, movie_init-IsMovie, sold_one}
use so.Libc.{strncpy}

abbrev pub gravity : Movie
gravity = movie_init (b'G' ∷ []) (b'9' ∷ [])

abbrev pub alien : Movie
alien = movie_init (b'A' ∷ []) (b'7' ∷ [])

abbrev pub hall : Database
hall = record { st_size = 568; count = 2; movies = gravity ∷ alien ∷ []; held = f_unlck }

pub hall-IsValid : IsValid hall
hall-IsValid = record {
  counted = refl;
  small = omega arith;
  movies = (
    movie_init-IsMovie (b'G' ∷ []) (b'9' ∷ []) 0,
    (movie_init-IsMovie (b'A' ∷ []) (b'7' ∷ []) 1, tt),
  );
}

-- The second movie's first ticket.
abbrev pub after_sale : Database
after_sale = record hall { movies = gravity ∷ sold_one 1 alien ∷ [] }

pub sells_21 : db_buy_ticket hall (pos 1) ≡ some (pos 21, after_sale)
unfolding db_buy_ticket db_wlock db_lock buy_at sell db_unlock movie_init strncpy
sells_21 = refl

pub after_sale-IsValid : IsValid after_sale
after_sale-IsValid = Bought-IsValid (outcome hall (pos 1) hall-IsValid sells_21) hall-IsValid
