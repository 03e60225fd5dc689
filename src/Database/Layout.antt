-- ===== src/Database/Layout.antt =====
-- src/database.c: `movie_init`, `db_open`, and the bytes of a `movie_t` in the mapped file.
use so.Base.{
  ℕ, zero, suc, ◌/◌, ◌%◌, ◌^◌, Option, some, List, [], ◌∷◌, ◌++◌, length, take, drop, replicate,
}
use so.Base.Int.{pos}
use so.Libc.{strncpy}
use so.Bytes.{put_u16, put_i32s, first_u16, first_i32s, ◌>>=◌}
use so.Database.Types.{
  movie_max_tickets, movie_name_length, movie_time_length, Movie, f_unlck, Database,
}

unfoldable pub movie_init : List ℕ → List ℕ → Movie
movie_init name time = record {
  name = strncpy name movie_name_length;
  time = strncpy time movie_time_length;
  remaining_tickets = movie_max_tickets;
  tickets = replicate movie_max_tickets (pos 0);
}

-- sizeof(movie_t): the int32_t array is aligned to 4, so two bytes of padding stand before it.
abbrev pub movie_size : ℕ
movie_size = 284

-- A `movie_t` in memory; what its padding holds is not specified.
unfoldable pub put_movie : List ℕ → Movie → List ℕ
put_movie padding m =
    m.name ++ (m.time ++ (put_u16 m.remaining_tickets ++ (padding ++ put_i32s m.tickets)))

-- The `movie_t` at the start of a buffer.
unfoldable pub first_movie : List ℕ → Option Movie
first_movie bs = do
  remaining ← first_u16 (drop 200 bs)
  tickets ← first_i32s movie_max_tickets (drop 204 bs)
  some (record {
    name = take movie_name_length bs;
    time = take movie_time_length (drop 100 bs);
    remaining_tickets = remaining;
    tickets = tickets;
  })

-- `n` of them in a row.
unfoldable pub first_movies : ℕ → List ℕ → Option (List Movie)
first_movies zero bs = some []
first_movies (suc n) bs = do
  m ← first_movie bs
  ms ← first_movies n (drop movie_size bs)
  some (m ∷ ms)

unfoldable pub put_movies : List ℕ → List Movie → List ℕ
put_movies padding [] = []
put_movies padding (m ∷ ms) = put_movie padding m ++ put_movies padding ms

-- `db_open` on a file with these bytes. `count` is a uint16_t; the mapping covers the whole file.
unfoldable pub db_open : List ℕ → Option Database
db_open file = do
  movies ← first_movies (length file / movie_size) file
  some (record {
    st_size = length file;
    count = length file / movie_size % 2 ^ 16;
    movies = movies;
    held = f_unlck;
  })
