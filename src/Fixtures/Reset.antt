-- ===== src/Fixtures/Reset.antt =====
-- bin/reset, then `db_open`: the file that `fixtures_read` writes is a valid database.
use so.Fixtures.{fixtures_read1, read_lines, fixtures_read, read1, parse_movie}  -- keep
use so.Base.{
  List, [], ap, arith, map, refl, some, suc, ℕ, ◌%◌, ◌*◌, ◌<◌, ◌^◌, ◌∙◌, ◌∷◌, ◌≡◌, All, length,
  replicate,
}
use so.Bytes.{>>=-eq-some}
use so.Database.{db_open, movie_init, put_movies, Database, Movie, f_unlck}
use so.Database.File.{IsSized, db_open-put_movies}
use so.Database.Lookup.{sold_of}
use so.Database.Sales.{sales}
use so.Database.Valid.{AreMovies, IsValid, movie_init-IsMovie}
use so.Libc.{length-strncpy, c_string, lines, strtok}

-- A movie as `movie_init` leaves it.
abbrev pub IsNew : Movie → Type 0
IsNew m = (name : List ℕ) × (time : List ℕ) × (m ≡ movie_init name time)

parse_movie-IsNew : (s : List ℕ) {m : Movie} → parse_movie s ≡ some m → IsNew m
unfolding parse_movie
parse_movie-IsNew s {m} e =
    let (name, n, later) = >>=-eq-some (strtok b',' s).0 _ e in
    let (time, t, made) = >>=-eq-some (strtok b',' (strtok b',' s).1).0 _ later in
    (name, time, ground (arith, made))

read1-IsNew : (s : List ℕ) {m : Movie} → read1 s ≡ some m → IsNew m
unfolding read1
read1-IsNew [] e = cc
read1-IsNew (b ∷ bs) e = parse_movie-IsNew _ e

-- The loop writes the array of the movies that the lines stand for.
read_lines-put_movies :
    (padding : List ℕ) (ls : List (List ℕ)) {file : List ℕ}
    → read_lines padding ls ≡ some file
    → (ms : List Movie) × (file ≡ put_movies padding ms) × (length ms ≡ length ls) × All IsNew ms
unfolding read_lines put_movies fixtures_read1
read_lines-put_movies padding [] e = ([], ground arith, refl, tt)
read_lines-put_movies padding (l ∷ ls) {file} e =
    let (m, is_read, later) = >>=-eq-some (fixtures_read1 l) _ e in
    let (rest, written, joined) = >>=-eq-some (read_lines padding ls) _ later in
    let (ms, same, size, new) = read_lines-put_movies padding ls written in
    (m ∷ ms, ground (arith, joined, same), ap suc size, (read1-IsNew (c_string l) is_read, new))

movie_init-IsSized : (name time : List ℕ) → IsSized (movie_init name time)
unfolding movie_init
movie_init-IsSized name time = record {
  name_size = length-strncpy name 100;
  time_size = length-strncpy time 100;
  small = omega arith;
  ticket_count = refl;
  ticket_range = omega arith;
}

IsNew-IsSized : (ms : List Movie) → All IsNew ms → All IsSized ms
IsNew-IsSized [] h = tt
IsNew-IsSized (m ∷ ms) ((name, time, e), h) =
    (rw e (movie_init-IsSized name time), IsNew-IsSized ms h)

IsNew-AreMovies : (k : ℕ) (ms : List Movie) → All IsNew ms → AreMovies k ms
IsNew-AreMovies k [] h = tt
IsNew-AreMovies k (m ∷ ms) ((name, time, e), h) =
    (rw e (movie_init-IsMovie name time k), IsNew-AreMovies (suc k) ms h)

-- A new movie has sold nothing.
sales-IsNew : (ms : List Movie) → All IsNew ms → map sold_of ms ≡ replicate (length ms) 0
unfolding movie_init
sales-IsNew [] h = refl
sales-IsNew (m ∷ ms) ((name, time, e), h) = rw (e, sales-IsNew ms h)

-- If `fixtures_read` gets through a text of fewer than 2 ^ 16 lines, `db_open` maps the file that it
-- wrote to a valid database with one movie a line, and no ticket of them is sold.
pub reset-IsValid :
    (padding text : List ℕ) {file : List ℕ}
    → length padding ≡ 2
    → length (lines text) < 2 ^ 16
    → fixtures_read padding text ≡ some file
    → (db : Database) × (db_open file ≡ some db)
      × IsValid db
      × (db.count ≡ length (lines text))
      × (sales db ≡ replicate (length (lines text)) 0)
unfolding fixtures_read
reset-IsValid padding text p small e =
    let (ms, same, size, new) = read_lines-put_movies padding (lines text) e in
    let counted : length ms % 2 ^ 16 ≡ length ms = omega arith in
    (
      record { st_size = 284 * length ms; count = length ms % 2 ^ 16; movies = ms; held = f_unlck },
      ap db_open same ∙ db_open-put_movies padding p ms (IsNew-IsSized ms new),
      record { counted = counted; small = omega arith; movies = IsNew-AreMovies 0 ms new },
      omega arith,
      sales-IsNew ms new ∙ ap (λ n. replicate n 0) size,
    )
