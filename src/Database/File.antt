-- ===== src/Database/File.antt =====
-- The bytes of the database file: what is written as an array of `movie_t` is what `db_open` maps.
use so.Base.{
  List, [], append-nil, append_assoc, arith, refl, some, ℕ, ◌%◌, ◌*◌, ◌++◌, ◌/◌, ◌<◌, ◌^◌, ◌∷◌, ◌≡◌,
  All, drop, drop-append, length, length-append, take, take-append,
}
use so.Base.Int.{IsI32}
use so.Bytes.{put_i32s, put_u16, first_i32s-put_i32s, first_u16-put_u16, length-put_i32s}
use so.Database.Layout.{db_open, first_movie, first_movies, movie_size, put_movie, put_movies}
use so.Database.Types.{Movie, f_unlck}

-- A movie whose fields fit their arrays and types.
pub record IsSized (m : Movie) : Type 0 where
  pub name_size : length m.name ≡ 100
  pub time_size : length m.time ≡ 100
  pub small : m.remaining_tickets < 2 ^ 16
  pub ticket_count : length m.tickets ≡ 20
  pub ticket_range : All IsI32 m.tickets

module _ (padding : List ℕ) (padded : length padding ≡ 2) where
  pub length-put_movie : (m : Movie) → IsSized m → length (put_movie padding m) ≡ movie_size
  unfolding put_movie put_u16
  length-put_movie m v = omega (
    arith,
    v.name_size,
    v.time_size,
    v.ticket_count,
    padded,
    length-put_i32s m.tickets,
    length-append m.name
        (m.time ++ (put_u16 m.remaining_tickets ++ (padding ++ put_i32s m.tickets))),
    length-append m.time (put_u16 m.remaining_tickets ++ (padding ++ put_i32s m.tickets)),
    length-append (put_u16 m.remaining_tickets) (padding ++ put_i32s m.tickets),
    length-append padding (put_i32s m.tickets),
  )

  module _ (m : Movie) (r : List ℕ) (v : IsSized m) where
    bytes : List ℕ
    bytes = put_movie padding m ++ r

    numbers : List ℕ
    numbers = put_u16 m.remaining_tickets ++ (padding ++ (put_i32s m.tickets ++ r))

    drop_name : drop 100 bytes ≡ m.time ++ numbers
    unfolding bytes numbers put_movie
    drop_name = simp append_assoc (drop-append 100 m.name _ v.name_size)

    take_name : take 100 bytes ≡ m.name
    unfolding bytes put_movie
    take_name = simp append_assoc (take-append 100 m.name _ v.name_size)

    take_time : take 100 (drop 100 bytes) ≡ m.time
    take_time = rw drop_name (take-append 100 m.time numbers v.time_size)

    head : List ℕ
    head = m.name ++ m.time

    length-head : length head ≡ 200
    unfolding head
    length-head = omega (arith, length-append m.name m.time, v.name_size, v.time_size)

    at_200 : drop 200 bytes ≡ numbers
    unfolding bytes numbers put_movie
    at_200 =
        let shape : bytes ≡ head ++ numbers = unfold head in simp append_assoc in
        rw shape (drop-append 200 head numbers length-head)

    at_204 : drop 204 bytes ≡ put_i32s m.tickets ++ r
    unfolding bytes put_movie
    at_204 =
        let front = head ++ (put_u16 m.remaining_tickets ++ padding) in
        let shape : bytes ≡ front ++ (put_i32s m.tickets ++ r) = unfold head in simp append_assoc in
        let size : length front ≡ 204 =
          unfold put_u16 in
          omega (
            arith,
            length-append head (put_u16 m.remaining_tickets ++ padding),
            length-append (put_u16 m.remaining_tickets) padding,
            length-head,
            padded,
          ) in
        rw shape (drop-append 204 front (put_i32s m.tickets ++ r) size)

    first_movie-put_movie : first_movie bytes ≡ some m
    unfolding first_movie numbers
    first_movie-put_movie =
        let fits : m.remaining_tickets % 65536 ≡ m.remaining_tickets = omega (arith, v.small) in
        rw (
          at_200,
          at_204,
          first_u16-put_u16 m.remaining_tickets (padding ++ (put_i32s m.tickets ++ r)),
          first_i32s-put_i32s m.tickets 20 r v.ticket_count v.ticket_range,
          take_name,
          take_time,
          fits,
        )

    drop_movie : drop movie_size bytes ≡ r
    unfolding bytes
    drop_movie = drop-append 284 (put_movie padding m) r (length-put_movie m v)

  pub first_movies-put_movies :
      (ms : List Movie) (r : List ℕ)
      → All IsSized ms
      → first_movies (length ms) (put_movies padding ms ++ r) ≡ some ms
  unfolding first_movies put_movies bytes
  first_movies-put_movies [] r v = refl
  first_movies-put_movies (m ∷ ms) r v = rw (
    append_assoc,
    first_movie-put_movie m (put_movies padding ms ++ r) v.0,
    drop_movie m (put_movies padding ms ++ r) v.0,
    first_movies-put_movies ms r v.1,
  )

  pub length-put_movies :
      (ms : List Movie) → All IsSized ms → length (put_movies padding ms) ≡ 284 * length ms
  unfolding put_movies
  length-put_movies [] v = refl
  length-put_movies (m ∷ ms) v = omega (
    arith,
    length-append (put_movie padding m) (put_movies padding ms),
    length-put_movie m v.0,
    length-put_movies ms v.1,
  )

  -- `db_open` maps a file of `movie_t`s to those movies, counts them modulo 2 ^ 16 and holds no lock.
  pub db_open-put_movies :
      (ms : List Movie)
      → All IsSized ms
      → db_open (put_movies padding ms)
        ≡ some (record {
          st_size = 284 * length ms;
          count = length ms % 2 ^ 16;
          movies = ms;
          held = f_unlck;
        })
  unfolding db_open
  db_open-put_movies ms v =
      let n : 284 * length ms / 284 ≡ length ms = omega arith in
      let whole : put_movies padding ms ++ [] ≡ put_movies padding ms =
        append-nil (put_movies padding ms) in
      rw (length-put_movies ms v, n, rw whole at (first_movies-put_movies ms [] v))
