-- ===== src/Database/Types.antt =====
-- inc/database.h: movies, the mapped database, its error codes.
use so.Base.{ℕ, List}
use so.Base.Int.{ℤ, negsuc}

abbrev pub movie_max_tickets : ℕ
movie_max_tickets = 20

abbrev pub movie_name_length : ℕ
movie_name_length = 100

abbrev pub movie_time_length : ℕ
movie_time_length = 100

-- -1, -2 and -3
abbrev pub err_no_such_movie : ℤ
err_no_such_movie = negsuc 0

abbrev pub err_no_such_ticket : ℤ
err_no_such_ticket = negsuc 1

abbrev pub err_no_more_tickets : ℤ
err_no_more_tickets = negsuc 2

-- `movie_t`: two arrays of bytes, a uint16_t and an array of int32_t.
pub record Movie : Type 0 where
  pub name : List ℕ
  pub time : List ℕ
  pub remaining_tickets : ℕ
  pub tickets : List ℤ

-- `l_type` of the record lock that the process holds on the database file.
pub data Lock : Type 0 where
  f_rdlck : Lock
  f_wrlck : Lock
  f_unlck : Lock

-- `database_t`. `movies` is the mapped file, `st_size` the part of `st` that is used; the lock on
-- `file`, which the kernel keeps, stands beside them.
pub record Database : Type 0 where
  pub st_size : ℕ
  pub count : ℕ
  pub movies : List Movie
  pub held : Lock
