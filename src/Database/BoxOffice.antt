-- ===== src/Database/BoxOffice.antt =====
-- What the database promises, with no file, no lock and no array of tickets: how many tickets each
-- movie has sold.
use so.Base.{
  List, Option, none, some, suc, zero, ℕ, ◌*◌, ◌+◌, ◌/◌, ◌<◌, ◌≡◌, get_elem?, set, if◌then◌else◌,
  ltb,
}
use so.Base.Int.{negsuc, pos, ℤ}
use so.Database.Lookup.{if_sold, last_free}
use so.Database.Types.{err_no_more_tickets, err_no_such_movie}

abbrev pub Sales : Type 0
Sales = List ℕ

unfoldable pub buy : Sales → ℤ → ℤ × Sales
buy s (negsuc n) = (err_no_such_movie, s)
buy s (pos i) = elim (get_elem? s i) [
  | none ↦ (err_no_such_movie, s)
  | some n ↦ if ltb n 20 then (pos (i * 20 + n + 1), set s i (suc n)) else (err_no_more_tickets, s)
]

-- The ticket `t` is one of those that the movie at place `i` has sold: its tickets are numbered on from
-- 20 * i + 1.
abbrev pub IsSold : Sales → ℤ → ℕ → Type 0
IsSold s t i =
    (n : ℕ) × (k : ℕ) × (get_elem? s i ≡ some n) × (k < n) × (k < 20) × (t ≡ pos (suc (i * 20 + k)))

-- What a lookup answers: the movie that sold the ticket. For 0, which no sale gives, it answers with the last
-- movie that is not sold out, as the code does.
unfoldable pub get : Sales → ℤ → Option ℕ
get s (negsuc n) = none
get s (pos zero) = last_free 0 s none
get s (pos (suc x)) = if_sold x (get_elem? s (x / 20)) none
