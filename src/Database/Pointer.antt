-- ===== src/Database/Pointer.antt =====
-- The pointer that `db_get_ticket` returns points to a movie of the mapping.
use so.Base.{
  List, Option, [], arith, inl, inr, none, some, suc, ℕ, ◌+◌, ◌<◌, ◌∷◌, ◌≡◌, ◌≤◌, ◌⊎◌, length, take,
  take_all, if◌then◌else◌,
}
use so.Base.Int.{eq_ℤ, ℤ}
use so.Database.Tickets.{db_get_ticket, db_lock, db_rlock, scan_movies, scan_tickets}
use so.Database.Types.{Database, Movie, movie_max_tickets}
use so.Database.Valid.{IsValid}

scan_tickets-some :
    (t : ℤ) (i j : ℕ) (ts : List ℤ) (f : Option ℕ)
    → scan_tickets t i ts f ≡ some j
    → (f ≡ some j) ⊎ (j ≡ i)
unfolding scan_tickets
scan_tickets-some t i j [] f e = inl e
scan_tickets-some t i j (x ∷ ts) f e =
    ground (arith, scan_tickets-some t i j ts (if eq_ℤ x t then some i else f) e)

scan_movies-some :
    (t : ℤ) (k j : ℕ) (ms : List Movie) (f : Option ℕ)
    → scan_movies t k ms f ≡ some j
    → (f ≡ some j) ⊎ ((k ≤ j) × (j < k + length ms))
unfolding scan_movies
scan_movies-some t k j [] f e = inl e
scan_movies-some t k j (m ∷ ms) f e =
    elim (scan_movies-some t (suc k) j ms (scan_tickets t k (take movie_max_tickets m.tickets) f)
      e) [
        | inl here ↦
            ground (arith, scan_tickets-some t k j (take movie_max_tickets m.tickets) f here)
        | inr later ↦ inr (omega arith)
      ]

-- In a valid database what the lookup returns is NULL or the place of a movie.
pub db_get_ticket-lt :
    (db : Database) (t : ℤ) (i : ℕ)
    → IsValid db
    → (db_get_ticket db t).0 ≡ some i
    → i < length db.movies
unfolding db_get_ticket db_rlock db_lock
db_get_ticket-lt db t i v e =
    elim (scan_movies-some t 0 i db.movies none
      (rw (take_all db.count db.movies (omega (arith, v.counted))) at e)) [
        | inl n ↦ cc
        | inr lt ↦ omega arith
      ]
