-- ===== src/Database/ZeroTicket.antt =====
-- The places of `tickets` that are free hold 0, and `db_get_ticket` compares them too.
use so.Database.BoxOffice
use so.Base.{
  Option, [], arith, inl, inr, none, some, suc, true, zero, ℕ, ◌<◌, ◌∷◌, ◌≡◌, ◌≢◌, get_elem?,
  Bool-cases, if◌then◌else◌, ltb,
}
use so.Base.Int.{pos}
use so.Database.BoxOffice.{Sales}
use so.Database.Buying.{get-sales}
use so.Database.Lookup.{last_free, sold_of}
use so.Database.Sales.{get_elem?-map, sales}
use so.Database.Tickets.{db_get_ticket}
use so.Database.Types.{Database, Movie}
use so.Database.Valid.{IsValid}

-- Some movie that is searched has a free place, or one was found before.
last_free-found : (k a : ℕ) (s : Sales) → last_free k s (some a) ≢ none
unfolding last_free
last_free-found k a [] h = cc
last_free-found k a (x ∷ s) h = elim (Bool-cases (ltb x 20)) [
  | inl lt ↦ last_free-found (suc k) k s (rw lt at h)
  | inr ge ↦ last_free-found (suc k) a s (rw ge at h)
]

last_free-some :
    (k i n : ℕ) (s : Sales) (f : Option ℕ)
    → get_elem? s i ≡ some n
    → n < 20
    → last_free k s f ≢ none
unfolding last_free
last_free-some k i n [] f e lt h = cc
last_free-some k zero n (x ∷ s) f e lt h =
    let room : ltb x 20 ≡ true = ground arith in last_free-found (suc k) k s (rw room at h)
last_free-some k (suc i) n (x ∷ s) f e lt h =
    last_free-some (suc k) i n s (if ltb x 20 then some k else f) e lt h

-- In a valid database the lookup of 0, a number that no sale gives, finds a movie as long as any movie
-- has a ticket left.
pub zero_is_found :
    (db : Database) (i : ℕ) (m : Movie)
    → IsValid db
    → get_elem? db.movies i ≡ some m
    → m.remaining_tickets ≢ 0
    → (db_get_ticket db (pos 0)).0 ≢ none
unfolding BoxOffice.get
zero_is_found db i m v e ne h =
    last_free-some 0 i (sold_of m) (sales db) none (get_elem?-map sold_of db.movies i e)
      (omega arith) (rw (get-sales db (pos 0) v) at h)
