-- ===== src/Database/Buying.antt =====
-- What a client of `db_buy_ticket` and `db_get_ticket` relies on.
use so.Database.BoxOffice
use so.Base.{
  Option, ap, arith, inl, inr, none, refl, some, suc, true, ℕ, ℕ_discrete, ◌%◌, ◌*◌, ◌+◌, ◌/◌, ◌<◌,
  ◌≡◌, ◌⊎◌, get_elem?, get_elem?-lt, get_elem?-set_ne, get_elem?-set_self, length, set, Bool-cases,
  Option-cases, ltb, ltb→lt,
}
use so.Base.Int.{ltb_ℤ, negsuc, pos, ℤ}
use so.Database.BoxOffice.{Sales}
use so.Database.Lookup.{if_sold}
use so.Database.Sales.{Bought-IsValid, Bought-sales, db_get_ticket-sales, sales}
use so.Database.Tickets.{db_buy_ticket, db_get_ticket}
use so.Database.Types.{Database, f_unlck, f_wrlck}
use so.Database.Valid.{Bought, Bought?, IsValid, bought, db_buy_ticket-Bought, missing, sold_out}

Bought?-some :
    (db : Database) (i : ℤ) (o : Option (ℤ × Database))
    → Bought? db i o
    → (r : ℤ × Database) × (o ≡ some r) × Bought db i r
Bought?-some db i none b = absurd b
Bought?-some db i (some r) b = (r, refl, b)

-- The outcome of a call that returned `r`.
pub outcome :
    (db : Database) (i : ℤ) {r : ℤ × Database}
    → IsValid db
    → db_buy_ticket db i ≡ some r
    → Bought db i r
outcome db i v e = rw e at (db_buy_ticket-Bought db i v)

-- On a valid database `db_buy_ticket` returns for every argument, with the number and the sales of
-- the box office, and the database it leaves is valid.
pub db_buy_ticket-refines :
    (db : Database) (i : ℤ)
    → IsValid db
    → (r : ℤ × Database) × (db_buy_ticket db i ≡ some r)
      × ((r.0, sales r.1) ≡ BoxOffice.buy (sales db) i)
      × IsValid r.1
db_buy_ticket-refines db i v =
    let (r, e, b) = Bought?-some db i (db_buy_ticket db i) (db_buy_ticket-Bought db i v) in
    (r, e, Bought-sales b v, Bought-IsValid b v)

Bought-lock :
    {db : Database} {i : ℤ} {r : ℤ × Database}
    → Bought db i r
    → ((ltb_ℤ (pos 0) r.0 ≡ true) × (r.1.held ≡ f_unlck))
      ⊎ ((ltb_ℤ r.0 (pos 0) ≡ true) × (r.1 ≡ record db { held = f_wrlck }))
Bought-lock (missing h) = inr (refl, refl)
Bought-lock (sold_out i m e lt g z) = inr (refl, refl)
Bought-lock (bought i m e lt g nz) = inl (ground arith, refl)

-- In a valid database, for every number of a movie: a call that sells returns a positive number and releases
-- the lock; a call that does not returns a negative code, changes no movie, and returns with the write lock
-- still held.
pub db_buy_ticket_keeps_lock :
    (db : Database) (i : ℤ) {r : ℤ × Database}
    → IsValid db
    → db_buy_ticket db i ≡ some r
    → ((ltb_ℤ (pos 0) r.0 ≡ true) × (r.1.held ≡ f_unlck))
      ⊎ ((ltb_ℤ r.0 (pos 0) ≡ true) × (r.1 ≡ record db { held = f_wrlck }))
db_buy_ticket_keeps_lock db i v e = Bought-lock (outcome db i v e)

-- The box office: one more sale of the movie at place `i` keeps every answer that names a movie.
get-grow :
    (s : Sales) (i n x j : ℕ)
    → get_elem? s i ≡ some n
    → if_sold x (get_elem? s (x / 20)) none ≡ some j
    → if_sold x (get_elem? (set s i (suc n)) (x / 20)) none ≡ some j
get-grow s i n x j e h = elim (ℕ_discrete i (x / 20)) [
  | yes at ↦
      let lt : i < length s = get_elem?-lt s i n e in
      let new : get_elem? (set s i (suc n)) (x / 20) ≡ some (suc n) =
        rw (← at) (get_elem?-set_self s i (suc n) lt) in
      let old : get_elem? s (x / 20) ≡ some n = rw (← at) e in rw new (ground (arith, rw old at h))
  | no away ↦ rw (get_elem?-set_ne s i (x / 20) (suc n) away) h
]

-- No sale takes a ticket away.
get-buy :
    (s : Sales) (i : ℤ) (x j : ℕ)
    → BoxOffice.get s (pos (suc x)) ≡ some j
    → BoxOffice.get (BoxOffice.buy s i).1 (pos (suc x)) ≡ some j
unfolding BoxOffice.buy BoxOffice.get
get-buy s (negsuc n) x j h = h
get-buy s (pos i) x j h = elim (Option-cases (get_elem? s i)) [
  | inl e ↦ rw (e, BoxOffice.buy) h
  | inr (n, e) ↦ elim (Bool-cases (ltb n 20)) [
    | inl lt ↦ rw (e, BoxOffice.buy, lt) (get-grow s i n x j e h)
    | inr ge ↦ rw (e, BoxOffice.buy, ge) h
  ]
]

-- A new number was no ticket before, and names the movie that was asked for afterwards.
abbrev IsFresh : Sales → ℤ → ℤ × Sales → Type 0
IsFresh s i (t, s') =
    (BoxOffice.get s t ≡ none) × (j : ℕ) × (i ≡ pos j) × (BoxOffice.get s' t ≡ some j)

sale-IsFresh :
    (s : Sales) (i n : ℕ)
    → get_elem? s i ≡ some n
    → n < 20
    → IsFresh s (pos i) (pos (i * 20 + n + 1), set s i (suc n))
unfolding BoxOffice.get
sale-IsFresh s i n e lt =
    let number : i * 20 + n + 1 ≡ suc (i * 20 + n) = omega arith in
    let place : (i * 20 + n) / 20 ≡ i = omega arith in
    let nth : (i * 20 + n) % 20 ≡ n = omega arith in
    rw number (
      rw (place, e, nth) (ground arith),
      i,
      refl,
      rw (place, get_elem?-set_self s i (suc n) (get_elem?-lt s i n e), nth) (ground arith),
    )

buy-IsFresh :
    (s : Sales) (i : ℤ)
    → ltb_ℤ (pos 0) (BoxOffice.buy s i).0 ≡ true
    → IsFresh s i (BoxOffice.buy s i)
unfolding BoxOffice.buy
buy-IsFresh s (negsuc n) h = cc
buy-IsFresh s (pos i) h = elim (Option-cases (get_elem? s i)) [
  | inl e ↦ absurd (ground arith)
  | inr (n, e) ↦ elim (Bool-cases (ltb n 20)) [
    | inl lt ↦ rw (e, BoxOffice.buy, lt) (sale-IsFresh s i n e (ltb→lt _ _ lt))
    | inr ge ↦ absurd (ground arith)
  ]
]

pub get-sales :
    (db : Database) (t : ℤ) → IsValid db → (db_get_ticket db t).0 ≡ BoxOffice.get (sales db) t
get-sales db t v = ap (λ (p : Option ℕ × Database). p.0) (db_get_ticket-sales db t v)

-- On a valid database a number that `db_buy_ticket` sells was no ticket before the call: the lookup
-- found nothing. After the call the lookup of that number finds the movie that was asked for.
pub db_buy_ticket_fresh :
    (db : Database) (i : ℤ) {r : ℤ × Database}
    → IsValid db
    → db_buy_ticket db i ≡ some r
    → ltb_ℤ (pos 0) r.0 ≡ true
    → ((db_get_ticket db r.0).0 ≡ none)
      × (j : ℕ) × (i ≡ pos j)
      × ((db_get_ticket r.1 r.0).0 ≡ some j)
db_buy_ticket_fresh db i {r} v e h =
    rw (get-sales db r.0 v, get-sales r.1 r.0 (Bought-IsValid b v))
      (rw (← same) at (buy-IsFresh (sales db) i (rw (← same) h)))
  where
    b : Bought db i r
    b = outcome db i v e

    same : (r.0, sales r.1) ≡ BoxOffice.buy (sales db) i
    same = Bought-sales b v

-- On a valid database no call of `db_buy_ticket`, whatever its outcome, changes the movie that the
-- lookup finds for a positive ticket number.
pub db_get_ticket_lasts :
    (db : Database) (i : ℤ) (x j : ℕ) {r : ℤ × Database}
    → IsValid db
    → db_buy_ticket db i ≡ some r
    → (db_get_ticket db (pos (suc x))).0 ≡ some j
    → (db_get_ticket r.1 (pos (suc x))).0 ≡ some j
db_get_ticket_lasts db i x j {r} v e h =
    rw
      (
        get-sales r.1 (pos (suc x)) (Bought-IsValid b v),
        ap (λ (p : ℤ × Sales). p.1) (Bought-sales b v),
      )
      (get-buy (sales db) i x j (rw (get-sales db (pos (suc x)) v) at h))
  where
    b : Bought db i r
    b = outcome db i v e
