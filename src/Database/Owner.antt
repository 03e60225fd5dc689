-- ===== src/Database/Owner.antt =====
-- src/database.c: the movie that `db_get_ticket` names is the one that sold the ticket.
use so.Database.BoxOffice
use so.Base.{
  ap, arith, inl, inr, none, not, refl, some, some-injective, suc, true, zero, ℕ, ◌%◌, ◌*◌, ◌+◌,
  ◌/◌, ◌↔◌, ◌≡◌, ◌≢◌, get_elem?, Bool-cases, Option-cases, ltb,
}
use so.Base.Int.{negsuc, pos, ℤ}
use so.Database.BoxOffice.{Sales}
use so.Database.Lookup.{if_sold}
use so.Database.Sales.{db_get_ticket-sales, sales}
use so.Database.Tickets.{db_get_ticket}
use so.Database.Types.{Database, f_unlck}
use so.Database.Valid.{IsValid}

if_sold-IsSold :
    (s : Sales) (x i : ℕ)
    → if_sold x (get_elem? s (x / 20)) none ≡ some i
    → BoxOffice.IsSold s (pos (suc x)) i
if_sold-IsSold s x i e = elim (Option-cases (get_elem? s (x / 20))) [
  | inl out ↦ ground (arith, rw out at e)
  | inr (n, there) ↦ elim (Bool-cases (ltb (x % 20) n)) [
    | inl sold ↦
        let e' : some (x / 20) ≡ some i = rw (there, sold) at e in
        let place : x / 20 ≡ i = some-injective _ _ e' in
        (
          n,
          x % 20,
          rw (← place) there,
          ground (arith, sold),
          omega arith,
          ap pos (omega (arith, place)),
        )
    | inr not ↦ ground (arith, rw (there, not) at e)
  ]
]

IsSold-if_sold :
    (s : Sales) (x i : ℕ)
    → BoxOffice.IsSold s (pos (suc x)) i
    → if_sold x (get_elem? s (x / 20)) none ≡ some i
IsSold-if_sold s x i (n, k, there, lt, small, e) =
    let number : suc x ≡ suc (i * 20 + k) = ground (arith, e) in
    let place : x / 20 ≡ i = omega (arith, number, small) in
    let at : x % 20 ≡ k = omega (arith, number, small) in
    let sold : ltb (x % 20) n ≡ true = ground (arith, at, lt) in
    rw (place, there, sold) (ap some place)

-- In a valid database, for every number but 0: `db_get_ticket` names the movie at place `i` if and only if the
-- box office of its sales has sold the number there, and it changes no movie.
pub db_get_ticket-IsSold :
    (db : Database) (t : ℤ)
    → IsValid db
    → t ≢ pos 0
    → ((i : ℕ) → ((db_get_ticket db t).0 ≡ some i) ↔ BoxOffice.IsSold (sales db) t i)
      × ((db_get_ticket db t).1 ≡ record db { held = f_unlck })
unfolding BoxOffice.get
db_get_ticket-IsSold db t v ne = rw (db_get_ticket-sales db t v) (iff t ne, refl)
  where
    iff :
        (t : ℤ)
        → t ≢ pos 0
        → (i : ℕ) → (BoxOffice.get (sales db) t ≡ some i) ↔ BoxOffice.IsSold (sales db) t i
    iff (negsuc n) ne i = ((λ e. ground (arith, e)), (λ h. ground (arith, h)))
    iff (pos zero) ne i = absurd (ne refl)
    iff (pos (suc x)) ne i = (if_sold-IsSold (sales db) x i, IsSold-if_sold (sales db) x i)
