-- ===== src/Server/Distinct.antt =====
-- The tickets sold in a whole run of the server.
use so.Base.{
  List, Option, [], arith, inl, inr, none, some, suc, ℕ, ◌∙◌, ◌∷◌, ◌≡◌, ◌≢◌, All, Option-cases,
}
use so.Base.Int.{pos, ℤ}
use so.Actions.{Message, Send}
use so.Bytes.{>>=-eq-some}
use so.Database.{db_get_ticket, Database}
use so.Database.Buying.{db_get_ticket_lasts, get-sales}
use so.Database.Sales.{db_get_ticket-sales, get-IsValid}
use so.Database.Valid.{IsValid}
use so.Server.Loop.{answer, serve}
use so.Server.Rounds.{Round, Round-IsValid, answer-Round, ignored, listed, looked_up, sold}
use so.Server.Unique.{
  Distinct, IsUnsold, Round-SellsNew, SellsNew, cons_some, sold_ticket, tickets_of,
}

-- A ticket stays a ticket through every round.
Round-lasts :
    {junk : ℕ → ℕ} {db : Database} {sender : ℕ} {r : Option Send × Database}
    → Round junk db sender r
    → IsValid db
    → (x j : ℕ) → (db_get_ticket db (pos (suc x))).0 ≡ some j
    → (db_get_ticket r.1 (pos (suc x))).0 ≡ some j
Round-lasts listed v x j h = h
Round-lasts ignored v x j h = h
Round-lasts {db} (sold i e) v x j h = db_get_ticket_lasts db (pos i) x j v e h
Round-lasts {db} (looked_up t e) v x j h =
    rw
      (
        get-sales (db_get_ticket db t).1 (pos (suc x)) (get-IsValid db t v),
        db_get_ticket-sales db t v,
      )
      (rw (get-sales db (pos (suc x)) v) at h)

-- What is no ticket after a round was none before it.
IsUnsold-before :
    {junk : ℕ → ℕ} {db : Database} {sender : ℕ} {r : Option Send × Database} (t : ℤ)
    → Round junk db sender r
    → IsValid db
    → IsUnsold r.1 t
    → IsUnsold db t
IsUnsold-before {db} t round v (x, is, gone) =
    elim (Option-cases (db_get_ticket db (pos (suc x))).0) [
      | inl n ↦ (x, is, n)
      | inr (j, e) ↦ absurd (cc (Round-lasts round v x j e))
    ]

All-before :
    {junk : ℕ → ℕ} {db : Database} {sender : ℕ} {r : Option Send × Database} (ts : List ℤ)
    → Round junk db sender r
    → IsValid db
    → All (IsUnsold r.1) ts
    → All (IsUnsold db) ts
All-before [] round v h = tt
All-before (t ∷ ts) round v h = (IsUnsold-before t round v h.0, All-before ts round v h.1)

-- A ticket differs from all that are unsold.
ne-unsold :
    (db : Database) (t : ℤ) (ts : List ℤ)
    → ((x : ℕ) → t ≡ pos (suc x) → (db_get_ticket db (pos (suc x))).0 ≢ none)
    → All (IsUnsold db) ts
    → All (λ u. t ≢ u) ts
ne-unsold db t [] is h = tt
ne-unsold db t (u ∷ ts) is ((x, same, gone), h) =
    ((λ e. is x (e ∙ same) gone), ne-unsold db t ts is h)

abbrev AllNew : Database → List ℤ → Type 0
AllNew db ts = Distinct ts × All (IsUnsold db) ts

AllNew-cons :
    (db : Database) (r : Option Send × Database) (ts : List ℤ)
    → SellsNew db r
    → AllNew r.1 ts
    → All (IsUnsold db) ts
    → AllNew db (cons_some (sold_ticket r.0) ts)
AllNew-cons db r ts (inl n) h before = rw n (h.0, before)
AllNew-cons db r ts (inr (t, is, new, kept)) h before =
    rw is ((ne-unsold r.1 t ts kept h.1, h.0), (new, before))

serve-AllNew :
    (junk : ℕ → ℕ) (db : Database) (msgs : List Message) {r : List (Option Send) × Database}
    → IsValid db
    → serve junk db msgs ≡ some r
    → AllNew db (tickets_of r.0)
unfolding serve
serve-AllNew junk db [] v e = ground arith
serve-AllNew junk db (msg ∷ msgs) {r} v e =
    let (one, e1, later) = >>=-eq-some (answer junk db msg) _ e in
    let (rest, e2, made) = >>=-eq-some (serve junk one.1 msgs) _ later in
    let round : Round junk db msg.sender one = answer-Round junk db msg e1 in
    let tail : AllNew one.1 (tickets_of rest.0) =
      serve-AllNew junk one.1 msgs (Round-IsValid round v) e2 in
    let is : r.0 ≡ one.0 ∷ rest.0 = ground (arith, made) in
    rw is (
      AllNew-cons db one (tickets_of rest.0) (Round-SellsNew round v) tail
        (All-before (tickets_of rest.0) round v tail.1))

-- In every run of the server's loop over a valid database, whatever the messages, the ticket numbers
-- that its responses sell are pairwise different, and none of them was a ticket before the run.
pub serve-Distinct :
    (junk : ℕ → ℕ) (db : Database) (msgs : List Message) {r : List (Option Send) × Database}
    → IsValid db
    → serve junk db msgs ≡ some r
    → Distinct (tickets_of r.0) × All (IsUnsold db) (tickets_of r.0)
serve-Distinct junk db msgs v e = serve-AllNew junk db msgs v e
