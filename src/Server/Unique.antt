-- ===== src/Server/Unique.antt =====
-- No two clients are sold the same ticket.
use so.Base.{
  List, Option, [], arith, false, inl, inr, none, refl, some, suc, true, zero, ℕ, ◌∷◌, ◌≡◌, ◌≢◌,
  ◌⊎◌, All, get_elem?, Bool-cases, if◌then◌else◌, ◌==◌,
}
use so.Base.Int.{IsI32, ltb_ℤ, negsuc, pos, ℤ}
use so.Actions.{
  bought_response, found_response, found_size, res_error, res_movie_list, Send, action_buy_ticket,
  error_bytes, found_bytes, list_bytes, ticket_bytes,
}
use so.Bytes.{get_i32, get_u8, ◌>>=◌, >>=-eq-some, first_i32-put_i32_last}
use so.Database.{db_buy_ticket, db_get_ticket, Database, err_no_such_ticket}
use so.Database.Buying.{db_buy_ticket_fresh, outcome}
use so.Database.Valid.{Bought, IsValid, bought, missing, sold_out}
use so.Server.Rounds.{Round, ignored, listed, looked_up, sold}

-- The ticket that a response sells; none for any other response.
abbrev pub sold_ticket : Option Send → Option ℤ
sold_ticket none = none
sold_ticket (some s) =
    get_u8 s.message 0 >>= λ type. if type == action_buy_ticket then get_i32 s.message 4 else none

-- The tickets that the responses sell, in order.
abbrev pub cons_some : Option ℤ → List ℤ → List ℤ
cons_some none ts = ts
cons_some (some t) ts = t ∷ ts

abbrev pub tickets_of : List (Option Send) → List ℤ
tickets_of [] = []
tickets_of (r ∷ rs) = cons_some (sold_ticket r) (tickets_of rs)

abbrev pub Distinct : List ℤ → Type 0
Distinct [] = Unit
Distinct (t ∷ ts) = All (λ u. t ≢ u) ts × Distinct ts

-- A positive number that is no ticket of the database.
abbrev pub IsUnsold : Database → ℤ → Type 0
IsUnsold db t = (x : ℕ) × (t ≡ pos (suc x)) × ((db_get_ticket db (pos (suc x))).0 ≡ none)

-- What a round does to the tickets: it sells none, or one that was unsold and now is a ticket.
abbrev pub SellsNew : Database → Option Send × Database → Type 0
SellsNew db r =
    (sold_ticket r.0 ≡ none)
    ⊎ ((t : ℤ) × (sold_ticket r.0 ≡ some t)
        × IsUnsold db t
        × ((x : ℕ) → t ≡ pos (suc x) → (db_get_ticket r.1 (pos (suc x))).0 ≢ none))

pub Bought-IsI32 :
    (db : Database) (i : ℤ) {r : ℤ × Database} → IsValid db → Bought db i r → IsI32 r.0
Bought-IsI32 db i v (missing h) = omega arith
Bought-IsI32 db i v (sold_out j m e lt g z) = omega arith
Bought-IsI32 db i v (bought j m e lt g nz) = omega (arith, v.small)

ticket_bytes-sold :
    (junk : ℕ → ℕ) (sender : ℕ) (t : ℤ)
    → IsI32 t
    → ltb_ℤ (pos 0) t ≡ true
    → sold_ticket (some (bought_response junk sender t)) ≡ some t
unfolding bought_response ticket_bytes get_u8 get_i32
ticket_bytes-sold junk sender t h p = rw p (first_i32-put_i32_last t h)

error-sold :
    (junk : ℕ → ℕ) (sender : ℕ) (t : ℤ)
    → ltb_ℤ (pos 0) t ≡ false
    → sold_ticket (some (bought_response junk sender t)) ≡ none
unfolding bought_response res_error error_bytes get_u8
error-sold junk sender t p = rw p

listed-sold :
    (junk : ℕ → ℕ) (db : Database) (sender : ℕ)
    → sold_ticket (some (res_movie_list junk db sender)) ≡ none
unfolding res_movie_list list_bytes get_u8
listed-sold junk db sender = refl

found-sold :
    (junk : ℕ → ℕ) (db : Database) (sender : ℕ) (t : ℤ) (p : Option ℕ) {response : Send}
    → found_response junk db sender t p ≡ some response
    → sold_ticket (some response) ≡ none
unfolding found_response found_bytes res_error error_bytes get_u8
found-sold junk db sender t none {response} e =
    let is : response ≡ res_error junk sender err_no_such_ticket = ground arith in rw is
found-sold junk db sender t (some i) {response} e =
    let (m, here, made) = >>=-eq-some (get_elem? db.movies i) _ e in
    let is : response
        ≡ record { recipient = sender; message = found_bytes junk t m; size = found_size } =
      ground arith in
    rw is

positive : (t : ℤ) → ltb_ℤ (pos 0) t ≡ true → (x : ℕ) × (t ≡ pos (suc x))
positive (pos zero) h = ground arith
positive (pos (suc x)) h = (x, refl)
positive (negsuc n) h = cc

buy-SellsNew :
    (junk : ℕ → ℕ) (db : Database) (sender i : ℕ) {r : ℤ × Database}
    → IsValid db
    → db_buy_ticket db (pos i) ≡ some r
    → SellsNew db (some (bought_response junk sender r.0), r.1)
buy-SellsNew junk db sender i {r} v e = elim (Bool-cases (ltb_ℤ (pos 0) r.0)) [
  | inr n ↦ inl (error-sold junk sender r.0 n)
  | inl p ↦
      let (x, is) = positive r.0 p in
      let (before, j, _, after) = db_buy_ticket_fresh db (pos i) v e p in
      inr (
        r.0,
        ticket_bytes-sold junk sender r.0 (Bought-IsI32 db (pos i) v (outcome db (pos i) v e)) p,
        (x, is, rw is at before),
        λ y same gone. cc (rw same at after),
      )
]

pub Round-SellsNew :
    {junk : ℕ → ℕ} {db : Database} {sender : ℕ} {r : Option Send × Database}
    → Round junk db sender r
    → IsValid db
    → SellsNew db r
Round-SellsNew {junk} {db} {sender} listed v = inl (listed-sold junk db sender)
Round-SellsNew ignored v = inl refl
Round-SellsNew {junk} {db} {sender} (sold i e) v = buy-SellsNew junk db sender i v e
Round-SellsNew {junk} {db} {sender} (looked_up t e) v =
    inl (found-sold junk (db_get_ticket db t).1 sender t (db_get_ticket db t).0 e)
