-- ===== src/Server/Total.antt =====
-- The server answers every complete message, and keeps its database valid.
use so.Base.{
  List, Option, [], ap, arith, inl, inr, none, refl, some, suc, ℕ, ◌∷◌, ◌≡◌, ◌≤◌, All,
  get_elem?-total, length, ==→eq, Bool-cases, ◌==◌,
}
use so.Base.Int.{pos, ℤ}
use so.Actions.{
  found_response, res_buy_ticket, res_get_ticket, Message, Send, action_buy_ticket,
  action_get_ticket, action_movie_list,
}
use so.Bytes.{get_u8, get_i32-total, get_u16-total}
use so.Database.{db_get_ticket, Database}
use so.Database.Buying.{db_buy_ticket-refines}
use so.Database.Pointer.{db_get_ticket-lt}
use so.Database.Sales.{db_get_ticket-sales}
use so.Database.Valid.{IsValid}
use so.Server.Loop.{answer, dispatch, sent, serve}
use so.Server.Rounds.{Round-IsValid, answer-Round}

-- The buffer of the message holds the structure that its type stands for.
pub record IsComplete (msg : Message) : Type 0 where
  pub type : ℕ
  pub typed : get_u8 msg.content 0 ≡ some type
  pub holds_buy : type ≡ action_buy_ticket → 4 ≤ length msg.content
  pub holds_get : type ≡ action_get_ticket → 8 ≤ length msg.content

module _ (junk : ℕ → ℕ) (db : Database) (v : IsValid db) where
  pub found_response-total :
      (sender : ℕ) (t : ℤ) (p : Option ℕ)
      → (db_get_ticket db t).0 ≡ p
      → (response : Send) × (found_response junk (db_get_ticket db t).1 sender t p ≡ some response)
  unfolding found_response
  found_response-total sender t none e = (_, refl)
  found_response-total sender t (some i) e =
      let (m, here) = get_elem?-total db.movies i (db_get_ticket-lt db t i v e) in
      let same : (db_get_ticket db t).1.movies ≡ db.movies =
        ap (λ (q : Option ℕ × Database). q.1.movies) (db_get_ticket-sales db t v) in
      rw (same, here) (_, refl)

  buy-total :
      (sender : ℕ) (req : List ℕ)
      → 4 ≤ length req
      → (r : Option Send × Database) × (sent (res_buy_ticket junk db sender req) ≡ some r)
  unfolding res_buy_ticket sent
  buy-total sender req h =
      let (i, is_i) = get_u16-total req 2 (omega arith) in
      let (r, e, _, _) = db_buy_ticket-refines db (pos i) v in rw (is_i, e) (_, refl)

  get-total :
      (sender : ℕ) (req : List ℕ)
      → 8 ≤ length req
      → (r : Option Send × Database) × (sent (res_get_ticket junk db sender req) ≡ some r)
  unfolding res_get_ticket sent
  get-total sender req h =
      let (t, is_t) = get_i32-total req 4 (omega arith) in
      let (r, e) = found_response-total sender t (db_get_ticket db t).0 refl in
      rw (is_t, e) (_, refl)

  dispatch-total :
      (msg : Message) (type : ℕ)
      → (type ≡ action_buy_ticket → 4 ≤ length msg.content)
      → (type ≡ action_get_ticket → 8 ≤ length msg.content)
      → (r : Option Send × Database) × (dispatch junk db msg type ≡ some r)
  unfolding dispatch
  dispatch-total msg type hb hg = elim (Bool-cases (type == action_movie_list)) [
    | inl y ↦ rw y (_, refl)
    | inr n ↦ elim (Bool-cases (type == action_buy_ticket)) [
      | inl y ↦ rw (n, y) (buy-total msg.sender msg.content (hb (==→eq _ _ y)))
      | inr n' ↦ elim (Bool-cases (type == action_get_ticket)) [
        | inl y ↦ rw (n, n', y) (get-total msg.sender msg.content (hg (==→eq _ _ y)))
        | inr n'' ↦ rw (n, n', n'') (_, refl)
      ]
    ]
  ]

  pub answer-total :
      (msg : Message)
      → IsComplete msg
      → (r : Option Send × Database) × (answer junk db msg ≡ some r) × IsValid r.1
  unfolding answer
  answer-total msg c =
      let (r, e) = dispatch-total msg c.type c.holds_buy c.holds_get in
      let whole : answer junk db msg ≡ some r = rw (c.typed) e in
      (r, whole, Round-IsValid (answer-Round junk db msg whole) v)

-- For every list of complete messages the loop, started with a valid database, gets through all of
-- them without a crash, with one result for each, and the database stays valid.
pub serve-total :
    (junk : ℕ → ℕ) (db : Database) (msgs : List Message)
    → IsValid db
    → All IsComplete msgs
    → (r : List (Option Send) × Database) × (serve junk db msgs ≡ some r)
      × (length r.0 ≡ length msgs)
      × IsValid r.1
unfolding serve
serve-total junk db [] v c = (([], db), refl, refl, v)
serve-total junk db (msg ∷ msgs) v c =
    let (r, e, v') = answer-total junk db v msg c.0 in
    let (rest, e', size, v'') = serve-total junk r.1 msgs v' c.1 in
    ((r.0 ∷ rest.0, rest.1), rw (e, e'), ap suc size, v'')
