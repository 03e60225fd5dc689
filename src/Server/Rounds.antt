-- ===== src/Server/Rounds.antt =====
-- What a round of the server can do, and that no round breaks the database or stops on a complete
-- message.
use so.Base.{List, Option, arith, inl, inr, none, some, ℕ, ◌≡◌, Bool-cases, Option-cases, ◌==◌}
use so.Base.Int.{pos, ℤ}
use so.Actions.{
  bought_response, found_response, res_buy_ticket, res_get_ticket, res_movie_list, Message, Send,
  action_buy_ticket, action_get_ticket, action_movie_list,
}
use so.Bytes.{get_i32, get_u16, get_u8, >>=-eq-some}
use so.Database.{db_buy_ticket, db_get_ticket, Database}
use so.Database.Buying.{outcome}
use so.Database.Sales.{Bought-IsValid, get-IsValid}
use so.Database.Valid.{IsValid}
use so.Server.Loop.{answer, dispatch, sent}

-- A round that answers `sender`, on each branch of the `switch`.
pub data Round (junk : ℕ → ℕ) (db : Database) (sender : ℕ) : Option Send × Database → Type 0 where
  listed : Round junk db sender (some (res_movie_list junk db sender), db)
  ignored : Round junk db sender (none, db)
  sold :
      (i : ℕ) {r : ℤ × Database}
      → db_buy_ticket db (pos i) ≡ some r
      → Round junk db sender (some (bought_response junk sender r.0), r.1)
  looked_up :
      (t : ℤ) {response : Send}
      → found_response junk (db_get_ticket db t).1 sender t (db_get_ticket db t).0 ≡ some response
      → Round junk db sender (some response, (db_get_ticket db t).1)

module _ (junk : ℕ → ℕ) (db : Database) where
  res_buy_ticket-Round :
      (sender : ℕ) (req : List ℕ) {r : Option Send × Database}
      → sent (res_buy_ticket junk db sender req) ≡ some r
      → Round junk db sender r
  unfolding res_buy_ticket sent
  res_buy_ticket-Round sender req {r} e = elim (Option-cases (get_u16 req 2)) [
    | inl n ↦ absurd (ground arith)
    | inr (i, n) ↦ elim (Option-cases (db_buy_ticket db (pos i))) [
      | inl n' ↦ absurd (ground arith)
      | inr (q, n') ↦
          let is : r ≡ (some (bought_response junk sender q.0), q.1) = ground arith in
          rw is (sold i n')
    ]
  ]

  res_get_ticket-Round :
      (sender : ℕ) (req : List ℕ) {r : Option Send × Database}
      → sent (res_get_ticket junk db sender req) ≡ some r
      → Round junk db sender r
  unfolding res_get_ticket sent
  res_get_ticket-Round sender req {r} e = elim (Option-cases (get_i32 req 4)) [
    | inl n ↦ absurd (ground arith)
    | inr (t, n) ↦
        elim (Option-cases
          (found_response junk (db_get_ticket db t).1 sender t (db_get_ticket db t).0)) [
            | inl n' ↦ absurd (ground arith)
            | inr (q, n') ↦
                let is : r ≡ (some q, (db_get_ticket db t).1) = ground arith in
                rw is (looked_up t n')
          ]
  ]

  dispatch-Round :
      (msg : Message) (type : ℕ) {r : Option Send × Database}
      → dispatch junk db msg type ≡ some r
      → Round junk db msg.sender r
  unfolding dispatch
  dispatch-Round msg type {r} e = elim (Bool-cases (type == action_movie_list)) [
    | inl y ↦
        let is : r ≡ (some (res_movie_list junk db msg.sender), db) = ground arith in rw is listed
    | inr n ↦ elim (Bool-cases (type == action_buy_ticket)) [
      | inl y ↦ res_buy_ticket-Round msg.sender msg.content (rw (n, y) at e)
      | inr n' ↦ elim (Bool-cases (type == action_get_ticket)) [
        | inl y ↦ res_get_ticket-Round msg.sender msg.content (rw (n, n', y) at e)
        | inr n'' ↦ let is : r ≡ (none, db) = ground arith in rw is ignored
      ]
    ]
  ]

  -- Whatever the message, a round that returns is one of these.
  pub answer-Round :
      (msg : Message) {r : Option Send × Database}
      → answer junk db msg ≡ some r
      → Round junk db msg.sender r
  unfolding answer
  answer-Round msg {r} e =
      let (type, n, later) = >>=-eq-some (get_u8 msg.content 0) _ e in dispatch-Round msg type later

pub Round-IsValid :
    {junk : ℕ → ℕ} {db : Database} {sender : ℕ} {r : Option Send × Database}
    → Round junk db sender r
    → IsValid db
    → IsValid r.1
Round-IsValid listed v = v
Round-IsValid ignored v = v
Round-IsValid {db} (sold i e) v = Bought-IsValid (outcome db (pos i) v e) v
Round-IsValid {db} (looked_up t e) v = get-IsValid db t v
