-- ===== src/Client/Buy.antt =====
-- `buy`: what the client prints is what the box office answers.
use so.Database.BoxOffice
use so.Base.{
  List, [], ap, arith, false, inl, inr, some, suc, true, ℕ, ◌%◌, ◌<◌, ◌^◌, ◌∷◌, ◌≡◌, Bool-cases,
  if◌then◌else◌,
}
use so.Base.Int.{IsI32, eq_ℤ, ltb_ℤ, pos, pred_ℤ, to_u16, ℤ}
use so.Actions.{
  Print, error_text, han_buy_ticket, han_error, ticket_line, action_string_to_code, req_buy_ticket,
  bought_response, res_buy_ticket, res_error, Ipc, Send, buy_request, error_bytes, ticket_bytes,
}
use so.Bytes.{
  get_i32, get_u16, get_u8, first_i32-put_i32_last, first_u16-put_u16_last, take-put_i32,
  take-put_u16,
}
use so.Client.Main.{handle_response, main, one_param, request, requests}
use so.Client.Session.{receive, transact}
use so.Database.{db_buy_ticket, Database}
use so.Database.BoxOffice.{Sales}
use so.Database.Buying.{db_buy_ticket-refines, outcome}
use so.Database.Sales.{sales}
use so.Database.Valid.{IsValid}
use so.Ipc.Messages.{deliver}
use so.Libc.{atoi, codes, same_string}
use so.Server.{answer, dispatch, sent}
use so.Server.Unique.{Bought-IsI32}

-- What the client prints for the number that the server got from `db_buy_ticket`.
abbrev pub sale_text : ℤ → Print
sale_text t = if ltb_ℤ (pos 0) t then ticket_line t else error_text t

-- The client decodes the response to a purchase.
receive-sold :
    (junk : ℕ → ℕ) (sender server_id : ℕ) (t : ℤ) (db : Database)
    → IsI32 t
    → ltb_ℤ (pos 0) t ≡ true
    → receive server_id (some (bought_response junk sender t), db) ≡ some (ticket_line t ∷ [], db)
unfolding receive deliver handle_response get_u8 get_i32 bought_response ticket_bytes han_buy_ticket
receive-sold junk sender server_id t db h p =
    let nonzero : eq_ℤ t (pos 0) ≡ false = ground arith in
    rw (p, take-put_i32 t) (rw (first_i32-put_i32_last t h, nonzero))

receive-refused :
    (junk : ℕ → ℕ) (sender server_id : ℕ) (t : ℤ) (db : Database)
    → IsI32 t
    → ltb_ℤ (pos 0) t ≡ false
    → receive server_id (some (bought_response junk sender t), db) ≡ some (error_text t ∷ [], db)
unfolding receive deliver handle_response get_u8 get_i32 bought_response res_error error_bytes
    han_error
receive-refused junk sender server_id t db h n =
    rw (n, take-put_i32 t) (rw (first_i32-put_i32_last t h))

receive-bought :
    (junk : ℕ → ℕ) (sender server_id : ℕ) (t : ℤ) (db : Database)
    → IsI32 t
    → receive server_id (some (bought_response junk sender t), db) ≡ some (sale_text t ∷ [], db)
receive-bought junk sender server_id t db h = elim (Bool-cases (ltb_ℤ (pos 0) t)) [
  | inl p ↦ rw p (receive-sold junk sender server_id t db h p)
  | inr n ↦ rw n (receive-refused junk sender server_id t db h n)
]

-- The server reads the movie that the client asked for.
pub answer-buy :
    (junk junk' : ℕ → ℕ) (db : Database) (ipc : Ipc) (i : ℕ) {r : ℤ × Database}
    → i < 2 ^ 16
    → db_buy_ticket db (pos i) ≡ some r
    → answer junk' db (deliver ipc.id (req_buy_ticket junk ipc i))
      ≡ some (some (bought_response junk' ipc.id r.0), r.1)
unfolding deliver req_buy_ticket buy_request answer dispatch get_u8 get_u16 res_buy_ticket sent
answer-buy junk junk' db ipc i lt e =
    let same : i % 65536 ≡ i = omega arith in
    rw (take-put_u16 i, sent, res_buy_ticket, first_u16-put_u16_last i, same, e)

-- The command line `buy n` asks for the movie at place `n - 1`.
pub main-buy :
    (junk : ℕ → ℕ) (ipc : Ipc) (program address number : List ℕ) (i : ℕ)
    → i < 2 ^ 16
    → atoi number ≡ pos (suc i)
    → main junk ipc (program ∷ address ∷ codes "buy" ∷ number ∷ [])
      ≡ requests (req_buy_ticket junk ipc i)
unfolding main action_string_to_code request one_param same_string
main-buy junk ipc program address number i lt e =
    let place : to_u16 (pred_ℤ (pos (suc i))) ≡ i = ground arith in rw (e, place)

-- The request, the round of the server and what the client prints, where the server sells or refuses.
pub buy_round :
    (junk junk' : ℕ → ℕ) (db : Database) (ipc : Ipc) (i : ℕ) {r : ℤ × Database}
    → IsValid db
    → i < 2 ^ 16
    → db_buy_ticket db (pos i) ≡ some r
    → transact junk' db ipc (req_buy_ticket junk ipc i) ≡ some (sale_text r.0 ∷ [], r.1)
unfolding transact
buy_round junk junk' db ipc i {r} v lt e =
    let fits : IsI32 r.0 = Bought-IsI32 db (pos i) v (outcome db (pos i) v e) in
    rw (answer-buy junk junk' db ipc i lt e)
      (receive-bought junk' ipc.id ipc.server_id r.0 r.1 fits)

-- For a valid database and a number from 1 to 2 ^ 16: the client that runs `buy number` sends a request,
-- the server answers it, and the client prints the ticket or the error that the box office gives for
-- the movie with that number. The sales that the server is left with are those of the box office, and
-- its database is valid.
pub buy_session :
    (junk junk' : ℕ → ℕ) (db : Database) (ipc : Ipc) (program address number : List ℕ) (i : ℕ)
    → IsValid db
    → i < 2 ^ 16
    → atoi number ≡ pos (suc i)
    → (send : Send) × (db' : Database) × (main junk ipc
          (program ∷ address ∷ codes "buy" ∷ number ∷ [])
        ≡ requests send)
      × (transact junk' db ipc send
          ≡ some (sale_text (BoxOffice.buy (sales db) (pos i)).0 ∷ [], db'))
      × (sales db' ≡ (BoxOffice.buy (sales db) (pos i)).1)
      × IsValid db'
buy_session junk junk' db ipc program address number i v lt e =
    let (r, e', same, v') = db_buy_ticket-refines db (pos i) v in
    (
      req_buy_ticket junk ipc i,
      r.1,
      main-buy junk ipc program address number i lt e,
      rw (← same) (buy_round junk junk' db ipc i v lt e'),
      ap (λ (p : ℤ × Sales). p.1) same,
      v',
    )
