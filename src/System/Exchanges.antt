-- ===== src/System/Exchanges.antt =====
-- What the client of src/exe/test.c reads in the responses.
use so.Database.BoxOffice
use so.Base.{
  List, Option, [], arith, false, inl, inr, none, refl, some, sym, true, ℕ, ◌<◌, ◌^◌, ◌∙◌, ◌∷◌, ◌≡◌,
  ◌≤◌, get_elem?, Option-cases,
}
use so.Base.Int.{IsI32, eq_ℤ, ltb_ℤ, pos, ℤ}
use so.Actions.{
  Print, error_text, han_buy_ticket, han_error, han_get_ticket, han_movie_list, no_such_ticket,
  ticket_line, ticket_number, req_buy_ticket, req_get_ticket, req_movie_list, bought_response,
  found_response, found_size, res_error, res_movie_list, Ipc, Message, Send, error_bytes,
  found_bytes, ticket_bytes,
}
use so.Bytes.{
  first_i32, first_u32, get_i32, get_u8, put_i32, put_u32, >>=-eq-some, first_i32-put_i32_last,
  take-put_i32,
}
use so.Client.{handle_response}
use so.Client.Buy.{answer-buy}
use so.Client.Get.{answer-get, unlocked}
use so.Client.Listing.{answer-list, handle-list}
use so.Client.Session.{receive, transact}
use so.Database.{db_buy_ticket, db_get_ticket, Database, Movie, err_no_such_ticket}
use so.Database.Buying.{outcome}
use so.Database.Sales.{db_get_ticket-sales, sales}
use so.Database.Valid.{IsValid}
use so.Ipc.Messages.{IsSend, deliver}
use so.Ipc.Transport.{Transport}
use so.Server.{answer}
use so.Server.Rounds.{Round, answer-Round}
use so.Server.Sizes.{Round-Answers}
use so.Server.Total.{found_response-total}
use so.Server.Unique.{Bought-IsI32}
use so.System.Programs.{IsForServer}
use so.System.Serving.{Carries, Round-Carries}
use so.System.Session.{AreApart, IsQuiet, exchange, exchange-reply}

module _ (T : Transport) (junk : ℕ → ℕ) (ipc : Ipc) (far : AreApart ipc) where
  -- An exchange in which the server does what its loop does with this request.
  pub record Exchanged (respond : Message → Option (Option Send × Database)) (db : Database)
      (query : Send) (t : T.State) (printed : List Print) (db' : Database) : Type 0 where
    pub response : Send
    pub after : T.State
    pub answered : answer junk db (deliver ipc.id query) ≡ some (some response, db')
    pub done : exchange T respond ipc query t ≡ some (deliver ipc.server_id response, db', after)
    pub quiet : IsQuiet T after
    pub prints : handle_response (deliver ipc.server_id response) ≡ some printed
    pub carries : Carries T.capacity db'

  -- What the client receives came from a call of `ipc_send`.
  received :
      (r : Option Send × Database) {printed : List Print} {db' : Database}
      → receive ipc.server_id r ≡ some (printed, db')
      → (s : Send) × (r ≡ (some s, db'))
        × (handle_response (deliver ipc.server_id s) ≡ some printed)
  unfolding receive
  received (none, db1) next = absurd (ground arith)
  received (some s, db1) next = elim (Option-cases (handle_response (deliver ipc.server_id s))) [
    | inl n ↦ absurd (ground arith)
    | inr (p, n) ↦ (s, ground arith, rw n (ground arith))
  ]

  pub exchanges :
      (respond : Message → Option (Option Send × Database)) {db db' : Database} {query : Send}
      {t : T.State} {printed : List Print}
      → respond (deliver ipc.id query) ≡ answer junk db (deliver ipc.id query)
      → transact junk db ipc query ≡ some (printed, db')
      → Carries T.capacity db
      → IsQuiet T t
      → IsForServer ipc query
      → Exchanged respond db query t printed db'
  unfolding transact
  exchanges respond {db} {db'} {query} {t} same e c q (to, v) =
      let (r, e1, next) = >>=-eq-some (answer junk db (deliver ipc.id query)) _ e in
      let (s, is, prints) = received r next in
      let answered : answer junk db (deliver ipc.id query) ≡ some (some s, db') = rw is at e1 in
      let round : Round junk db ipc.id (some s, db') =
        unfold deliver in answer-Round junk db (deliver ipc.id query) answered in
      let wide : IsSend T.capacity query = record {
        size_fits = v.size_fits;
        in_memory = v.in_memory;
        carried = omega (arith, v.carried, c.found);
      } in
      let (t', done, quiet) =
        exchange-reply T respond ipc query t q far to wide (same ∙ answered)
          (Round-Answers T.capacity round c.valid c.list c.found) in
      record {
        response = s;
        after = t';
        answered = answered;
        done = done;
        quiet = quiet;
        prints = prints;
        carries = Round-Carries T.capacity round c;
      }

-- What the client reads in the response to a purchase.
sold_content :
    (junk : ℕ → ℕ) (sender server_id : ℕ) (t : ℤ)
    → IsI32 t
    → ltb_ℤ (pos 0) t ≡ true
    → (get_i32 (deliver server_id (bought_response junk sender t)).content 4 ≡ some t)
      × (han_buy_ticket (deliver server_id (bought_response junk sender t)).content
          ≡ some (ticket_line t ∷ []))
unfolding deliver bought_response ticket_bytes get_i32 han_buy_ticket
sold_content junk sender server_id t h p =
    let nonzero : eq_ℤ t (pos 0) ≡ false = ground arith in
    rw (p, take-put_i32 t)
      (first_i32-put_i32_last t h, rw (first_i32-put_i32_last t h, nonzero) refl)

missing_printed :
    (junk : ℕ → ℕ) (sender server_id : ℕ)
    → handle_response (deliver server_id (res_error junk sender err_no_such_ticket))
      ≡ some (no_such_ticket ∷ [])
unfolding deliver handle_response get_u8 get_i32 res_error error_bytes han_error error_text put_i32
    put_u32 first_i32 first_u32
missing_printed junk sender server_id = refl

found_printed :
    (junk : ℕ → ℕ) (sender server_id : ℕ) (t : ℤ) (m : Movie)
    → handle_response (
        deliver server_id
          (record { recipient = sender; message = found_bytes junk t m; size = found_size }))
      ≡ han_get_ticket
          (deliver server_id (record {
            recipient = sender;
            message = found_bytes junk t m;
            size = found_size;
          })).content
unfolding deliver handle_response get_u8 found_bytes
found_printed junk sender server_id t m = refl

-- A response that the client prints as a ticket is printed by `han_get_ticket`.
found_content :
    (junk : ℕ → ℕ) (db : Database) (sender server_id : ℕ) (t : ℤ) (p : Option ℕ) {s : Send}
    {ps : List Print} {n : ℤ}
    → found_response junk db sender t p ≡ some s
    → handle_response (deliver server_id s) ≡ some (ticket_number n ∷ ps)
    → han_get_ticket (deliver server_id s).content ≡ some (ticket_number n ∷ ps)
unfolding found_response
found_content junk db sender server_id t none {s} {ps} {n} e h =
    let is : s ≡ res_error junk sender err_no_such_ticket = ground arith in
    let prints : some (no_such_ticket ∷ []) ≡ some (ticket_number n ∷ ps) =
      sym (missing_printed junk sender server_id) ∙ rw is at h in
    absurd (ground arith)
found_content junk db sender server_id t (some i) {s} {ps} {n} e h =
    let (m, here, made) = >>=-eq-some (get_elem? db.movies i) _ e in
    let is : s ≡ record { recipient = sender; message = found_bytes junk t m; size = found_size } =
      ground arith in
    rw is (sym (found_printed junk sender server_id t m) ∙ rw is at h)

module _ (T : Transport) (junk junk' : ℕ → ℕ) (ipc : Ipc) (far : AreApart ipc)
    (respond : Message → Option (Option Send × Database)) {db db' : Database} {t : T.State} where
  pub list_read :
      {printed : List Print}
      (x : Exchanged T junk' ipc far respond db (req_movie_list ipc) t printed db')
      → IsValid db
      → db.count ≤ 230
      → han_movie_list (deliver ipc.server_id x.response).content ≡ some printed
  list_read x v few =
      let is : x.response ≡ res_movie_list junk' db ipc.id =
        ground (arith, x.answered, answer-list junk' db ipc) in
      rw is
        (sym (handle-list junk' db v (omega (arith, few)) ipc.id ipc.server_id) ∙ rw is at x.prints)

  pub buy_read :
      (i : ℕ) {printed : List Print} {r : ℤ × Database}
      (x : Exchanged T junk' ipc far respond db (req_buy_ticket junk ipc i) t printed db')
      → IsValid db
      → i < 2 ^ 16
      → db_buy_ticket db (pos i) ≡ some r
      → ltb_ℤ (pos 0) r.0 ≡ true
      → (get_i32 (deliver ipc.server_id x.response).content 4 ≡ some r.0)
        × (han_buy_ticket (deliver ipc.server_id x.response).content ≡ some (ticket_line r.0 ∷ []))
  buy_read i {printed} {r} x v lt e p =
      let is : x.response ≡ bought_response junk' ipc.id r.0 =
        ground (arith, x.answered, answer-buy junk junk' db ipc i lt e) in
      rw is (
        sold_content junk' ipc.id ipc.server_id r.0
          (Bought-IsI32 db (pos i) v (outcome db (pos i) v e)) p)

  pub get_read :
      (n : ℤ) {ps : List Print}
      (x : Exchanged T junk' ipc far respond db
        (req_get_ticket junk ipc n)
        t
        (ticket_number n ∷ ps)
        db')
      → IsValid db
      → IsI32 n
      → han_get_ticket (deliver ipc.server_id x.response).content ≡ some (ticket_number n ∷ ps)
  get_read n x v h =
      let (s, made) = found_response-total junk' db v ipc.id n (db_get_ticket db n).0 refl in
      let found : found_response junk' (unlocked db) ipc.id n (BoxOffice.get (sales db) n)
          ≡ some s =
        rw (db_get_ticket-sales db n v) at made in
      let is : x.response ≡ s =
        ground (arith, x.answered, answer-get junk junk' db ipc n h v found) in
      rw is (
        found_content junk' (unlocked db) ipc.id ipc.server_id n (BoxOffice.get (sales db) n) found
          (rw is at x.prints))
