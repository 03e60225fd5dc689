-- ===== src/Server/Sizes.antt =====
-- The calls of `ipc_send` by which the server answers.
use so.Base.{
  List, Option, ap, arith, inl, inr, none, refl, some, ℕ, ◌*◌, ◌+◌, ◌≡◌, ◌≤◌, All, get_elem?,
  get_elem?-lt, length, take, take_all, Bool-cases, Option-cases,
}
use so.Base.Int.{ltb_ℤ, pos, ℤ}
use so.Actions.{
  bought_response, found_response, found_size, res_error, res_movie_list, Send, error_bytes,
  found_bytes, list_bytes, movie_gap, ticket_bytes,
}
use so.Bytes.{put_i32, put_u16, put_u32}
use so.Database.{db_get_ticket, Database, Movie, err_no_such_ticket}
use so.Database.Buying.{outcome}
use so.Database.File.{IsSized, length-put_movie, length-put_movies}
use so.Database.Sales.{IsMovie-at, db_get_ticket-sales, get-IsValid}
use so.Database.Sized.{IsMovie-IsSized, IsValid-IsSized}
use so.Database.Valid.{Bought, IsValid, bought, missing, sold_out}
use so.Ipc.Messages.{IsSend}
use so.Server.Rounds.{Round, ignored, listed, looked_up, sold}

-- A response goes to the sender of the request, and stays in its memory and in `capacity`.
abbrev pub Answers : ℕ → ℕ → Option Send → Type 0
Answers capacity sender none = Unit
Answers capacity sender (some s) = (s.recipient ≡ sender) × IsSend capacity s

module _ (junk : ℕ → ℕ) where
  res_error-IsSend :
      (capacity sender : ℕ) (code : ℤ) → 8 ≤ capacity → IsSend capacity (res_error junk sender code)
  unfolding res_error error_bytes put_i32 put_u32
  res_error-IsSend capacity sender code fits = record {
    size_fits = omega arith;
    in_memory = omega arith;
    carried = fits;
  }

  bought_response-Answers :
      (capacity sender : ℕ) (t : ℤ)
      → 8 ≤ capacity
      → Answers capacity sender (some (bought_response junk sender t))
  unfolding bought_response ticket_bytes put_i32 put_u32
  bought_response-Answers capacity sender t fits = elim (Bool-cases (ltb_ℤ (pos 0) t)) [
    | inl y ↦
        rw y (refl, record { size_fits = omega arith; in_memory = omega arith; carried = fits })
    | inr n ↦ rw n (unfold res_error in refl, res_error-IsSend capacity sender t fits)
  ]

  length-list_bytes :
      (n : ℕ) (ms : List Movie)
      → All IsSized ms
      → length (list_bytes junk n ms) ≡ 4 + 284 * length ms
  unfolding list_bytes put_u16
  length-list_bytes n ms v = omega (arith, length-put_movies (movie_gap junk) refl ms v)

  length-found_bytes : (t : ℤ) (m : Movie) → IsSized m → length (found_bytes junk t m) ≡ 292
  unfolding found_bytes put_i32 put_u32
  length-found_bytes t m v = omega (arith, length-put_movie (movie_gap junk) refl m v)

  pub res_movie_list-Answers :
      (capacity sender : ℕ) (db : Database)
      → IsValid db
      → 4 + 284 * db.count ≤ capacity
      → Answers capacity sender (some (res_movie_list junk db sender))
  unfolding res_movie_list
  res_movie_list-Answers capacity sender db v fits =
      let whole : take db.count db.movies ≡ db.movies =
        take_all db.count db.movies (omega (arith, v.counted)) in
      let size = length-list_bytes db.count db.movies (IsValid-IsSized db v) in
      (
        refl,
        record {
          size_fits = omega arith;
          in_memory = rw whole (omega (arith, size, v.counted));
          carried = omega arith;
        },
      )

  found_response-Answers :
      (capacity sender : ℕ) (t : ℤ) (db : Database) (p : Option ℕ) {s : Send}
      → IsValid db
      → 292 ≤ capacity
      → found_response junk db sender t p ≡ some s
      → Answers capacity sender (some s)
  unfolding found_response
  found_response-Answers capacity sender t db none {s} v fits e =
      let is : s ≡ res_error junk sender err_no_such_ticket = ground arith in
      rw is (
        unfold res_error in refl,
        res_error-IsSend capacity sender err_no_such_ticket (omega arith),
      )
  found_response-Answers capacity sender t db (some i) {s} v fits e =
      elim (Option-cases (get_elem? db.movies i)) [
        | inl n ↦ absurd (ground arith)
        | inr (m, here) ↦
            let sized : IsSized m =
              IsMovie-IsSized i m
                (omega (arith, get_elem?-lt db.movies i m here, v.counted, v.small))
                (IsMovie-at db i v here) in
            let is : s
                ≡ record { recipient = sender; message = found_bytes junk t m; size = found_size } =
              ground arith in
            rw is (
              refl,
              record {
                size_fits = omega arith;
                in_memory = omega (arith, length-found_bytes t m sized);
                carried = fits;
              },
            )
      ]

-- Every round of the server over a valid database makes at most one call, and it is such a call, if the
-- transport carries the list of its movies and a movie.
pub Round-Answers :
    {junk : ℕ → ℕ} {db : Database} {sender : ℕ} {r : Option Send × Database} (capacity : ℕ)
    → Round junk db sender r
    → IsValid db
    → 4 + 284 * db.count ≤ capacity
    → 292 ≤ capacity
    → Answers capacity sender r.0
Round-Answers {junk} {db} {sender} capacity listed v list one =
    res_movie_list-Answers junk capacity sender db v list
Round-Answers capacity ignored v list one = tt
Round-Answers {junk} {sender} capacity (sold i {r} e) v list one =
    bought_response-Answers junk capacity sender r.0 (omega arith)
Round-Answers {junk} {db} {sender} capacity (looked_up t e) v list one =
    found_response-Answers junk capacity sender t (db_get_ticket db t).1 (db_get_ticket db t).0
      (get-IsValid db t v) one e

-- No round changes the number of movies.
pub Round-count :
    {junk : ℕ → ℕ} {db : Database} {sender : ℕ} {r : Option Send × Database}
    → Round junk db sender r
    → IsValid db
    → r.1.count ≡ db.count
Round-count listed v = refl
Round-count ignored v = refl
Round-count {db} (sold i {r} e) v = Bought-count (outcome db (pos i) v e)
  where
    Bought-count : {i : ℤ} {r : ℤ × Database} → Bought db i r → r.1.count ≡ db.count
    Bought-count (missing out) = refl
    Bought-count (sold_out i m is lt e none_left) = refl
    Bought-count (bought i m is lt e left) = refl
Round-count {db} (looked_up t e) v =
    ap (λ (p : Option ℕ × Database). p.1.count) (db_get_ticket-sales db t v)
