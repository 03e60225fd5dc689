-- ===== src/Client/Get.antt =====
-- `get`: what the client prints is the movie that the box office names.
use so.Database.BoxOffice
use so.Base.{
  List, Option, [], arith, inl, inr, none, refl, some, suc, zero, ℕ, ◌++◌, ◌∷◌, ◌≡◌, All, drop,
  drop-append, get_elem?, take, take_all, Bool-cases, Option-cases, ◌==◌,
}
use so.Base.Int.{IsI32, ℤ}
use so.Actions.{
  Print, error_text, han_error, han_get_ticket, movie_name, movie_time, no_such_ticket,
  ticket_number, req_get_ticket, found_response, found_size, res_error, res_get_ticket, Ipc, Send,
  action_get_ticket, error_bytes, found_bytes, movie_gap, ticket_bytes,
}
use so.Bytes.{
  first_i32, first_u32, get_i32, get_u8, put_i32, put_i32s, put_u16, put_u32, first_i32-put_i32,
  first_i32-put_i32_last, take-put_i32,
}
use so.Client.Main.{handle_response}
use so.Client.Session.{receive}
use so.Database.{put_movie, Database, Movie, err_no_such_ticket, f_unlck}
use so.Database.File.{IsSized, length-put_movie}
use so.Database.Sales.{db_get_ticket-sales, sales}
use so.Database.Valid.{IsValid}
use so.Ipc.Messages.{deliver}
use so.Libc.{string_at}
use so.Server.{answer, dispatch, sent}

-- The two texts of a movie end inside their structure: what printf reads there.
pub record IsPrinted (m : Movie) (name time : List ℕ) : Type 0 where
  pub name_ends : string_at m.name ≡ some name
  pub time_ends : string_at m.time ≡ some time

-- A string that ends in an array is the same with anything behind the array.
pub string_at-append :
    (bs r : List ℕ) {s : List ℕ} → string_at bs ≡ some s → string_at (bs ++ r) ≡ some s
unfolding string_at
string_at-append [] r e = cc
string_at-append (b ∷ bs) r {s} e = elim (Bool-cases (b == 0)) [
  | inl z ↦ rw z (rw z at e)
  | inr n ↦ elim (Option-cases (string_at bs)) [
    | inl k ↦ ground arith
    | inr (t, k) ↦ rw (n, string_at-append bs r k) (rw (n, k) at e)
  ]
]

module _ (junk : ℕ → ℕ) (sender server_id : ℕ) (db : Database) (t : ℤ) (h : IsI32 t) where
  pub receive-missing :
      receive server_id (some (res_error junk sender err_no_such_ticket), db)
      ≡ some (no_such_ticket ∷ [], db)
  unfolding receive deliver handle_response get_u8 get_i32 res_error error_bytes han_error
      error_text put_i32 put_u32 first_i32 first_u32
  receive-missing = refl

  module _ (m : Movie) {name time : List ℕ} (v : IsSized m) (p : IsPrinted m name time) where
    take_found : take 292 (found_bytes junk t m) ≡ found_bytes junk t m
    unfolding found_bytes put_i32 put_u32
    take_found =
        take_all 292 (found_bytes junk t m)
          (omega (arith, length-put_movie (movie_gap junk) refl m v))

    ticket_at : get_i32 (found_bytes junk t m) 4 ≡ some t
    unfolding get_i32 found_bytes
    ticket_at = first_i32-put_i32 t (put_movie (movie_gap junk) m) h

    name_at : string_at (drop 8 (found_bytes junk t m)) ≡ some name
    unfolding found_bytes put_i32 put_u32 put_movie
    name_at = string_at-append m.name _ p.name_ends

    time_at : string_at (drop 108 (found_bytes junk t m)) ≡ some time
    unfolding found_bytes put_i32 put_u32 put_movie
    time_at =
        let rest = put_u16 m.remaining_tickets ++ (movie_gap junk ++ put_i32s m.tickets) in
        rw (drop-append 100 m.name (m.time ++ rest) v.name_size)
          (string_at-append m.time rest p.time_ends)

    type_at : get_elem? (found_bytes junk t m) 0 ≡ some action_get_ticket
    unfolding found_bytes
    type_at = refl

    pub receive-found :
        receive server_id (
          some (record { recipient = sender; message = found_bytes junk t m; size = found_size }),
          db,
        )
        ≡ some (ticket_number t ∷ movie_name name ∷ movie_time time ∷ [], db)
    unfolding receive deliver handle_response get_u8 han_get_ticket
    receive-found = rw (take_found, type_at, ticket_at, name_at, time_at)

-- Every movie has texts that end.
abbrev pub ArePrinted : List Movie → Type 0
ArePrinted ms = All (λ m. (name : List ℕ) × (time : List ℕ) × IsPrinted m name time) ms

pub ArePrinted-get :
    (ms : List Movie) (i : ℕ) {m : Movie}
    → ArePrinted ms
    → get_elem? ms i ≡ some m
    → (name : List ℕ) × (time : List ℕ) × IsPrinted m name time
ArePrinted-get [] i h e = cc
ArePrinted-get (x ∷ ms) zero h e = ground (arith, h.0)
ArePrinted-get (x ∷ ms) (suc i) h e = ArePrinted-get ms i h.1 e

-- What the client prints for ticket `t` where the lookup gives NULL or the place of a movie.
abbrev pub IsTicketText : List Movie → ℤ → Option ℕ → List Print → Type 0
IsTicketText ms t none printed = printed ≡ no_such_ticket ∷ []
IsTicketText ms t (some i) printed =
    (m : Movie) × (name : List ℕ) × (time : List ℕ) × (get_elem? ms i ≡ some m)
    × IsPrinted m name time
    × (printed ≡ ticket_number t ∷ movie_name name ∷ movie_time time ∷ [])

abbrev pub unlocked : Database → Database
unlocked db = record db { held = f_unlck }

-- The server reads the ticket that the client asked for.
pub answer-get :
    (junk junk' : ℕ → ℕ) (db : Database) (ipc : Ipc) (t : ℤ) {response : Send}
    → IsI32 t
    → IsValid db
    → found_response junk' (unlocked db) ipc.id t (BoxOffice.get (sales db) t) ≡ some response
    → answer junk' db (deliver ipc.id (req_get_ticket junk ipc t))
      ≡ some (some response, unlocked db)
unfolding deliver req_get_ticket ticket_bytes answer dispatch get_u8 get_i32 res_get_ticket sent
answer-get junk junk' db ipc t h v e = rw (
  take-put_i32 t,
  sent,
  res_get_ticket,
  first_i32-put_i32_last t h,
  db_get_ticket-sales db t v,
  e,
)
