-- ===== src/Client/Listing.antt =====
-- `list`: the client prints a line for each movie, where the response fits a message.
use so.Base.{
  List, [], ap, append_assoc, arith, refl, some, suc, ℕ, ◌%◌, ◌*◌, ◌++◌, ◌+◌, ◌<◌, ◌^◌, ◌∙◌, ◌∷◌,
  ◌≡◌, ◌≤◌, All, drop, drop-append, get_elem?, length, take, take_all,
}
use so.Actions.{
  Print, han_movie_list, list_lines, movie_line, action_string_to_code, req_movie_list,
  res_movie_list, Ipc, Send, action_movie_list, list_bytes, list_request, movie_gap,
}
use so.Bytes.{get_u16, get_u8, put_i32s, put_u16, drop-put_u16, first_u16-put_u16}
use so.Client.Get.{ArePrinted, IsPrinted, string_at-append}
use so.Client.Main.{handle_response, main, no_param, request, requests}
use so.Client.Session.{receive, transact}
use so.Database.{movie_size, put_movie, put_movies, Database, Movie}
use so.Database.File.{IsSized, length-put_movie, length-put_movies}
use so.Database.Sized.{IsValid-IsSized}
use so.Database.Valid.{IsValid}
use so.Ipc.Messages.{deliver}
use so.Libc.{codes, same_string, string_at}
use so.Server.{answer, dispatch}

-- The lines that are printed for the movies from index `i` on.
abbrev pub IsListing : ℕ → List Movie → List Print → Type 0
IsListing i [] printed = printed ≡ []
IsListing i (m ∷ ms) printed =
    (name : List ℕ) × (time : List ℕ) × (rest : List Print) × IsPrinted m name time
    × (printed ≡ movie_line (i + 1) name time ∷ rest)
    × IsListing (suc i) ms rest

module _ (gap : List ℕ) (padded : length gap ≡ 2) where
  name_read :
      (m : Movie) (r : List ℕ) {s : List ℕ}
      → string_at m.name ≡ some s
      → string_at (put_movie gap m ++ r) ≡ some s
  unfolding put_movie
  name_read m r e = rw append_assoc (string_at-append m.name _ e)

  time_read :
      (m : Movie) (r : List ℕ) {s : List ℕ}
      → length m.name ≡ 100
      → string_at m.time ≡ some s
      → string_at (drop 100 (put_movie gap m ++ r)) ≡ some s
  unfolding put_movie
  time_read m r size e =
      let rest = (put_u16 m.remaining_tickets ++ (gap ++ put_i32s m.tickets)) ++ r in
      let shape : put_movie gap m ++ r ≡ m.name ++ (m.time ++ rest) = simp append_assoc in
      rw (shape, drop-append 100 m.name (m.time ++ rest) size) (string_at-append m.time rest e)

  list_lines-IsListing :
      (i : ℕ) (ms : List Movie)
      → All IsSized ms
      → ArePrinted ms
      → (printed : List Print) × (list_lines (length ms) i (put_movies gap ms) ≡ some printed)
        × IsListing i ms printed
  unfolding list_lines put_movies
  list_lines-IsListing i [] v p = ([], refl, refl)
  list_lines-IsListing i (m ∷ ms) v ((name, time, q), p) =
      let (rest, e, l) = list_lines-IsListing (suc i) ms v.1 p in
      (
        movie_line (i + 1) name time ∷ rest,
        rw (
          name_read m (put_movies gap ms) q.name_ends,
          time_read m (put_movies gap ms) v.0.name_size q.time_ends,
          length_drop m (put_movies gap ms) v.0,
          e,
        ),
        (name, time, rest, q, refl, l),
      )
    where
      length_drop :
          (x : Movie) (r : List ℕ) → IsSized x → drop movie_size (put_movie gap x ++ r) ≡ r
      length_drop x r s = drop-append 284 (put_movie gap x) r (length-put_movie gap padded x s)

pub answer-list :
    (junk : ℕ → ℕ) (db : Database) (ipc : Ipc)
    → answer junk db (deliver ipc.id (req_movie_list ipc))
      ≡ some (some (res_movie_list junk db ipc.id), db)
unfolding answer dispatch req_movie_list list_request deliver get_u8
answer-list junk db ipc = refl

-- The response to `list` in a valid database, where its size fits a uint16_t.
module _ (junk : ℕ → ℕ) (db : Database) (v : IsValid db) (small : 4 + 284 * db.count < 2 ^ 16) where
  list_content : List ℕ
  list_content = list_bytes junk db.count db.movies

  length-list_content : length list_content ≡ 4 + 284 * db.count
  unfolding list_content list_bytes put_u16
  length-list_content =
      omega
        (arith, length-put_movies (movie_gap junk) refl db.movies (IsValid-IsSized db v), v.counted)

  delivered :
      (sender server_id : ℕ)
      → deliver server_id (res_movie_list junk db sender)
        ≡ record { sender = server_id; content_length = 4 + 284 * db.count; content = list_content }
  unfolding deliver res_movie_list list_content
  delivered sender server_id =
      let whole : take db.count db.movies ≡ db.movies =
        take_all db.count db.movies (omega (arith, v.counted)) in
      let fits : (4 + 284 * db.count) % 2 ^ 16 ≡ 4 + 284 * db.count = omega arith in
      rw (
        whole,
        fits,
        take_all (4 + 284 * db.count) (list_bytes junk db.count db.movies)
            (unfold list_content in omega (arith, length-list_content)),
      )

  lines_read :
      (printed : List Print)
      → list_lines db.count 0 (put_movies (movie_gap junk) db.movies) ≡ some printed
      → han_movie_list list_content ≡ some printed
  unfolding han_movie_list list_content list_bytes get_u16
  lines_read printed e =
      let same : db.count % 65536 ≡ db.count = omega (arith, v.small) in
      rw
        (
          first_u16-put_u16 db.count (put_movies (movie_gap junk) db.movies),
          same,
          drop-put_u16 db.count (put_movies (movie_gap junk) db.movies),
        )
        e

  receive-list :
      (sender server_id : ℕ) (printed : List Print)
      → han_movie_list list_content ≡ some printed
      → receive server_id (some (res_movie_list junk db sender), db) ≡ some (printed, db)
  unfolding receive handle_response get_u8
  receive-list sender server_id printed e =
      let typed : get_elem? list_content 0 ≡ some action_movie_list =
        unfold list_content list_bytes in refl in
      rw (delivered sender server_id, typed, e)

  -- The response has the type of a list, so the client takes it for one.
  pub handle-list :
      (sender server_id : ℕ)
      → handle_response (deliver server_id (res_movie_list junk db sender))
        ≡ han_movie_list (deliver server_id (res_movie_list junk db sender)).content
  unfolding handle_response get_u8
  handle-list sender server_id =
      let typed : get_elem? list_content 0 ≡ some action_movie_list =
        unfold list_content list_bytes in refl in
      rw (delivered sender server_id, typed) refl

  pub list_round :
      (ipc : Ipc)
      → ArePrinted db.movies
      → (printed : List Print) × (transact junk db ipc (req_movie_list ipc) ≡ some (printed, db))
        × IsListing 0 db.movies printed
  unfolding transact
  list_round ipc texts =
      let (printed, e, l) =
        list_lines-IsListing (movie_gap junk) refl 0 db.movies (IsValid-IsSized db v) texts in
      let lines : list_lines db.count 0 (put_movies (movie_gap junk) db.movies) ≡ some printed =
        ap (λ n. list_lines n 0 (put_movies (movie_gap junk) db.movies)) v.counted ∙ e in
      (
        printed,
        rw (answer-list junk db ipc)
            (receive-list ipc.id ipc.server_id printed (lines_read printed lines)),
        l,
      )

-- For a valid database of at most 230 movies whose texts end: the client that runs `list` sends a request,
-- the server answers it, and the client prints one line for each movie, in the order of the file, with its
-- number counted from 1, its name and its time. The database stays as it is.
pub list_session :
    (junk : ℕ → ℕ) (db : Database) (ipc : Ipc) (program address : List ℕ)
    → IsValid db
    → db.count ≤ 230
    → ArePrinted db.movies
    → (send : Send) × (printed : List Print) × (main junk ipc
          (program ∷ address ∷ codes "list" ∷ [])
        ≡ requests send)
      × (transact junk db ipc send ≡ some (printed, db))
      × IsListing 0 db.movies printed
unfolding main action_string_to_code request no_param same_string
list_session junk db ipc program address v few texts =
    let (printed, e, l) = list_round junk db v (omega arith) ipc texts in
    (req_movie_list ipc, printed, refl, e, l)
