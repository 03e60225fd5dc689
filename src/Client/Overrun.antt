-- ===== src/Client/Overrun.antt =====
-- `list` with more movies than a message can hold: `ipc_send` gets the size modulo 2 ^ 16, and the
-- client, which goes by the count, reads on behind the message.
use so.Base.{
  List, [], arith, inl, inr, none, refl, some, suc, zero, ℕ, ◌%◌, ◌*◌, ◌+◌, ◌-◌, ◌/◌, ◌<◌, ◌^◌, ◌∷◌,
  ◌≡◌, ◌≤◌, drop, length, length-drop, length-take, take, Option-cases,
}
use so.Actions.{
  han_movie_list, list_lines, req_movie_list, res_movie_list, Ipc, Message, list_bytes, movie_gap,
}
use so.Bytes.{first_u16, get_u16, get_u8, put_u16}
use so.Client.Listing.{answer-list}
use so.Client.Main.{handle_response}
use so.Client.Session.{receive, transact}
use so.Database.{put_movies, Database, Movie}
use so.Database.Valid.{IsValid}
use so.Ipc.Messages.{deliver}
use so.Libc.{string_at}

length-le-zero : {A : Type 0} (xs : List A) → length xs ≤ 0 → xs ≡ []
length-le-zero [] h = refl
length-le-zero (x ∷ xs) h = absurd (omega arith)

-- A round of the loop at the end of the buffer reads outside it, whatever was read before.
list_lines_end : (n i : ℕ) → list_lines (suc n) i [] ≡ none
unfolding list_lines string_at
list_lines_end n i = refl

list_lines-none : (n i : ℕ) (bs : List ℕ) → length bs ≤ 284 * n → list_lines (suc n) i bs ≡ none
unfolding list_lines
list_lines-none zero i bs h = rw (length-le-zero bs (omega arith)) (list_lines_end 0 i)
list_lines-none (suc n) i bs h =
    let later : list_lines (suc n) (suc i) (drop 284 bs) ≡ none =
      list_lines-none n (suc i) (drop 284 bs) (omega (arith, length-drop 284 bs)) in
    elim (Option-cases (string_at bs)) [
      | inl e ↦ rw e
      | inr (name, e) ↦ elim (Option-cases (string_at (drop 100 bs))) [
        | inl e' ↦ rw (e, e')
        | inr (time, e') ↦ rw (e, e', later)
      ]
    ]

-- The handler on the first `s` bytes of a response with `suc n` movies, too few for `suc n` of them.
module _ (junk : ℕ → ℕ) (server_id size n : ℕ) (ms : List Movie) (low : suc n < 2 ^ 16) where
  cut_response : ℕ → Message
  cut_response s = record {
    sender = server_id;
    content_length = size;
    content = take s (list_bytes junk (suc n) ms);
  }

  cut-none : (s : ℕ) → s ≤ 4 + 284 * n → handle_response (cut_response s) ≡ none
  unfolding cut_response handle_response get_u8 list_bytes han_movie_list get_u16 put_u16 first_u16
  cut-none zero h = refl
  cut-none (suc zero) h = refl
  cut-none (suc (suc zero)) h = refl
  cut-none (suc (suc (suc zero))) h = refl
  cut-none (suc (suc (suc (suc k)))) h =
      let count : suc n % 256 + 256 * (suc n / 256 % 256) ≡ suc n = omega arith in
      rw (
        count,
        list_lines-none n 0 (take k (put_movies (movie_gap junk) ms))
            (omega (arith, length-take k (put_movies (movie_gap junk) ms))),
      )

module _ (junk : ℕ → ℕ) (db : Database) (sender server_id : ℕ) (v : IsValid db) where
  receive-cut : 231 ≤ db.count → receive server_id (some (res_movie_list junk db sender), db) ≡ none
  unfolding receive deliver res_movie_list cut_response
  receive-cut many =
      let n : db.count ≡ suc (db.count - 1) = omega arith in
      let cut =
        cut-none junk server_id ((4 + 284 * db.count) % 2 ^ 16) (db.count - 1)
          (take db.count db.movies) (omega (arith, v.small)) ((4 + 284 * db.count) % 2 ^ 16)
          (omega arith) in
      rw (rw (← n) at cut)

-- With 231 movies or more in a valid database, the size that the server passes to `ipc_send` is smaller
-- than the response, and the client that runs `list` reads behind the message that it gets.
pub list_overrun :
    (junk : ℕ → ℕ) (db : Database) (ipc : Ipc)
    → IsValid db
    → 231 ≤ db.count
    → ((res_movie_list junk db ipc.id).size < 4 + 284 * db.count)
      × (transact junk db ipc (req_movie_list ipc) ≡ none)
unfolding transact res_movie_list
list_overrun junk db ipc v many =
    (omega arith, rw (answer-list junk db ipc) (receive-cut junk db ipc.id ipc.server_id v many))
