-- ===== src/System/Oversize.antt =====
-- src/ipc/mqueues.c with the response to `list` of src/actions.c, which may be larger than msgsnd takes.
use so.Ipc.Mqueues.{Item, ipc_send, item_bytes, msgmax}  -- keep
use so.Ipc.Mqueues.Posting.{item_bytes_size, send-fails, send-posts}  -- keep
use so.Base.{
  List, [], arith, inl, inr, none, some, sym, ℕ, ◌*◌, ◌++◌, ◌+◌, ◌<◌, ◌^◌, ◌∙◌, ◌∷◌, ◌≡◌, ◌≢◌, ◌≤◌,
  length, length-take, Bool-cases, if◌then◌else◌, ltb,
}
use so.Actions.{res_movie_list, Send}
use so.Database.{Database}
use so.Database.Valid.{IsValid}
use so.Server.Sizes.{res_movie_list-Answers}

list_size :
    (junk : ℕ → ℕ) (db : Database) (id : ℕ)
    → db.count ≤ 230
    → (res_movie_list junk db id).size ≡ 4 + 284 * db.count
unfolding res_movie_list
list_size junk db id few = omega arith

-- For a valid database of at most 230 movies, the number up to which a client could print the list if it
-- were delivered, over a message queue with the system's default limit: `ipc_send` posts the list of at
-- most 28 movies behind what is in the queue, and from 29 movies on its msgsnd fails, which ends the server.
pub list_response_too_large :
    (junk : ℕ → ℕ) (behind : List ℕ) (db : Database) (id server_id : ℕ) (queue : List Item)
    → length behind ≡ 4
    → IsValid db
    → db.count ≤ 230
    → id ≢ 0
    → let s = res_movie_list junk db id in
      ipc_send server_id s.recipient s.message s.size behind queue ≡ (
        if ltb db.count 29
        then some (
            queue
            ++ record { recipient_id = id; bytes = item_bytes server_id s.message s.size behind }
              ∷ [])
        else none)
unfolding res_movie_list
list_response_too_large junk behind db id server_id queue four v few ne =
    let s : Send = res_movie_list junk db id in
    let (to, whole) = res_movie_list-Answers junk (2 ^ 16) id db v (omega (arith, few)) in
    let some_recipient : s.recipient ≢ 0 = λ e. ne (sym to ∙ e) in
    elim (Bool-cases (ltb db.count 29)) [
      | inl small ↦
          let fits : s.size + 8 ≤ msgmax = ground (arith, list_size junk db id few, small) in
          rw (small, ← to)
            (send-posts server_id s.recipient s.message s.size behind queue some_recipient fits)
      | inr large ↦
          let over : msgmax < length (item_bytes server_id s.message s.size behind) = ground (
            arith,
            item_bytes_size server_id s.message s.size behind,
            list_size junk db id few,
            whole.in_memory,
            length-take s.size s.message,
            length-take 4 behind,
            large,
          ) in
          rw large (send-fails server_id s.recipient s.message s.size behind queue over)
    ]
