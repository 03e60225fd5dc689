-- ===== src/Ipc/Mqueues/Posting.antt =====
-- src/ipc/mqueues.c: when msgsnd takes the item that `ipc_send` posts.
use so.Base.{
  Bool, List, [], arith, false, none, refl, some, true, ℕ, ◌++◌, ◌+◌, ◌<◌, ◌||◌, ◌∷◌, ◌≡◌, ◌≢◌, ◌≤◌,
  length, length-append, length-take, take, if◌then◌else◌, ltb, ◌==◌,
}
use so.Bytes.{put_u16}
use so.Ipc.Mqueues.Items.{Item, ipc_send, item_bytes, msgmax}

pub item_bytes_size :
    (id : ℕ) (message : List ℕ) (n : ℕ) (behind : List ℕ)
    → length (item_bytes id message n behind)
      ≡ 4 + (length (take n message) + length (take 4 behind))
unfolding put_u16
item_bytes_size id message n behind = omega (arith, length-append (take n message) (take 4 behind))

-- A message that msgsnd takes is posted.
pub send-posts :
    (id recipient : ℕ) (message : List ℕ) (n : ℕ) (behind : List ℕ) (queue : List Item)
    → recipient ≢ 0
    → n + 8 ≤ msgmax
    → ipc_send id recipient message n behind queue
      ≡ some (
          queue ++ record { recipient_id = recipient; bytes = item_bytes id message n behind } ∷ [])
unfolding ipc_send
send-posts id recipient message n behind queue ne fits =
    let some_type : (recipient == 0) ≡ false = ground arith in
    let small : ltb msgmax (length (item_bytes id message n behind)) ≡ false = ground (
      arith,
      item_bytes_size id message n behind,
      length-take n message,
      length-take 4 behind,
      fits,
    ) in
    rw (some_type, small) refl

-- And one that is too large is not.
pub send-fails :
    (id recipient : ℕ) (message : List ℕ) (n : ℕ) (behind : List ℕ) (queue : List Item)
    → msgmax < length (item_bytes id message n behind)
    → ipc_send id recipient message n behind queue ≡ none
unfolding ipc_send
send-fails id recipient message n behind queue over =
    let large : ltb msgmax (length (item_bytes id message n behind)) ≡ true = ground arith in
    rw large (either (recipient == 0))
  where
    either :
        (b : Bool)
        → (if b || true
            then none
            else some (
                queue
                ++ record { recipient_id = recipient; bytes = item_bytes id message n behind }
                  ∷ []))
          ≡ none
    either true = refl
    either false = refl
