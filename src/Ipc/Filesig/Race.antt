-- ===== src/Ipc/Filesig/Race.antt =====
-- The receiver measures the file before it takes the lock. A sender may append in between.
use so.Base.{
  List, Option, [], ap, arith, false, none, refl, some, suc, true, zero, ℕ, ◌++◌, ◌+◌, ◌-◌, ◌∷◌,
  ◌≡◌, ◌≤◌, length, take, if◌then◌else◌, leb, ◌==◌,
}
use so.Actions.{Message}
use so.Ipc.Filesig.Inbox.{take_message, truncate}
use so.Ipc.Filesig.Stack.{length-message_bytes, message_bytes, take_message-append}
use so.Ipc.Messages.{IsMessage}

-- `ipc_recv` where other processes have appended `late` after the call of `fsize`.
unfoldable pub recv_late : List ℕ → List ℕ → Option (Message × List ℕ)
recv_late inbox late =
    if length inbox == 0 then none else take_message (length inbox) (inbox ++ late)

take-prefix {ℓ} :
    {A : Type ℓ} (n : ℕ) (xs ys : List A) → n ≤ length xs → take n (xs ++ ys) ≡ take n xs
take-prefix zero xs ys h = refl
take-prefix (suc n) [] ys h = absurd (omega arith)
take-prefix (suc n) (x ∷ xs) ys h = ap (λ t. x ∷ t) (take-prefix n xs ys (omega arith))

-- If one message waits when the receiver measures the inbox, and another that is no longer is sent before
-- the receiver gets the lock, the receiver takes the late message and cuts the file to the difference of
-- the lengths: the header of the first message is gone, and where the lengths are equal no byte is left.
pub late_send_loses :
    (first late : Message)
    → IsMessage first
    → IsMessage late
    → late.content_length ≤ first.content_length
    → recv_late (message_bytes first) (message_bytes late)
      ≡ some (late, take (first.content_length - late.content_length) (message_bytes first))
unfolding recv_late truncate
late_send_loses first late v w shorter =
    let size = length-message_bytes first v in
    let filled : (length (message_bytes first) == 0) ≡ false = ground (arith, size) in
    let fits : leb (4 + late.content_length) (length (message_bytes first)) ≡ true =
      ground (arith, size) in
    let cut : length (message_bytes first) - (4 + late.content_length)
        ≡ first.content_length - late.content_length =
      omega (arith, size) in
    rw (
      filled,
      take_message-append (message_bytes first) late (length (message_bytes first)) w,
      fits,
      cut,
      take-prefix (first.content_length - late.content_length) (message_bytes first)
          (message_bytes late) (omega (arith, size)),
    )
