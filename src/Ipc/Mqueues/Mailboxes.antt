-- ===== src/Ipc/Mqueues/Mailboxes.antt =====
-- The one queue of src/ipc/mqueues.c serves every process as a first-in first-out queue of its own.
use so.Base.{
  List, [], ap, arith, false, inl, inr, refl, some, sym, true, ℕ, ℕ_discrete, ◌%◌, ◌++◌, ◌+◌, ◌∙◌,
  ◌∷◌, ◌≡◌, ◌≢◌, ◌≤◌, All, drop, length, length-append, length-take, take, take-append, take_all,
  Bool-cases, if◌then◌else◌, leb, ◌==◌,
}
use so.Actions.{Message}
use so.Bytes.{put_u16, drop-put_u16, first_u16-put_u16}
use so.Ipc.Messages.{IsMessage}
use so.Ipc.Mqueues.Items.{
  Item, Received, given, gives, ipc_recv, ipc_send, item_bytes, keep, message_buffer_size, msgmax,
  read_item, waits,
}
use so.Ipc.Mqueues.Posting.{send-posts}

-- A message in the queue, with the bytes that the sender's memory held behind it.
pub record Post : Type 0 where
  pub to : ℕ
  pub message : Message
  pub behind : List ℕ

abbrev pub item_of : Post → Item
item_of p = record {
  recipient_id = p.to;
  bytes = item_bytes p.message.sender p.message.content p.message.content_length p.behind;
}

unfoldable pub items_of : List Post → List Item
items_of [] = []
items_of (p ∷ ps) = item_of p ∷ items_of ps

-- A message that fits the receiver's buffer, padding included.
pub record IsPost (p : Post) : Type 0 where
  pub valid : IsMessage p.message
  pub padded : length p.behind ≡ 4
  pub small : 8 + p.message.content_length ≤ message_buffer_size

-- The messages for one process, the first sent first.
unfoldable pub mailbox : ℕ → List Post → List Message
mailbox id [] = []
mailbox id (p ∷ ps) = if p.to == id then p.message ∷ mailbox id ps else mailbox id ps

length-item_bytes : (p : Post) → IsPost p → length (item_of p).bytes ≡ 8 + p.message.content_length
unfolding put_u16
length-item_bytes p v =
    let m = p.message in
    omega (
      arith,
      v.valid.exact,
      v.padded,
      length-append (take m.content_length m.content) (take 4 p.behind),
      length-take m.content_length m.content,
      length-take 4 p.behind,
    )

fits : (p : Post) → IsPost p → leb (length (item_of p).bytes) message_buffer_size ≡ true
fits p v = let size = length-item_bytes p v in let small = v.small in ground (arith, size, small)

drop_header : (a b : ℕ) (r : List ℕ) → drop 4 (put_u16 a ++ (put_u16 b ++ r)) ≡ r
unfolding put_u16
drop_header a b r = refl

-- What was posted is read back, and the padding is left out.
read-item_of : (p : Post) → IsPost p → read_item (item_of p).bytes ≡ some p.message
unfolding read_item
read-item_of p v =
    let m = p.message in
    let padding = take 4 p.behind in
    let whole : take m.content_length m.content ≡ m.content =
      take_all m.content_length m.content (omega (arith, v.valid.exact)) in
    let sender : m.sender % 65536 ≡ m.sender = omega (arith, v.valid.sender_fits) in
    let count : m.content_length % 65536 ≡ m.content_length = omega (arith, v.valid.length_fits) in
    rw (
      whole,
      first_u16-put_u16 m.sender (put_u16 m.content_length ++ (m.content ++ padding)),
      sender,
      drop-put_u16 m.sender (put_u16 m.content_length ++ (m.content ++ padding)),
      first_u16-put_u16 m.content_length (m.content ++ padding),
      count,
      drop_header m.sender m.content_length (m.content ++ padding),
      take-append m.content_length m.content padding v.valid.exact,
    )

pub items_of-append :
    (ps : List Post) (p : Post) → items_of (ps ++ p ∷ []) ≡ items_of ps ++ item_of p ∷ []
unfolding items_of
items_of-append [] p = refl
items_of-append (q ∷ ps) p = ap (λ t. item_of q ∷ t) (items_of-append ps p)

pub mailbox-append :
    (id : ℕ) (ps : List Post) (p : Post)
    → mailbox id (ps ++ p ∷ []) ≡ mailbox id ps ++ mailbox id (p ∷ [])
unfolding mailbox
mailbox-append id [] p = refl
mailbox-append id (q ∷ ps) p =
    let rest = mailbox-append id ps p in
    elim (Bool-cases (q.to == id)) [ inl y ↦ rw (y, rest) refl | inr n ↦ rw (n, rest) refl ]

-- The message, if it is for the process `j`.
abbrev pub only_for : ℕ → ℕ → Message → List Message
only_for to j m = if to == j then m ∷ [] else []

pub mailbox-single : (p : Post) (j : ℕ) → mailbox j (p ∷ []) ≡ only_for p.to j p.message
unfolding mailbox
mailbox-single p j = refl

mailbox-cons :
    (p : Post) (ps : List Post) (j : ℕ)
    → mailbox j (p ∷ ps) ≡ only_for p.to j p.message ++ mailbox j ps
unfolding mailbox
mailbox-cons p ps j = elim (Bool-cases (p.to == j)) [ inl y ↦ rw y refl | inr n ↦ rw n refl ]

-- `ipc_send` of a message that msgsnd takes, with a recipient other than 0, appends the message, with the sender's address, to the mailbox
-- of the recipient, and leaves every other mailbox as it is.
pub ipc_send-mailbox :
    (id recipient : ℕ) (message behind : List ℕ) (ps : List Post)
    → recipient ≢ 0
    → length message + 8 ≤ msgmax
    → (p : Post) × (ipc_send id recipient message (length message) behind (items_of ps)
        ≡ some (items_of (ps ++ p ∷ [])))
      × ((j : ℕ)
          → mailbox j (ps ++ p ∷ [])
            ≡ mailbox j ps
              ++ only_for recipient j
                  (record { sender = id; content_length = length message; content = message }))
ipc_send-mailbox id recipient message behind ps ne fits =
    let sent : Message = record {
      sender = id;
      content_length = length message;
      content = message;
    } in
    let p : Post = record { to = recipient; message = sent; behind = behind } in
    (
      p,
      send-posts id recipient message (length message) behind (items_of ps) ne fits
          ∙ ap some (sym (items_of-append ps p)),
      λ j. mailbox-append j ps p ∙ ap (λ t. mailbox j ps ++ t) (mailbox-single p j),
    )

-- What `ipc_recv` does by the mailbox of the process: an empty one makes it wait, and else it gives the
-- first message and takes it from this mailbox and from no other.
pub data Takes (id : ℕ) (ps : List Post) : Received → Type 0 where
  empty : mailbox id ps ≡ [] → Takes id ps waits
  front :
      (m : Message) (rest : List Post)
      → ((j : ℕ) → mailbox j ps ≡ only_for id j m ++ mailbox j rest)
      → All IsPost rest
      → Takes id ps (gives m (items_of rest))

pass_over :
    (j id to : ℕ) (m x : Message) (ms rest : List Message)
    → to ≢ id
    → ms ≡ only_for id j m ++ rest
    → only_for to j x ++ ms ≡ only_for id j m ++ (only_for to j x ++ rest)
pass_over j id to m x ms rest ne e = elim (ℕ_discrete to j) [
  | yes same ↦
      let own : (to == j) ≡ true = ground arith in
      let other : (id == j) ≡ false = ground arith in rw (e, own, other) refl
  | no n ↦ let not_own : (to == j) ≡ false = ground arith in rw (e, not_own) refl
]

keep-Takes :
    (id : ℕ) (p : Post) (ps : List Post) {r : Received}
    → p.to ≢ id
    → IsPost p
    → Takes id ps r
    → Takes id (p ∷ ps) (keep (item_of p) r)
unfolding keep items_of
keep-Takes id p ps ne v (empty e) = empty (unfold mailbox in ground arith)
keep-Takes id p ps ne v (front m rest e all) =
    front m (p ∷ rest)
      (λ j.
        rw (mailbox-cons p ps j, mailbox-cons p rest j)
          (pass_over j id p.to m p.message (mailbox j ps) (mailbox j rest) ne (e j)))
      (v, all)

-- For a process other than 0 and a queue of messages that fit the buffer: `ipc_recv` waits exactly when
-- the process's mailbox is empty, and else gives its first message whole, and takes it from this mailbox
-- and from no other.
pub ipc_recv-mailbox :
    (id : ℕ) (ps : List Post) → id ≢ 0 → All IsPost ps → Takes id ps (ipc_recv id (items_of ps))
unfolding ipc_recv items_of given
ipc_recv-mailbox id [] ne v = empty (unfold mailbox in refl)
ipc_recv-mailbox id (p ∷ ps) ne v =
    let rest = ipc_recv-mailbox id ps ne v.1 in
    let some_type : (id == 0) ≡ false = ground arith in
    elim (ℕ_discrete p.to id) [
      | yes same ↦
          let own : (p.to == id) ≡ true = ground arith in
          rw (some_type, own, fits p v.0, read-item_of p v.0)
            (front p.message ps (λ j. rw (← same) (mailbox-cons p ps j)) v.1)
      | no n ↦
          let other : (p.to == id) ≡ false = ground arith in
          rw (some_type, other) (keep-Takes id p ps n v.0 rest)
    ]
