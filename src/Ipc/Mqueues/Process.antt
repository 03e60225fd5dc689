-- ===== src/Ipc/Mqueues/Process.antt =====
-- The message queue of src/ipc/mqueues.c as the mailboxes of all processes.
use so.Base.{
  List, Option, [], ap, append-nil, arith, false, none, refl, some, sym, ℕ, ℕ_discrete, ◌++◌, ◌-◌,
  ◌∙◌, ◌∷◌, ◌≡◌, ◌≢◌, ◌≤◌, All, length, length-take, take, take_all,
}
use so.Actions.{Message, Send}
use so.Ipc.Clients.{update, update-ne, update_self}
use so.Ipc.Messages.{IsAddress, IsSend, deliver, deliver-IsMessage}
use so.Ipc.Mqueues.Items.{Item, Received, fails, gives, ipc_recv, ipc_send, msgmax, waits}
use so.Ipc.Mqueues.Mailboxes.{
  IsPost, Post, Takes, empty, ipc_recv-mailbox, items_of, items_of-append, mailbox, mailbox-append,
  mailbox-single, only_for,
}
use so.Ipc.Mqueues.Posting.{send-posts}
use so.Ipc.Transport.{All-append, Picks, Picks-last, Transport, first}

-- `behind` is what the memory holds behind a message that is sent.
unfoldable pub send : List ℕ → ℕ → Send → List Item → Option (List Item)
send behind id s queue = ipc_send id s.recipient s.message s.size behind queue

unfoldable pub message_of : Received → Option (Message × List Item)
message_of waits = none
message_of fails = none
message_of (gives m rest) = some (m, rest)

unfoldable pub recv : ℕ → List Item → Option (Message × List Item)
recv id queue = message_of (ipc_recv id queue)

-- The queue holds messages that fit the buffer, and for each process those of its mailbox.
pub record HoldsItems (queue : List Item) (box : ℕ → List Message) : Type 0 where
  pub posts : List Post
  pub items : queue ≡ items_of posts
  pub fitting : All IsPost posts
  pub boxes : (j : ℕ) → mailbox j posts ≡ box j

-- The largest message that `ipc_send` posts, which `ipc_recv` takes too.
abbrev pub largest : ℕ
largest = msgmax - 8

post_of : List ℕ → ℕ → Send → Post
post_of behind id s = record { to = s.recipient; message = deliver id s; behind = behind }

post_of-IsPost :
    (behind : List ℕ) (id : ℕ) (s : Send)
    → length behind ≡ 4
    → IsAddress id
    → IsSend largest s
    → IsPost (post_of behind id s)
unfolding post_of
post_of-IsPost behind id s four a v = record {
  valid = deliver-IsMessage largest id s a v;
  padded = four;
  small = unfold deliver in omega (arith, v.carried);
}

take-take {ℓ} : {A : Type ℓ} (n : ℕ) (xs : List A) → take n (take n xs) ≡ take n xs
take-take n xs = take_all n (take n xs) (omega (arith, length-take n xs))

send-items_of :
    (behind : List ℕ) (id : ℕ) (s : Send) (ps : List Post)
    → s.recipient ≢ 0
    → s.size ≤ largest
    → send behind id s (items_of ps) ≡ some (items_of (ps ++ post_of behind id s ∷ []))
unfolding send post_of deliver
send-items_of behind id s ps ne small =
    rw (items_of-append, take-take s.size s.message)
      (send-posts id s.recipient s.message s.size behind (items_of ps) ne (omega (arith, small)))

pub send_lem :
    (behind : List ℕ) (id : ℕ) (s : Send) (queue : List Item) (box : ℕ → List Message)
    → length behind ≡ 4
    → HoldsItems queue box
    → IsAddress id
    → IsAddress s.recipient
    → IsSend largest s
    → (queue' : List Item) × (ms : List Message) × (send behind id s queue ≡ some queue')
      × Picks (deliver id s) ms (box s.recipient)
      × HoldsItems queue' (update box s.recipient ms)
unfolding post_of
send_lem behind id s queue box four h a b v =
    let queue' : List Item = items_of (h.posts ++ post_of behind id s ∷ []) in
    (
      queue',
      box s.recipient ++ deliver id s ∷ [],
      rw h.items (send-items_of behind id s h.posts (omega (arith, b.0)) v.carried),
      Picks-last (box s.recipient) (deliver id s),
      record {
        posts = h.posts ++ post_of behind id s ∷ [];
        items = refl;
        fitting = All-append IsPost h.posts h.fitting (post_of-IsPost behind id s four a v);
        boxes = λ j.
            mailbox-append j h.posts (post_of behind id s)
            ∙ rw (h.boxes j, mailbox-single (post_of behind id s) j)
                (only_for-update box s.recipient j (deliver id s));
      },
    )
  where
    only_for-update :
        (f : ℕ → List Message) (i j : ℕ) (m : Message)
        → f j ++ only_for i j m ≡ update f i (f i ++ m ∷ []) j
    only_for-update f i j m = elim (ℕ_discrete i j) [
      | yes e ↦ rw (e, update_self f j (f j ++ m ∷ [])) (ground arith)
      | no n ↦ rw (update-ne f i (f i ++ m ∷ []) j n) (ground (arith, append-nil (f j)))
    ]

-- What `ipc_recv` leaves of a mailbox of another process, and of its own.
only_for_other : (id j : ℕ) (m : Message) → id ≢ j → only_for id j m ≡ []
only_for_other id j m ne = ground arith

only_for_self : (id : ℕ) (m : Message) → only_for id id m ≡ m ∷ []
only_for_self id m = ground arith

-- What a receiver finds in a queue that holds these mailboxes.
data Finds (id : ℕ) (queue : List Item) (box : ℕ → List Message) : Type 0 where
  nothing : box id ≡ [] → recv id queue ≡ none → Finds id queue box
  front :
      (m : Message) (queue' : List Item) (ms : List Message)
      → box id ≡ m ∷ ms
      → recv id queue ≡ some (m, queue')
      → HoldsItems queue' (update box id ms)
      → Finds id queue box

Takes-Finds :
    (id : ℕ) (ps : List Post) (box : ℕ → List Message) {r : Received}
    → ipc_recv id (items_of ps) ≡ r
    → ((j : ℕ) → mailbox j ps ≡ box j)
    → Takes id ps r
    → Finds id (items_of ps) box
unfolding recv message_of
Takes-Finds id ps box e same (empty none_left) = nothing (sym (same id) ∙ none_left) (rw e refl)
Takes-Finds id ps box e same (Takes.front m rest split fitting) =
    let own : box id ≡ m ∷ mailbox id rest =
      sym (same id) ∙ split id ∙ ap (λ ms. ms ++ mailbox id rest) (only_for_self id m) in
    front m (items_of rest) (mailbox id rest) own (rw e refl)
      (record { posts = rest; items = refl; fitting = fitting; boxes = left_over })
  where
    left_over : (j : ℕ) → mailbox j rest ≡ update box id (mailbox id rest) j
    left_over j = elim (ℕ_discrete id j) [
      | yes at ↦ rw (at, update_self box j (mailbox j rest)) refl
      | no n ↦
          rw (update-ne box id (mailbox id rest) j n) (
            ap (λ ms. ms ++ mailbox j rest) (sym (only_for_other id j m n))
            ∙ sym (split j)
            ∙ same j)
    ]

HoldsItems-Finds :
    (id : ℕ) (queue : List Item) (box : ℕ → List Message)
    → HoldsItems queue box
    → IsAddress id
    → Finds id queue box
HoldsItems-Finds id queue box h a = rw h.items (
    Takes-Finds id h.posts box refl h.boxes
      (ipc_recv-mailbox id h.posts (omega (arith, a.0)) h.fitting))

pub recv_lem :
    (id : ℕ) (queue : List Item) (box : ℕ → List Message)
    → HoldsItems queue box
    → IsAddress id
    → box id ≢ []
    → (m : Message) × (queue' : List Item) × (ms : List Message) × (recv id queue
        ≡ some (m, queue'))
      × Picks m (box id) ms
      × HoldsItems queue' (update box id ms)
recv_lem id queue box h a filled = of_finds (HoldsItems-Finds id queue box h a)
  where
    of_finds :
        Finds id queue box
        → (m : Message) × (queue' : List Item) × (ms : List Message) × (recv id queue
            ≡ some (m, queue'))
          × Picks m (box id) ms
          × HoldsItems queue' (update box id ms)
    of_finds (nothing e r) = absurd (filled e)
    of_finds (front m queue' ms e r h') = (m, queue', ms, r, rw e first, h')

pub recv_waits :
    (id : ℕ) (queue : List Item) (box : ℕ → List Message)
    → HoldsItems queue box
    → IsAddress id
    → box id ≡ []
    → recv id queue ≡ none
recv_waits id queue box h a bare = of_finds (HoldsItems-Finds id queue box h a)
  where
    of_finds : Finds id queue box → recv id queue ≡ none
    of_finds (nothing e r) = r
    of_finds (front m queue' ms e r h') = cc

-- src/ipc/mqueues.c, as the server and the client use it.
abbrev pub mqueues : (behind : List ℕ) → length behind ≡ 4 → Transport
mqueues behind four = record {
  State = List Item;
  send = send behind;
  recv = recv;
  sleeps = false;
  capacity = largest;
  Holds = HoldsItems;
  send_lem = λ id s t box h a b v. send_lem behind id s t box four h a b v;
  recv_lem = recv_lem;
  recv_waits = recv_waits;
}
