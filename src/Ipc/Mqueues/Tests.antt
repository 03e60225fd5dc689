-- ===== src/Ipc/Mqueues/Tests.antt =====
-- A queue with messages for two processes.
use so.Base.{List, [], arith, refl, ℕ, ◌∷◌, ◌≡◌}
use so.Actions.{Message}
use so.Bytes.{first_u16, put_u16}
use so.Ipc.Mqueues.Items.{given, gives, ipc_recv, keep, read_item}
use so.Ipc.Mqueues.Mailboxes.{IsPost, Post, Takes, ipc_recv-mailbox, item_of, items_of}

abbrev hello : Message
hello = record { sender = 5; content_length = 2; content = 8 ∷ 9 ∷ [] }

abbrev behind : List ℕ
behind = 0 ∷ 0 ∷ 0 ∷ 0 ∷ []

-- For the server, 1, and for the process 9.
abbrev posts : List Post
posts =
    record { to = 9; message = hello; behind = behind }
    ∷ record { to = 1; message = hello; behind = behind }
    ∷ []

hello-IsPost : (to : ℕ) → IsPost (record { to = to; message = hello; behind = behind })
hello-IsPost to = record {
  valid = record { sender_fits = omega arith; length_fits = omega arith; exact = refl };
  padded = refl;
  small = omega arith;
}

ipc_recv-mailbox_example : Takes 1 posts (ipc_recv 1 (items_of posts))
ipc_recv-mailbox_example =
    ipc_recv-mailbox 1 posts (omega arith) (hello-IsPost 9, (hello-IsPost 1, tt))

-- The receiver passes over the item for the process 9.
takes_second :
    ipc_recv 1 (items_of posts)
    ≡ gives hello (item_of (record { to = 9; message = hello; behind = behind }) ∷ [])
unfolding ipc_recv items_of given read_item keep put_u16 first_u16
takes_second = refl
