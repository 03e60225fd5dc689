-- ===== src/Ipc/Mqueues/Items.antt =====
-- src/ipc/mqueues.c: `ipc_send` and `ipc_recv` on the items of the queue.
use so.Base.{
  List, Option, [], none, some, ℕ, ◌++◌, ◌||◌, ◌∷◌, drop, length, take, if◌then◌else◌, leb, ltb,
  ◌==◌,
}
use so.Actions.{Message}
use so.Bytes.{first_u16, put_u16, ◌>>=◌}

-- An item of the queue: its type, and the bytes of `ipc_queue_item_t` behind it.
pub record Item : Type 0 where
  pub recipient_id : ℕ
  pub bytes : List ℕ

-- MESSAGE_BUFFER_SIZE
abbrev pub message_buffer_size : ℕ
message_buffer_size = 10240

-- MSGMAX: the largest item that msgsnd takes, unless the system is set otherwise.
abbrev pub msgmax : ℕ
msgmax = 8192

-- The bytes that `ipc_send` posts: sizeof(ipc_queue_item_t) counts 4 bytes that pad the structure, so
-- as many bytes behind the content are posted too (`behind`, whatever the memory holds).
abbrev pub item_bytes : ℕ → List ℕ → ℕ → List ℕ → List ℕ
item_bytes id message length behind =
    put_u16 id ++ (put_u16 length ++ (take length message ++ take 4 behind))

-- `ipc_send` by the process `id`. msgsnd takes no item of a type below 1, and none that is larger than
-- MSGMAX: then `check` ends the program (none). A full queue makes it wait, which is left out.
unfoldable pub ipc_send : ℕ → ℕ → List ℕ → ℕ → List ℕ → List Item → Option (List Item)
ipc_send id recipient message length_ behind queue =
    let bytes = item_bytes id message length_ behind in
    if (recipient == 0) || ltb msgmax (length bytes)
    then none
    else some (queue ++ record { recipient_id = recipient; bytes = bytes } ∷ [])

-- What `ipc_recv` does: it waits for an item, or the program ends as msgrcv fails on an item that is
-- larger than the buffer, or it gives a message and leaves the other items.
pub data Received : Type 0 where
  waits : Received
  fails : Received
  gives : Message → List Item → Received

-- The bytes of the item as a `message_t`. Header fields that are not in the item are not set (none).
unfoldable pub read_item : List ℕ → Option Message
read_item bytes = do
  sender ← first_u16 bytes
  content_length ← first_u16 (drop 2 bytes)
  some (record {
    sender = sender;
    content_length = content_length;
    content = take content_length (drop 4 bytes);
  })

unfoldable pub given : Option Message → List Item → Received
given none rest = fails
given (some m) rest = gives m rest

-- The items that msgrcv has passed over stay in front.
unfoldable pub keep : Item → Received → Received
keep item waits = waits
keep item fails = fails
keep item (gives m rest) = gives m (item ∷ rest)

-- `ipc_recv` by the process `id`: msgrcv takes the first item of this type, and any for 0.
unfoldable pub ipc_recv : ℕ → List Item → Received
ipc_recv id [] = waits
ipc_recv id (item ∷ queue) =
    let rest = ipc_recv id queue in
    if (id == 0) || (item.recipient_id == id)
    then (if leb (length item.bytes) message_buffer_size
        then given (read_item item.bytes) queue
        else fails)
    else keep item rest
