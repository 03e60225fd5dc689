-- ===== src/Ipc/Mqueues/Queues.antt =====
-- src/ipc/mqueues.c: `ipc_open`, `ipc_listen`, `ipc_connect` and `ipc_close`, on the queues that exist.
-- The items of the queue of each key; none where there is no queue.
use so.Base.{
  List, Option, [], arith, false, none, refl, some, true, ℕ, ◌%◌, ◌^◌, ◌≡◌, ◌≢◌, if◌then◌else◌,
  ◌==◌,
}
use so.Bytes.{◌>>=◌}
use so.Ipc.Clients.{update}
use so.Ipc.Mqueues.Items.{Item}

abbrev pub Queues : Type 0
Queues = ℕ → Option (List Item)

-- `ipc_t`; the queue is named by its key.
pub record Handle : Type 0 where
  pub id : ℕ
  pub server_id : ℕ
  pub queue : ℕ

-- msgget(key, IPC_CREAT): a queue that exists is kept with its items.
unfoldable pub created : Option (List Item) → Option (List Item)
created none = some []
created (some items) = some items

-- `ftok` gives the key of a file; where it fails, a `check` ends the program (none).
unfoldable pub ipc_open : (List ℕ → Option ℕ) → List ℕ → Queues → Option (ℕ × Queues)
ipc_open ftok address queues = do
  sysv_key ← ftok address
  some (sysv_key, update queues sysv_key (created (queues sysv_key)))

unfoldable pub ipc_listen : (List ℕ → Option ℕ) → List ℕ → Queues → Option (Handle × Queues)
ipc_listen ftok address queues = do
  (queue, opened) ← ipc_open ftok address queues
  some (record { id = 1; server_id = 1; queue = queue }, opened)

-- By the process `pid`.
unfoldable pub ipc_connect : (List ℕ → Option ℕ) → ℕ → List ℕ → Queues → Option (Handle × Queues)
ipc_connect ftok pid address queues = do
  (queue, opened) ← ipc_open ftok address queues
  some (record { id = pid % 2 ^ 16; server_id = 1; queue = queue }, opened)

-- msgctl(IPC_RMID) by the server.
unfoldable pub ipc_close : Handle → Queues → Queues
ipc_close ipc queues = if ipc.id == 1 then update queues ipc.queue none else queues

created-twice : (q : Option (List Item)) → created (created q) ≡ created q
unfolding created
created-twice none = refl
created-twice (some items) = refl

-- A server that listens at an address and a client that then connects to it have one queue, with the items
-- that were in it before, and the client has the server's address. If the client's number is another than
-- 1, the client's `ipc_close` changes nothing. After the server has closed as well, the next process that
-- opens the address finds an empty queue.
pub ipc_open-queue :
    (ftok : List ℕ → Option ℕ) (address : List ℕ) (key pid : ℕ) (queues : Queues)
    → ftok address ≡ some key
    → pid % 2 ^ 16 ≢ 1
    → (s : Handle) × (c : Handle) × (q1 : Queues) × (q2 : Queues) × (ipc_listen ftok address queues
        ≡ some (s, q1))
      × (ipc_connect ftok pid address q1 ≡ some (c, q2))
      × (q2 key ≡ created (queues key))
      × (c.queue ≡ s.queue)
      × (c.server_id ≡ s.id)
      × (ipc_close c q2 ≡ q2)
      × ((q3 : Queues) × (ipc_open ftok address (ipc_close s (ipc_close c q2)) ≡ some (key, q3))
          × (q3 key ≡ some []))
unfolding ipc_listen ipc_connect ipc_open ipc_close
ipc_open-queue ftok address key pid queues e ne =
    let q1 : Queues = update queues key (created (queues key)) in
    let q2 : Queues = update q1 key (created (q1 key)) in
    let same : (key == key) ≡ true = ground arith in
    let kept : q2 key ≡ created (queues key) = rw same (created-twice (queues key)) in
    let bare : update (update q2 key none) key (created (update q2 key none key)) key ≡ some [] =
      rw same (unfold created in refl) in
    let stays : (pid % 2 ^ 16 == 1) ≡ false = ground arith in
    (
      record { id = 1; server_id = 1; queue = key },
      record { id = pid % 2 ^ 16; server_id = 1; queue = key },
      q1,
      q2,
      rw e refl,
      rw e refl,
      kept,
      refl,
      refl,
      rw stays refl,
      (
        update (update q2 key none) key (created (update q2 key none key)),
        rw (stays, e) refl,
        bare,
      ),
    )
