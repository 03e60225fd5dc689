-- ===== src/Ipc/Filesig/Wake.antt =====
-- src/ipc/filesig.c: how `ipc_recv` waits for a message. A step is one call of the receiver, the append of a
-- sender, or its signal.
-- Where the receiver stands in `ipc_recv`.
use so.Base.{List, [], refl, some, ℕ, ◌+◌, ◌<◌, ◌^◌, ◌≡◌, ◌≢◌, ◌≤◌, length}
use so.Actions.{Message}
use so.Ipc.Filesig.Inbox.{ipc_recv, ipc_send, take_message}
use so.Ipc.Filesig.Stack.{inbox_of, recv-send, sent_message}

pub data ReceiverPc : Type 0 where
  measuring : ReceiverPc  -- before `fsize`
  drowsy : ReceiverPc  -- `fsize` gave 0; before pause
  paused : ReceiverPc
  locking : ℕ → ReceiverPc  -- with the size that `fsize` gave; before the lock
  returned : Message → ReceiverPc

-- What a call of the receiver does to its inbox file.
pub data ReceiverMove (file : List ℕ) : ReceiverPc → List ℕ → ReceiverPc → Type 0 where
  finds_empty : length file ≡ 0 → ReceiverMove file measuring file drowsy
  finds_some : length file ≢ 0 → ReceiverMove file measuring file (locking (length file))
  pauses : ReceiverMove file drowsy file paused
  takes :
      {size : ℕ} {m : Message} {rest : List ℕ}
      → take_message size file ≡ some (m, rest)
      → ReceiverMove file (locking size) rest (returned m)

-- SIGUSR1, whose handler does nothing: only pause returns.
unfoldable pub wake : ReceiverPc → ReceiverPc
wake paused = measuring
wake measuring = measuring
wake drowsy = drowsy
wake (locking size) = locking size
wake (returned m) = returned m

-- The inbox, its owner, and how many senders have appended and not yet sent the signal.
pub record Waiting : Type 0 where
  pub file : List ℕ
  pub receiver : ReceiverPc
  pub signals : ℕ

pub data Step (t : Waiting) : Waiting → Type 0 where
  receives :
      {file : List ℕ} {p : ReceiverPc}
      → ReceiverMove t.file t.receiver file p
      → Step t (record t { file = file; receiver = p })
  appends :
      (id : ℕ) (content : List ℕ) (length : ℕ)
      → Step t (record t { file = ipc_send id content length t.file; signals = t.signals + 1 })
  kills :
      {n : ℕ} → t.signals ≡ n + 1 → Step t (record t { receiver = wake t.receiver; signals = n })

pub data Steps (t : Waiting) : Waiting → Type 0 where
  stays : Steps t t
  goes : {u w : Waiting} → Steps t u → Step u w → Steps t w

-- An owner in this place, with its inbox.
abbrev pub waiting : List ℕ → ReceiverPc → ℕ → Waiting
waiting file p n = record { file = file; receiver = p; signals = n }

pub paused-stays :
    (file : List ℕ) {file' : List ℕ} {p q : ReceiverPc} → q ≡ paused → ¬ ReceiverMove file q file' p
paused-stays file e (finds_empty h) = cc
paused-stays file e (finds_some h) = cc
paused-stays file e pauses = cc
paused-stays file e (takes h) = cc

-- The owner finds its inbox empty, and a process sends a message, with its signal, before the owner calls
-- pause: then the owner sleeps although the message is in its inbox, no signal is to come, and no step of the
-- owner is possible.
pub wakeup_lost :
    (id size : ℕ) (content : List ℕ)
    → id < 2 ^ 16
    → size < 2 ^ 16
    → size ≤ length content
    → Steps (waiting [] measuring 0) (waiting (ipc_send id content size []) paused 0)
      × (ipc_recv (ipc_send id content size []) ≡ some (sent_message id content size, []))
      × ((file' : List ℕ) (p : ReceiverPc)
          → ¬ ReceiverMove (ipc_send id content size []) paused file' p)
unfolding wake
wakeup_lost id size content a b c =
    let looked : Steps (waiting [] measuring 0) (waiting [] drowsy 0) =
      goes stays (receives (finds_empty refl)) in
    let sent_to : Steps (waiting [] measuring 0) (waiting (ipc_send id content size []) drowsy 1) =
      goes looked (appends id content size) in
    let signalled : Steps (waiting [] measuring 0)
        (waiting (ipc_send id content size []) drowsy 0) =
      goes sent_to (kills refl) in
    (
      goes signalled (receives pauses),
      unfold inbox_of in (recv-send id size content [] a b c).1,
      λ file' p mv. paused-stays (ipc_send id content size []) refl mv,
    )
