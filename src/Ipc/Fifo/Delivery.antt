-- ===== src/Ipc/Fifo/Delivery.antt =====
-- Which calls of `ipc_send` of src/ipc/fifo.c reach an inbox, when owners come and go.
use so.Base.{
  Bool, List, Option, [], arith, false, inl, inr, none, refl, some, true, ℕ, ℕ_discrete, ◌∙◌, ◌∷◌,
  ◌≡◌, ◌≢◌, Bool-cases, eq→==, if◌then◌else◌, ne→==, ◌==◌,
}
use so.Ipc.Clients.{update, update-both, update-ne, update_self}
use so.Ipc.Fifo.Locks.{
  Directory, completes, getlock, ipc_close, ipc_create, ipc_send, opened_lock, rmlock, waits,
}

pub data Event : Type 0 where
  creates : ℕ → Event
  closes : ℕ → Event
  sends_to : ℕ → Event

-- A process that ends in `ipc_create` leaves the directory.
abbrev pub created : Directory → Option Directory → Directory
created d none = d
created d (some d') = d'

unfoldable pub event : Event → Directory → Directory
event (creates pid) d = created d (ipc_create pid d)
event (closes pid) d = ipc_close pid d
event (sends_to pid) d = (ipc_send pid d).1

unfoldable pub events : List Event → Directory → Directory
events [] d = d
events (e ∷ es) d = events es (event e d)

-- Whether the owner `pid` has created its inbox and not closed it since.
unfoldable pub is_open : ℕ → Bool → List Event → Bool
is_open pid b [] = b
is_open pid b (creates p ∷ es) = is_open pid (if p == pid then true else b) es
is_open pid b (closes p ∷ es) = is_open pid (if p == pid then false else b) es
is_open pid b (sends_to p ∷ es) = is_open pid b es

abbrev pub no_inbox : Directory
no_inbox = record { pipe = λ pid. false; lock = λ pid. none }

-- An inbox that exists has a free lock, and the lock of one that does not cannot be taken.
abbrev Matches : Bool → Option ℕ → Type 0
Matches true l = l ≡ some 1
Matches false l = opened_lock l ≡ 0

abbrev IsSound : Directory → Type 0
IsSound d = (pid : ℕ) → Matches (d.pipe pid) (d.lock pid)

-- A change at one inbox.
changed :
    (pid : ℕ) (d d' : Directory)
    → IsSound d
    → Matches (d'.pipe pid) (d'.lock pid)
    → ((p : ℕ) → pid ≢ p → (d'.pipe p ≡ d.pipe p) × (d'.lock p ≡ d.lock p))
    → IsSound d'
changed pid d d' h new others p = elim (ℕ_discrete pid p) [
  | yes e ↦ rw (← e) new
  | no n ↦ rw ((others p n).0, (others p n).1) (h p)
]

ipc_create-IsSound : (pid : ℕ) (d : Directory) → IsSound d → IsSound (created d (ipc_create pid d))
unfolding ipc_create getlock
ipc_create-IsSound pid d h = elim (Bool-cases (d.pipe pid)) [
  | inl there ↦ rw there h
  | inr absent ↦ rw absent (
      changed pid d _ h
        (rw (update_self d.pipe pid true) (update_self (update d.lock pid _) pid (some 1)))
        (λ p n. (
          update-ne d.pipe pid true p n,
          update-ne (update d.lock pid _) pid (some 1) p n ∙ update-ne d.lock pid _ p n,
        )))
]

ipc_close-IsSound : (pid : ℕ) (d : Directory) → IsSound d → IsSound (ipc_close pid d)
unfolding ipc_close rmlock
ipc_close-IsSound pid d h = update-both Matches d.pipe d.lock pid h refl

-- In a sound directory `ipc_send` to an inbox that exists completes, and to one that does not waits.
send_outcome :
    (pid : ℕ) (d : Directory)
    → IsSound d
    → (ipc_send pid d).0 ≡ (if d.pipe pid then completes else waits)
unfolding ipc_send
send_outcome pid d h = elim (Bool-cases (d.pipe pid)) [
  | inl there ↦ let one : d.lock pid ≡ some 1 = rw there at (h pid) in rw (there, one) refl
  | inr absent ↦
      let locked : opened_lock (d.lock pid) ≡ 0 = rw absent at (h pid) in rw (absent, locked) refl
]

ipc_send-IsSound : (pid : ℕ) (d : Directory) → IsSound d → IsSound (ipc_send pid d).1
unfolding ipc_send getlock
ipc_send-IsSound pid d h = elim (Bool-cases (d.pipe pid)) [
  | inl there ↦
      let one : d.lock pid ≡ some 1 = rw there at (h pid) in
      rw (there, one)
        (let acquired = update (update d.lock pid (some 1)) pid (some 0) in
          changed pid d (record d { lock = update acquired pid (some 1) }) h
            (rw (there, update_self acquired pid (some 1)) refl)
            (λ p n. (
              refl,
              update-ne acquired pid (some 1) p n
                  ∙ update-ne (update d.lock pid (some 1)) pid (some 0) p n
                  ∙ update-ne d.lock pid (some 1) p n,
            )))
  | inr absent ↦
      let locked : opened_lock (d.lock pid) ≡ 0 = rw absent at (h pid) in
      rw (absent, locked)
        (changed pid d (record d { lock = update d.lock pid (some 0) }) h
          (rw (absent, update_self d.lock pid (some 0)) refl)
          (λ p n. (refl, update-ne d.lock pid (some 0) p n)))
]

ipc_send-pipe : (pid : ℕ) (d : Directory) → (ipc_send pid d).1.pipe ≡ d.pipe
unfolding ipc_send getlock
ipc_send-pipe pid d = ground arith

events-IsSound : (es : List Event) (d : Directory) → IsSound d → IsSound (events es d)
unfolding events event
events-IsSound [] d h = h
events-IsSound (creates p ∷ es) d h =
    events-IsSound es (created d (ipc_create p d)) (ipc_create-IsSound p d h)
events-IsSound (closes p ∷ es) d h = events-IsSound es (ipc_close p d) (ipc_close-IsSound p d h)
events-IsSound (sends_to p ∷ es) d h = events-IsSound es (ipc_send p d).1 (ipc_send-IsSound p d h)

ipc_create-pipe :
    (p pid : ℕ) (d : Directory)
    → (created d (ipc_create p d)).pipe pid ≡ (if p == pid then true else d.pipe pid)
unfolding ipc_create getlock
ipc_create-pipe p pid d = elim (Bool-cases (d.pipe p)) [
  | inl there ↦ rw there (elim (ℕ_discrete p pid) [
    | yes e ↦ rw (eq→== p pid e, ← e) there
    | no n ↦ rw (ne→== p pid n) refl
  ])
  | inr absent ↦ rw absent refl
]

events-pipe :
    (es : List Event) (pid : ℕ) (d : Directory)
    → (events es d).pipe pid ≡ is_open pid (d.pipe pid) es
unfolding events event is_open ipc_close rmlock
events-pipe [] pid d = refl
events-pipe (creates p ∷ es) pid d =
    rw (← ipc_create-pipe p pid d) (events-pipe es pid (created d (ipc_create p d)))
events-pipe (closes p ∷ es) pid d = events-pipe es pid (ipc_close p d)
events-pipe (sends_to p ∷ es) pid d =
    rw (events-pipe es pid (ipc_send p d).1, ipc_send-pipe p d) refl

-- After any calls of `ipc_create`, `ipc_close` and `ipc_send` of any owners and senders, `ipc_send` to an
-- inbox completes if its owner has created it and not closed it since, and otherwise waits for the lock. It
-- never ends its process.
pub send-delivers :
    (es : List Event) (pid : ℕ)
    → (ipc_send pid (events es no_inbox)).0 ≡ (if is_open pid false es then completes else waits)
send-delivers es pid =
    let sound = events-IsSound es no_inbox (λ p. refl) in
    rw (send_outcome pid (events es no_inbox) sound, events-pipe es pid no_inbox) refl
