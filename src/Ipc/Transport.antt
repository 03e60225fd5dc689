-- ===== src/Ipc/Transport.antt =====
-- What inc/ipc.h promises to the server and the client: each process has a mailbox. In which order the
-- messages of a mailbox are received is left to the transport.
use mathlib.Core.List.{Perm}
use mathlib.Core.List.Perm
use so.Base.{
  Bool, List, Option, [], ap, arith, inl, inr, none, refl, some, suc, ℕ, ◌++◌, ◌∷◌, ◌≡◌, ◌≢◌, ◌⊎◌,
  All, length,
}
use so.Actions.{Message, Send}
use so.Ipc.Clients.{update}
use so.Ipc.Messages.{IsAddress, IsSend, deliver}

-- `rest` is `ms` without one occurrence of `m`.
pub data Picks {ℓ} {A : Type ℓ} (m : A) : List A → List A → Type ℓ where
  first : {ms : List A} → Picks m (m ∷ ms) ms
  later : {x : A} {ms rest : List A} → Picks m ms rest → Picks m (x ∷ ms) (x ∷ rest)

-- The operations on the shared state of all processes, and their laws.
pub record Transport : Type 1 where
  pub State : Type 0
  -- `ipc_send` by the process with this address; none where the call does not return.
  pub send : ℕ → Send → State → Option State
  -- `ipc_recv` by the process with this address; none while it waits.
  pub recv : ℕ → State → Option (Message × State)
  -- Whether `ipc_recv` looks at the mailbox and, finding it empty, sleeps until a signal in a later call. Otherwise
  -- it waits in one call of the system, which returns when there is a message.
  pub sleeps : Bool
  -- The size of the largest message that it carries.
  pub capacity : ℕ
  -- The state holds these messages for each process.
  pub Holds : State → (ℕ → List Message) → Type 0
  pub send_lem :
      (id : ℕ) (s : Send) (t : State) (box : ℕ → List Message)
      → Holds t box
      → IsAddress id
      → IsAddress s.recipient
      → IsSend capacity s
      → (t' : State) × (ms : List Message) × (send id s t ≡ some t')
        × Picks (deliver id s) ms (box s.recipient)
        × Holds t' (update box s.recipient ms)
  pub recv_lem :
      (id : ℕ) (t : State) (box : ℕ → List Message)
      → Holds t box
      → IsAddress id
      → box id ≢ []
      → (m : Message) × (t' : State) × (ms : List Message) × (recv id t ≡ some (m, t'))
        × Picks m (box id) ms
        × Holds t' (update box id ms)
  pub recv_waits :
      (id : ℕ) (t : State) (box : ℕ → List Message)
      → Holds t box
      → IsAddress id
      → box id ≡ []
      → recv id t ≡ none

pub Picks-last {ℓ} : {A : Type ℓ} (xs : List A) (m : A) → Picks m (xs ++ m ∷ []) xs
Picks-last [] m = first
Picks-last (x ∷ xs) m = later (Picks-last xs m)

pub All-append {ℓ κ} :
    {A : Type ℓ} (P : A → Type κ) (xs : List A) {y : A} → All P xs → P y → All P (xs ++ y ∷ [])
All-append P [] all new = (new, tt)
All-append P (x ∷ xs) all new = (all.0, All-append P xs all.1 new)

pub All-Picks {ℓ κ} :
    {A : Type ℓ} (P : A → Type κ) {m : A} {ms rest : List A}
    → Picks m ms rest
    → All P ms
    → P m × All P rest
All-Picks P first all = all
All-Picks P (later p) all = let (one, others) = All-Picks P p all.1 in (one, (all.0, others))

pub length-Picks {ℓ} :
    {A : Type ℓ} {m : A} {ms rest : List A} → Picks m ms rest → length ms ≡ suc (length rest)
length-Picks first = refl
length-Picks (later p) = ap suc (length-Picks p)

pub Picks-Perm {ℓ} : {A : Type ℓ} {m : A} {ms rest : List A} → Picks m ms rest → Perm ms (m ∷ rest)
Picks-Perm {m} (first {ms}) = Perm.refl (m ∷ ms)
Picks-Perm {m} (later {x} {ms} {rest} p) =
    Perm.trans (Perm.cons x (Picks-Perm p)) (Perm.swap m x rest)

pub Picks-All {ℓ κ} :
    {A : Type ℓ} (P : A → Type κ) {m : A} {ms rest : List A}
    → Picks m ms rest
    → P m
    → All P rest
    → All P ms
Picks-All P first one all = (one, all)
Picks-All P (later p) one all = (all.0, Picks-All P p one all.1)

-- One more element hides none.
pub Picks-more {ℓ} :
    {A : Type ℓ} {new x : A} {ms old rest : List A}
    → Picks new ms old
    → Picks x old rest
    → (rest' : List A) × Picks x ms rest'
Picks-more {new} {rest} first q = (new ∷ rest, later q)
Picks-more (later {x} {ms} {rest} p) first = (ms, first)
Picks-more (later {x} p) (later q) = let (r, more) = Picks-more p q in (x ∷ r, later more)

-- Another element than the one that is taken stays.
pub Picks-either {ℓ} :
    {A : Type ℓ} {m x : A} {ms rest rest' : List A}
    → Picks m ms rest
    → Picks x ms rest'
    → (x ≡ m) ⊎ ((r : List A) × Picks x rest r)
Picks-either first first = inl refl
Picks-either first (later {rest} q) = inr (rest, q)
Picks-either (later {rest} p) first = inr (rest, first)
Picks-either (later {x} p) (later q) = elim (Picks-either p q) [
  | inl e ↦ inl e
  | inr (r, more) ↦ inr (x ∷ r, later more)
]

pub Picks-filled {ℓ} : {A : Type ℓ} {m : A} {ms rest : List A} → Picks m ms rest → ms ≢ []
Picks-filled p e = ground (arith, length-Picks p, ap length e)
