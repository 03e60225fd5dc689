-- ===== src/System/Mail.antt =====
-- What the mailboxes hold in any interleaving of the calls of all processes.
use so.Base.{List, [], arith, none, some, ℕ, ℕ_discrete, ◌≡◌, ◌≢◌, All}
use so.Actions.{Message, Send}
use so.Ipc.Clients.{update, update-ne, update_self}
use so.Ipc.Messages.{IsAddress, IsSend, deliver}
use so.Ipc.Transport.{All-Picks, Picks, Picks-All, Transport}
use so.System.Interleaved.{
  AllAnswered, ClientPc, IsReply, Programs, ServerPc, World, awaiting, connected, free, got,
  replying,
}
use so.System.Pending.{Pending}
use so.System.Serving.{Carries}

module _ (T : Transport) (junk : ℕ → ℕ) (p : Programs T) where
  -- A message that a client sent.
  abbrev pub IsAsked : Message → Type 0
  IsAsked m =
      IsAddress m.sender × (m.sender ≢ p.server_id) × (m ≡ deliver m.sender (p.request m.sender))

  -- What may stand in the mailbox of the process `j`.
  pub record IsMail (j : ℕ) (m : Message) : Type 0 where
    pub asked : j ≡ p.server_id → IsAsked m
    pub replied : j ≢ p.server_id → IsReply T junk p j m

  abbrev pub IsHeld : ServerPc → Type 0
  IsHeld free = Unit
  IsHeld (replying none) = Unit
  IsHeld (replying (some s)) =
      IsAddress s.recipient
      × (s.recipient ≢ p.server_id)
      × IsSend T.capacity s
      × IsReply T junk p s.recipient (deliver p.server_id s)

  abbrev pub IsServed : ℕ → ClientPc → Type 0
  IsServed j connected = Unit
  IsServed j awaiting = Unit
  IsServed j (got m) = IsReply T junk p j m

  pub record IsSafe (w : World T) : Type 0 where
    pub box : ℕ → List Message
    pub holds : T.Holds w.transport box
    pub carries : Carries T.capacity w.database
    pub mail : (j : ℕ) → All (IsMail j) (box j)
    pub held : IsHeld w.server
    pub served : (j : ℕ) → IsServed j (w.client j)
    pub pending :
        AllAnswered T junk p
        → (j : ℕ) → j ≢ p.server_id
        → w.client j ≡ awaiting
        → Pending p.server_id box w.server j

  update-IsMail :
      (box : ℕ → List Message) (i : ℕ) (ms : List Message)
      → ((j : ℕ) → All (IsMail j) (box j))
      → All (IsMail i) ms
      → (j : ℕ) → All (IsMail j) (update box i ms j)
  update-IsMail box i ms mail new j = elim (ℕ_discrete i j) [
    | yes e ↦ rw (← e, update_self box i ms) new
    | no n ↦ rw (update-ne box i ms j n) (mail j)
  ]

  pub update-IsServed :
      (client : ℕ → ClientPc) (i : ℕ) (c : ClientPc)
      → ((j : ℕ) → IsServed j (client j))
      → IsServed i c
      → (j : ℕ) → IsServed j (update client i c j)
  update-IsServed client i c all new j = elim (ℕ_discrete i j) [
    | yes e ↦ rw (← e, update_self client i c) new
    | no n ↦ rw (update-ne client i c j n) (all j)
  ]

  -- A call of `ipc_send`, from the law of the transport.
  pub sends-IsMail :
      (id : ℕ) (s : Send) (t t' : T.State) (box : ℕ → List Message)
      → T.Holds t box
      → ((j : ℕ) → All (IsMail j) (box j))
      → IsAddress id
      → IsAddress s.recipient
      → IsSend T.capacity s
      → IsMail s.recipient (deliver id s)
      → T.send id s t ≡ some t'
      → (ms : List Message) × Picks (deliver id s) ms (box s.recipient)
        × T.Holds t' (update box s.recipient ms)
        × ((j : ℕ) → All (IsMail j) (update box s.recipient ms j))
  sends-IsMail id s t t' box h mail a b v new e =
      let (t1, ms, e1, pick, h1) = T.send_lem id s t box h a b v in
      let same : t1 ≡ t' = ground (arith, e, e1) in
      (
        ms,
        pick,
        rw same at h1,
        update-IsMail box s.recipient ms mail
            (Picks-All (IsMail s.recipient) pick new (mail s.recipient)),
      )

  pub receives-IsMail :
      (id : ℕ) (t t' : T.State) (m : Message) (box : ℕ → List Message)
      → T.Holds t box
      → ((j : ℕ) → All (IsMail j) (box j))
      → IsAddress id
      → T.recv id t ≡ some (m, t')
      → (ms : List Message) × Picks m (box id) ms
        × T.Holds t' (update box id ms)
        × ((j : ℕ) → All (IsMail j) (update box id ms j))
        × IsMail id m
  receives-IsMail id t t' m box h mail a e =
      let filled : box id ≢ [] =
        λ none_left. ground (arith, e, T.recv_waits id t box h a none_left) in
      let (m1, t1, ms, e1, pick, h1) = T.recv_lem id t box h a filled in
      let same : t1 ≡ t' = ground (arith, e, e1) in
      let this : m1 ≡ m = ground (arith, e, e1) in
      let (new, rest) = All-Picks (IsMail id) pick (mail id) in
      (ms, rw this at pick, rw same at h1, update-IsMail box id ms mail rest, rw this at new)
