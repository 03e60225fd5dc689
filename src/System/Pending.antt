-- ===== src/System/Pending.antt =====
-- Where the response for a client that waits is.
use so.Base.{List, [], ap, arith, inl, inr, none, refl, some, sym, ℕ, ℕ_discrete, ◌∙◌, ◌≡◌, ◌≢◌}
use so.Actions.{Message, Send}
use so.Ipc.Clients.{update, update-ne, update_self}
use so.Ipc.Transport.{Picks, Picks-either, Picks-filled, Picks-more}
use so.System.Interleaved.{ServerPc, free, replying}

module _ (id : ℕ) where
  -- The request of the client `j` is in the mailbox of the server `id`, the server holds the response, or the
  -- client has a message.
  pub data Pending (box : ℕ → List Message) (server : ServerPc) (j : ℕ) : Type 0 where
    in_server :
        {m : Message} {rest : List Message}
        → Picks m (box id) rest
        → m.sender ≡ j
        → Pending box server j
    in_hand : {s : Send} → server ≡ replying (some s) → s.recipient ≡ j → Pending box server j
    in_box : box j ≢ [] → Pending box server j

  pub in_server_at :
      {box : ℕ → List Message} {server : ServerPc} {j : ℕ} {m : Message} {xs rest : List Message}
      → box id ≡ xs
      → Picks m xs rest
      → m.sender ≡ j
      → Pending box server j
  in_server_at {m} {rest} e q from = in_server {m = m} {rest = rest} (rw e q) from

  filled-update :
      (box : ℕ → List Message) (i : ℕ) (ms : List Message) (k : ℕ)
      → ms ≢ []
      → box k ≢ []
      → update box i ms k ≢ []
  filled-update box i ms k new old = elim (ℕ_discrete i k) [
    | yes e ↦ rw (← e, update_self box i ms) new
    | no n ↦ rw (update-ne box i ms k n) old
  ]

  -- A message more in some mailbox.
  pub more-Pending :
      (box : ℕ → List Message) (server : ServerPc) (i k : ℕ) {new : Message} {ms : List Message}
      → Picks new ms (box i)
      → Pending box server k
      → Pending (update box i ms) server k
  more-Pending box server i k {new} {ms} p (in_server {m} {rest} q e) = elim (ℕ_discrete i id) [
    | yes at ↦
        let there : Picks m (box i) rest = rw at q in
        let (rest', more) = Picks-more p there in
        in_server_at (rw (← at) (update_self box i ms)) more e
    | no n ↦ in_server_at (update-ne box i ms id n) q e
  ]
  more-Pending box server i k p (in_hand e r) = in_hand e r
  more-Pending box server i k {new} {ms} p (in_box filled) =
      in_box (filled-update box i ms k (Picks-filled p) filled)

  -- Another client takes a message from its mailbox.
  pub other-Pending :
      (box : ℕ → List Message) (server : ServerPc) (i k : ℕ) (ms : List Message)
      → i ≢ id
      → i ≢ k
      → Pending box server k
      → Pending (update box i ms) server k
  other-Pending box server i k ms far other (in_server q e) =
      in_server_at (update-ne box i ms id far) q e
  other-Pending box server i k ms far other (in_hand e r) = in_hand e r
  other-Pending box server i k ms far other (in_box filled) =
      in_box (rw (update-ne box i ms k other) filled)

  -- The server takes a message, and has the response to its sender.
  pub taken-Pending :
      (box : ℕ → List Message) (k : ℕ) {m : Message} {ms : List Message} {s : Send}
      → Picks m (box id) ms
      → s.recipient ≡ m.sender
      → id ≢ k
      → Pending box free k
      → Pending (update box id ms) (replying (some s)) k
  taken-Pending box k {m} {ms} p to far (in_server {m = x} q e) = elim (Picks-either p q) [
    | inl same ↦ in_hand refl (to ∙ ap (λ (y : Message). y.sender) (sym same) ∙ e)
    | inr (r, stays) ↦ in_server_at (update_self box id ms) stays e
  ]
  taken-Pending box k p to far (in_hand e r) = cc
  taken-Pending box k {m} {ms} p to far (in_box filled) =
      in_box (rw (update-ne box id ms k far) filled)

  -- The server has nothing to send.
  pub released-Pending :
      (box : ℕ → List Message) (k : ℕ) → Pending box (replying none) k → Pending box free k
  released-Pending box k (in_server q e) = in_server q e
  released-Pending box k (in_hand e r) = cc
  released-Pending box k (in_box filled) = in_box filled

  -- The server sends the response.
  pub sent-Pending :
      (box : ℕ → List Message) (k : ℕ) (s : Send) {new : Message} {ms : List Message}
      → Picks new ms (box s.recipient)
      → Pending box (replying (some s)) k
      → Pending (update box s.recipient ms) free k
  sent-Pending box k s {new} {ms} p (in_server q e) =
      released-Pending (update box s.recipient ms) k
        (more-Pending box (replying none) s.recipient k p (in_server q e))
  sent-Pending box k s {new} {ms} p (in_hand {s = x} e r) =
      let place : s.recipient ≡ k = ground (arith, e, r) in
      in_box (rw (← place, update_self box s.recipient ms) (Picks-filled p))
  sent-Pending box k s {new} {ms} p (in_box filled) =
      in_box (filled-update box s.recipient ms k (Picks-filled p) filled)
