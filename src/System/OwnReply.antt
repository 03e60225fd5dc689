-- ===== src/System/OwnReply.antt =====
-- What a client gets in any interleaving of the calls of all processes.
use so.Base.{List, Option, ap, arith, none, refl, some, sym, ℕ, ℕ_discrete, ◌∙◌, ◌≡◌, ◌≢◌}
use so.Actions.{Message, Send}
use so.Database.{Database}
use so.Database.Valid.{IsValid}
use so.Ipc.Clients.{update, update-ne, update_self}
use so.Ipc.Messages.{IsAddress, deliver}
use so.Ipc.Transport.{Picks, Transport}
use so.Server.{answer}
use so.Server.Rounds.{answer-Round}
use so.Server.Sizes.{Round-Answers}
use so.System.Interleaved.{
  AllAnswered, IsReply, Programs, Reach, Rest, Step, World, asleep, awaiting, awake,
  client_receives, client_sends, drowsy, free, got, here, looks, next, pauses, replying,
  server_receives, server_sends, signalled,
}
use so.System.Mail.{IsAsked, IsHeld, IsMail, IsSafe, receives-IsMail, sends-IsMail, update-IsServed}
use so.System.Pending.{
  Pending, in_server_at, more-Pending, other-Pending, released-Pending, sent-Pending, taken-Pending,
}
use so.System.Serving.{Carries, Round-Carries, post, reply}
use so.System.Session.{IsQuiet}

module _ (T : Transport) (junk : ℕ → ℕ) (p : Programs T) where
  request-IsMail :
      (j : ℕ)
      → IsAddress j
      → j ≢ p.server_id
      → IsMail T junk p (p.request j).recipient (deliver j (p.request j))
  unfolding deliver
  request-IsMail j a ne = record {
    asked = λ e. (a, ne, refl);
    replied = λ other. absurd (other (p.to_server j));
  }

  -- The response that the server holds after a round.
  IsHeld-response :
      (m : Message) (db : Database) (r : Option Send) (left : Database)
      → IsAsked T junk p m
      → Carries T.capacity db
      → answer junk db m ≡ some (r, left)
      → IsHeld T junk p (replying r)
  unfolding deliver
  IsHeld-response m db none left asked c e = tt
  IsHeld-response m db (some s) left (a, ne, is) c e =
      let (to, v) = Round-Answers T.capacity (answer-Round junk db m e) c.valid c.list c.found in
      let reply : IsReply T junk p m.sender (deliver p.server_id s) = record {
        database = db;
        valid = c.valid;
        response = s;
        left = left;
        answered = rw (← is) e;
        sent_back = refl;
      } in
      (rw to a, rw to ne, v, rw to reply)

  asked-Pending :
      (w : World T) (h : IsSafe T junk p w) (j k : ℕ) {ms : List Message}
      → AllAnswered T junk p
      → k ≢ p.server_id
      → update w.client j awaiting k ≡ awaiting
      → Picks (deliver j (p.request j)) ms (h.box (p.request j).recipient)
      → Pending p.server_id (update h.box (p.request j).recipient ms) w.server k
  unfolding deliver
  asked-Pending w h j k {ms} all far is pick = elim (ℕ_discrete j k) [
    | yes same ↦
        in_server_at p.server_id
          (rw (← p.to_server j) (update_self h.box (p.request j).recipient ms)) pick same
    | no n ↦
        more-Pending p.server_id h.box w.server (p.request j).recipient k pick
          (h.pending all k far (rw (update-ne w.client j awaiting k n) at is))
  ]

  others-Pending :
      (w : World T) (h : IsSafe T junk p w) (j k : ℕ) (m : Message) (ms : List Message)
      → AllAnswered T junk p
      → k ≢ p.server_id
      → j ≢ p.server_id
      → update w.client j (got m) k ≡ awaiting
      → Pending p.server_id (update h.box j ms) w.server k
  others-Pending w h j k m ms all far ne is = elim (ℕ_discrete j k) [
    | yes same ↦ absurd (cc (rw (← same, update_self w.client j (got m)) at is))
    | no n ↦
        other-Pending p.server_id h.box w.server j k ms ne n
          (h.pending all k far (rw (update-ne w.client j (got m) k n) at is))
  ]

  round-Pending :
      (w : World T) (h : IsSafe T junk p w) (k : ℕ) {m : Message} {ms : List Message}
      {r : Option Send × Database}
      → AllAnswered T junk p
      → k ≢ p.server_id
      → w.client k ≡ awaiting
      → w.server ≡ free
      → IsAsked T junk p m
      → Picks m (h.box p.server_id) ms
      → answer junk w.database m ≡ some r
      → Pending p.server_id (update h.box p.server_id ms) (replying r.0) k
  round-Pending w h k {m} {ms} {r} all far is at asked pick done =
      let (s, left, answered) = all m.sender w.database h.carries.valid in
      let this : answer junk w.database m ≡ some (some s, left) =
        ap (answer junk w.database) asked.2 ∙ answered in
      let holds_response : r.0 ≡ some s = ground (arith, this, done) in
      let to : s.recipient ≡ m.sender =
        (Round-Answers T.capacity (answer-Round junk w.database m this) h.carries.valid
          h.carries.list h.carries.found).0 in
      rw holds_response (
        taken-Pending p.server_id h.box k pick to (λ e. far (sym e))
          (rw at at (h.pending all k far is)))

  none-Pending :
      (w : World T) (h : IsSafe T junk p w) (k : ℕ)
      → AllAnswered T junk p
      → k ≢ p.server_id
      → w.client k ≡ awaiting
      → w.server ≡ replying none
      → Pending p.server_id h.box free k
  none-Pending w h k all far is at =
      released-Pending p.server_id h.box k (rw at at (h.pending all k far is))

  post-IsSafe :
      (w : World T) (r : Option Send) (t : T.State)
      → w.server ≡ replying r
      → IsHeld T junk p (replying r)
      → post T p.server_id r w.transport ≡ some t
      → IsSafe T junk p w
      → IsSafe T junk p (record w { transport = t; server = free })
  unfolding post
  post-IsSafe w none t at held done h =
      let same : w.transport ≡ t = ground (arith, done) in
      record {
        box = h.box;
        holds = rw same at h.holds;
        carries = h.carries;
        mail = h.mail;
        held = tt;
        served = h.served;
        pending = λ all k far is. none-Pending w h k all far is at;
      }
  post-IsSafe w (some s) t at (b, ne, v, reply) done h =
      let (ms, pick, holds, mail) =
        sends-IsMail T junk p p.server_id s w.transport t h.box h.holds h.mail p.address b v
          (record { asked = λ e. absurd (ne e); replied = λ other. reply }) done in
      record {
        box = update h.box s.recipient ms;
        holds = holds;
        carries = h.carries;
        mail = mail;
        held = tt;
        served = h.served;
        pending = λ all k far is.
            sent-Pending p.server_id h.box k s pick (rw at at (h.pending all k far is));
      }

  -- Where the processes sleep does not matter.
  rested :
      (w : World T) (rest : ℕ → Rest)
      → IsSafe T junk p w
      → IsSafe T junk p (record w { rest = rest })
  rested w rest h = record {
    box = h.box;
    holds = h.holds;
    carries = h.carries;
    mail = h.mail;
    held = h.held;
    served = h.served;
    pending = h.pending;
  }

  Step-IsSafe : {w u : World T} → Step T junk p w u → IsSafe T junk p w → IsSafe T junk p u
  Step-IsSafe {w} (client_sends j {t} a ne at e) h =
      let (ms, pick, holds, mail) =
        sends-IsMail T junk p j (p.request j) w.transport t h.box h.holds h.mail a
          (rw (p.to_server j) p.address) (p.fits j) (request-IsMail j a ne) e in
      record {
        box = update h.box (p.request j).recipient ms;
        holds = holds;
        carries = h.carries;
        mail = mail;
        held = h.held;
        served = update-IsServed T junk p w.client j awaiting h.served tt;
        pending = λ all k far is. asked-Pending w h j k all far is pick;
      }
  Step-IsSafe {w} (client_receives j {m} {t} a ne at up e) h =
      let (ms, pick, holds, mail, new) =
        receives-IsMail T junk p j w.transport t m h.box h.holds h.mail a e in
      record {
        box = update h.box j ms;
        holds = holds;
        carries = h.carries;
        mail = mail;
        held = h.held;
        served = update-IsServed T junk p w.client j (got m) h.served (new.replied ne);
        pending = λ all k far is. others-Pending w h j k m ms all far ne is;
      }
  Step-IsSafe {w} (server_receives {m} {t} {r} at up e done) h =
      let (ms, pick, holds, mail, new) =
        receives-IsMail T junk p p.server_id w.transport t m h.box h.holds h.mail p.address e in
      record {
        box = update h.box p.server_id ms;
        holds = holds;
        carries = Round-Carries T.capacity (answer-Round junk w.database m done) h.carries;
        mail = mail;
        held = IsHeld-response m w.database r.0 r.1 (new.asked refl) h.carries done;
        served = h.served;
        pending = λ all k far is. round-Pending w h k all far is at (new.asked refl) pick done;
      }
  Step-IsSafe {w} (server_sends {r} {t} at e) h = post-IsSafe w r t at (rw at at h.held) e h
  Step-IsSafe {w} (looks id s i up e) h = rested w (update w.rest id drowsy) h
  Step-IsSafe {w} (pauses id at) h = rested w (update w.rest id asleep) h
  Step-IsSafe {w} (signalled id at) h = rested w (update w.rest id awake) h

  pub Reach-IsSafe :
      {t : T.State} {db : Database} {w : World T}
      → IsQuiet T t
      → Carries T.capacity db
      → Reach T junk p t db w
      → IsSafe T junk p w
  Reach-IsSafe q c here = record {
    box = q.box;
    holds = q.holds;
    carries = c;
    mail = λ j. rw (q.quiet j) tt;
    held = tt;
    served = λ j. tt;
    pending = λ all j far is. cc;
  }
  Reach-IsSafe q c (next r st) = Step-IsSafe st (Reach-IsSafe q c r)

-- For every transport, any number of clients and every order of the calls of `ipc_send` and `ipc_recv`, from no
-- message and a valid database whose responses the transport carries: a client that has returned from
-- `ipc_recv` got the response of a round of the server, over a valid database, for the request that this
-- client sent, and the server's database is valid.
pub got_own_response :
    (T : Transport) (junk : ℕ → ℕ) (p : Programs T) (t : T.State) (db : Database) (w : World T)
    (j : ℕ) {m : Message}
    → IsQuiet T t
    → Carries T.capacity db
    → Reach T junk p t db w
    → w.client j ≡ got m
    → IsReply T junk p j m × IsValid w.database
got_own_response T junk p t db w j {m} q c r e =
    let s : IsSafe T junk p w = Reach-IsSafe T junk p q c r in
    (rw e at (s.served j), s.carries.valid)
