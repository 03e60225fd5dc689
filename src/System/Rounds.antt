-- ===== src/System/Rounds.antt =====
-- What the rounds of the server's loop do to all mailboxes.
use mathlib.Core.List.{Perm, perm_middle}
use mathlib.Core.List.Perm
use so.Base.{
  List, Option, [], ap, append-nil, arith, inl, inr, none, refl, some, suc, zero, ℕ, ℕ_discrete,
  ◌++◌, ◌∙◌, ◌∷◌, ◌≡◌, ◌≢◌, All, length, Bool-cases, ◌==◌,
}
use so.Actions.{Message, Send}
use so.Database.{Database}
use so.Ipc.Clients.{update, update-ne, update_self}
use so.Ipc.Messages.{IsAddress, deliver}
use so.Ipc.Transport.{All-Picks, Picks, Picks-Perm, Transport, length-Picks}
use so.Server.{answer, serve}
use so.Server.Rounds.{Round, answer-Round}
use so.Server.Sizes.{Answers, Round-Answers}
use so.Server.Total.{answer-total}
use so.System.Serving.{
  Carries, IsRequest, Posted, Round-Carries, Served, post, replies, reply, round, rounds,
}

-- What a call of `ipc_send` adds to each mailbox.
posted :
    (id : ℕ) (s : Send) (box : ℕ → List Message) (ms : List Message) (j : ℕ)
    → Picks (deliver id s) ms (box s.recipient)
    → Perm (update box s.recipient ms j) (reply id j (some s) ++ box j)
posted id s box ms j p = elim (ℕ_discrete s.recipient j) [
  | yes same ↦
      let hit : reply id j (some s) ≡ deliver id s ∷ [] = ground arith in
      rw (hit, ← same, update_self box s.recipient ms) (Picks-Perm p)
  | no differs ↦
      let miss : reply id j (some s) ≡ [] = ground arith in
      rw (miss, update-ne box s.recipient ms j differs) (Perm.refl (box j))
]

module _ (T : Transport) (id : ℕ) where
  pub post-Posted :
      (sender : ℕ) (r : Option Send) (t : T.State) (box : ℕ → List Message)
      → T.Holds t box
      → IsAddress id
      → Answers T.capacity sender r
      → IsAddress sender
      → sender ≢ id
      → Posted T id r t box
  post-Posted sender none t box h a s b ne = record {
    after = t;
    boxes = box;
    done = unfold post in refl;
    holds = h;
    own = refl;
    others = λ j n. Perm.refl (box j);
  }
  post-Posted sender (some s) t box h a (to, v) b ne =
      let (t', ms, e, p, h') = T.send_lem id s t box h a (rw to b) v in
      record {
        after = t';
        boxes = update box s.recipient ms;
        done = unfold post in e;
        holds = h';
        own = update-ne box s.recipient ms id (rw to ne);
        others = λ j n. posted id s box ms j p;
      }

  -- The replies of one round and those of the later ones.
  replies-cons :
      (j : ℕ) (r : Option Send) (rs : List (Option Send)) (xs ys zs : List Message)
      → Perm ys (reply id j r ++ xs)
      → Perm zs (ys ++ replies id j rs)
      → Perm zs (xs ++ replies id j (r ∷ rs))
  replies-cons j none rs xs ys zs one more =
      Perm.trans more (Perm.append_right (replies id j rs) one)
  replies-cons j (some s) rs xs ys zs one more = elim (Bool-cases (s.recipient == j)) [
    | inl y ↦ rw y (
        Perm.trans more (
          Perm.trans (Perm.append_right (replies id j rs) (rw y at one))
            (Perm.symm (perm_middle xs (replies id j rs)))))
    | inr n ↦ rw n (Perm.trans more (Perm.append_right (replies id j rs) (rw n at one)))
  ]

  empty-length : (ms : List Message) → length ms ≡ 0 → ms ≡ []
  empty-length [] e = refl
  empty-length (m ∷ ms) e = ground arith

  module _ (junk : ℕ → ℕ) (a : IsAddress id) where
    none_left :
        (t : T.State) (db : Database) (box : ℕ → List Message)
        → T.Holds t box
        → box id ≡ []
        → Carries T.capacity db
        → Served T id junk t db box
    none_left t db box h e c = record {
      order = [];
      responses = [];
      last = db;
      after = t;
      boxes = box;
      reordered = rw e (Perm.refl []);
      served = unfold serve in refl;
      done = rw e (unfold rounds in refl);
      holds = h;
      own = e;
      others = λ j n. rw (append-nil (box j)) (Perm.refl (box j));
      carries = c;
    }

    -- After one round, in which the server took this message.
    record Stepped (t : T.State) (db : Database) (box : ℕ → List Message) : Type 0 where
      message : Message
      left : List Message
      response : Option Send
      later : Database
      after : T.State
      boxes : ℕ → List Message
      picked : Picks message (box id) left
      answered : answer junk db message ≡ some (response, later)
      done : round T junk id t db ≡ some (response, later, after)
      holds : T.Holds after boxes
      own : boxes id ≡ left
      others : (j : ℕ) → id ≢ j → Perm (boxes j) (reply id j response ++ box j)
      carries : Carries T.capacity later

    steps :
        (t : T.State) (db : Database) (box : ℕ → List Message)
        → box id ≢ []
        → T.Holds t box
        → Carries T.capacity db
        → All (IsRequest id) (box id)
        → Stepped t db box
    steps t db box filled h c all =
        let (m, t1, ms, e1, p, h1) = T.recv_lem id t box h a filled in
        let (one, left) = All-Picks (IsRequest id) p all in
        let (r, e2, v) = answer-total junk db c.valid m one.complete in
        let step : Round junk db m.sender r = answer-Round junk db m e2 in
        let q : Posted T id r.0 t1 (update box id ms) =
          post-Posted m.sender r.0 t1 (update box id ms) h1 a
            (Round-Answers T.capacity step c.valid c.list c.found) one.address one.other in
        record {
          message = m;
          left = ms;
          response = r.0;
          later = r.1;
          after = q.after;
          boxes = q.boxes;
          picked = p;
          answered = e2;
          done = unfold round in rw (e1, e2, q.done) refl;
          holds = q.holds;
          own = q.own ∙ update_self box id ms;
          others = λ j n. rw (update-ne box id ms j n) at (q.others j n);
          carries = Round-Carries T.capacity step c;
        }

    joins :
        (n : ℕ) (t : T.State) (db : Database) (box : ℕ → List Message) (s : Stepped t db box)
        → length (box id) ≡ suc n
        → Served T id junk s.after s.later s.boxes
        → Served T id junk t db box
    joins n t db box s size rest =
        let count : length (s.boxes id) ≡ n =
          omega (arith, ap length s.own, length-Picks s.picked) in
        record {
          order = s.message ∷ rest.order;
          responses = s.response ∷ rest.responses;
          last = rest.last;
          after = rest.after;
          boxes = rest.boxes;
          reordered =
              Perm.trans (Perm.cons s.message (rw s.own at rest.reordered))
                (Perm.symm (Picks-Perm s.picked));
          served = unfold serve in rw (s.answered, rest.served) refl;
          done = rw size (unfold rounds in rw (s.done, rw count at rest.done) refl);
          holds = rest.holds;
          own = rest.own;
          others = λ j ne.
              replies-cons j s.response rest.responses (box j) (s.boxes j) (rest.boxes j)
                (s.others j ne) (rest.others j ne);
          carries = rest.carries;
        }

    serves :
        (n : ℕ) (t : T.State) (db : Database) (box : ℕ → List Message)
        → length (box id) ≡ n
        → T.Holds t box
        → Carries T.capacity db
        → All (IsRequest id) (box id)
        → Served T id junk t db box
    serves zero t db box size h c all = none_left t db box h (empty-length (box id) size) c
    serves (suc n) t db box size h c all =
        let s : Stepped t db box =
          steps t db box (λ e. absurd (ground (arith, rw e at size))) h c all in
        joins n t db box s size (
          serves n s.after s.later s.boxes (omega (arith, ap length s.own, length-Picks s.picked))
            s.holds s.carries (rw s.own (All-Picks (IsRequest id) s.picked all).1))

-- For a server and a transport whose state holds a mailbox for each process: if the server's database is
-- valid, the transport carries the list of its movies and a movie, and the server's mailbox holds complete
-- messages of other processes, then as many rounds of the server's loop as there are messages are done
-- without waiting. They give the responses and the database of the loop over these messages in some order.
-- Then the server's mailbox is empty, and each other process has exactly the responses to it besides the
-- messages that it had.
pub rounds-serve :
    (T : Transport) (junk : ℕ → ℕ) (id : ℕ) (t : T.State) (db : Database) (box : ℕ → List Message)
    → IsAddress id
    → T.Holds t box
    → Carries T.capacity db
    → All (IsRequest id) (box id)
    → Served T id junk t db box
rounds-serve T junk id t db box a h c all =
    serves T id junk a (length (box id)) t db box refl h c all
