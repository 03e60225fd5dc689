-- ===== src/System/Runs.antt =====
-- A client that is alone with the server gets its response.
use so.Base.{refl, some, ℕ, ◌≡◌, ◌≢◌}
use so.Actions.{Send}
use so.Database.{Database}
use so.Ipc.Clients.{update, update_self}
use so.Ipc.Messages.{IsAddress, deliver}
use so.Ipc.Transport.{Transport}
use so.Server.{answer}
use so.Server.Rounds.{Round, answer-Round}
use so.Server.Sizes.{Round-Answers}
use so.System.Interleaved.{
  Programs, Reach, World, awaiting, client_receives, client_sends, connected, got, here, next,
  server_receives, server_sends,
}
use so.System.Serving.{Carries, post}
use so.System.Session.{IsQuiet, Passed, passes}

module _ (T : Transport) (junk : ℕ → ℕ) (p : Programs T) (t : T.State) (db : Database) (j : ℕ) where
  -- A run in which the client `j` got the response `s`.
  pub record Answered (s : Send) (left : Database) : Type 0 where
    pub world : World T
    pub reached : Reach T junk p t db world
    pub has : world.client j ≡ got (deliver p.server_id s)
    pub database : world.database ≡ left

  pub run-Answered :
      {s : Send} {left : Database}
      → IsQuiet T t
      → Carries T.capacity db
      → IsAddress j
      → j ≢ p.server_id
      → answer junk db (deliver j (p.request j)) ≡ some (some s, left)
      → Answered s left
  unfolding post
  run-Answered {s} {left} q c a ne e =
      let asks : Passed T j p.server_id (p.request j) t =
        passes T j p.server_id (p.request j) t q a p.address (p.to_server j) (p.fits j) in
      let round : Round junk db j (some s, left) =
        unfold deliver in answer-Round junk db (deliver j (p.request j)) e in
      let (to, v) = Round-Answers T.capacity round c.valid c.list c.found in
      let back : Passed T p.server_id j s asks.after =
        passes T p.server_id j s asks.after asks.quiet p.address a to v in
      let r1 = next here (client_sends j a ne refl asks.sends) in
      let r2 = next r1 (server_receives refl refl asks.receives e) in
      let r3 = next r2 (server_sends refl back.sends) in
      let waits_now : update (λ k. connected) j awaiting j ≡ awaiting =
        update_self (λ k. connected) j awaiting in
      let r4 = next r3 (client_receives j a ne waits_now refl back.receives) in
      record {
        world = _;
        reached = r4;
        has = update_self (update (λ k. connected) j awaiting) j (got (deliver p.server_id s));
        database = refl;
      }
