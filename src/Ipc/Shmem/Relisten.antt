-- ===== src/Ipc/Shmem/Relisten.antt =====
-- A server of src/ipc/shmem.c that closes, and one that listens at the same address after it.
use so.Base.{
  List, Option, ap, arith, inl, inr, none, refl, some, some-injective, sym, true, ℕ, ◌∙◌, ◌≡◌, All,
  Option-cases, eq→==, ◌==◌,
}
use so.Actions.{Message}
use so.Ipc.Clients.{update_self}
use so.Ipc.Shmem.Events.{Event, IsClient, clients-Kept, events, events-Kept, nothing}
use so.Ipc.Shmem.Protocol.{semcreate}
use so.Ipc.Shmem.Segments.{
  Handle, Objects, attached, get_segment, get_set, ipc_close, ipc_listen, ipc_open, segment_of,
  semcreate_at, semdestroy, set_of, shalloc, shfree, zero_counts, zero_message,
}
use so.Ipc.Shmem.Sets.{
  AreKnown, AreKnown-IsKept, IsGone, IsGone-IsKept, IsSetOf, IsSetOf-IsKept, get_set_self,
  nothing-AreKnown, semdestroy-AreKnown, semdestroy-IsGone,
}

module _ (ftok : List ℕ → Option (ℕ → ℕ)) where
  -- What a call of `ipc_listen` that returns has done.
  record Listened (address : List ℕ) (o : Objects) (srv : Handle) (o' : Objects) : Type 0 where
    key : ℕ → ℕ
    is_key : ftok address ≡ some key
    is_server : srv.id ≡ srv.server_id
    memory : srv.memory ≡ key 1
    semaphores : srv.semaphores ≡ (get_set (key 2) (get_segment (key 1) o)).0
    objects : o' ≡ (get_set (key 2) (get_segment (key 1) o)).1

  listened :
      (pid : ℕ) (address : List ℕ) (o : Objects) {srv : Handle} {o' : Objects}
      → ipc_listen ftok pid address o ≡ some (srv, o')
      → Listened address o srv o'
  unfolding ipc_listen ipc_open shalloc semcreate_at
  listened pid address o {srv} {o'} h = elim (Option-cases (ftok address)) [
    | inl e ↦ absurd (ground (arith, rw e at h))
    | inr (key, e) ↦
        let returned = sym (some-injective _ _ (rw e at h)) in
        record {
          key = key;
          is_key = e;
          is_server = ap (λ r. r.0.id) returned ∙ sym (ap (λ r. r.0.server_id) returned);
          memory = ap (λ r. r.0.memory) returned;
          semaphores = ap (λ r. r.0.semaphores) returned;
          objects = ap (λ r. r.1) returned;
        }
  ]

segment_of-some :
    (key : ℕ) (o : Objects) (r : Option Message)
    → o.segment key ≡ r
    → (m : Message) × ((segment_of key o r).segment key ≡ some m)
      × ((segment_of key o r).set ≡ o.set)
segment_of-some key o none e = (zero_message, update_self o.segment key (some zero_message), refl)
segment_of-some key o (some m) e = (m, e, refl)

new_set :
    (key : ℕ) (o : Objects) (r : Option ℕ)
    → r ≡ none
    → ((set_of key o r).1.counts (set_of key o r).0 ≡ some zero_counts)
      × ((set_of key o r).1.segment ≡ o.segment)
new_set key o none e = (update_self o.counts o.fresh (some zero_counts), refl)
new_set key o (some v) e = ground arith

-- A server that finds no semaphores at its address shares new ones.
Listened-new :
    (ftok : List ℕ → Option (ℕ → ℕ)) {address : List ℕ} {o o' : Objects} {srv : Handle}
    (l : Listened ftok address o srv o')
    → o.set (l.key 2) ≡ none
    → (m : Message) × (attached srv o' ≡ some (semcreate m))
unfolding attached semcreate get_set get_segment
Listened-new ftok {o} {o'} {srv} l absent =
    let (m, held, sets) = segment_of-some (l.key 1) o (o.segment (l.key 1)) refl in
    let there = get_segment (l.key 1) o in
    let (counts, kept) =
      new_set (l.key 2) there (there.set (l.key 2)) (ap (λ f. f (l.key 2)) sets ∙ absent) in
    let read : o'.counts srv.semaphores ≡ some zero_counts = rw (l.objects, l.semaphores) counts in
    let memory : o'.segment srv.memory ≡ some m =
      rw (l.objects, l.memory) (ap (λ f. f (l.key 1)) kept ∙ held) in
    (m, rw (read, memory) refl)

attached-IsGone :
    (ipc : Handle) (s : ℕ) (o : Objects) → ipc.semaphores ≡ s → IsGone s o → attached ipc o ≡ none
unfolding attached
attached-IsGone ipc s o same h = rw (same, h.0) refl

close-IsGone :
    (srv : Handle) (key : ℕ) (o : Objects)
    → srv.id ≡ srv.server_id
    → AreKnown o
    → IsSetOf key srv.semaphores o
    → IsGone srv.semaphores (ipc_close srv o) × ((ipc_close srv o).set key ≡ none)
unfolding ipc_close shfree semdestroy
close-IsGone srv key o server known at =
    let same : (srv.semaphores == srv.semaphores) ≡ true = ground arith in
    rw (eq→== srv.id srv.server_id server)
      ((update_self o.counts srv.semaphores none, known key srv.semaphores at), rw (at, same) refl)

-- A server listened after any calls of any processes, others connected and used what they share, and it
-- closed. Whatever calls follow, a process that has the server's semaphores shares nothing any more; and a
-- server that listens at the same address right after that shares new semaphores, all 0, and a message.
pub relisten :
    (ftok : List ℕ → Option (ℕ → ℕ)) (pid pid' : ℕ) (address : List ℕ)
    (before during after : List Event) {srv srv' : Handle} {o o' : Objects} (ipc : Handle)
    → ipc_listen ftok pid address (events ftok before nothing) ≡ some (srv, o)
    → All IsClient during
    → ipc.semaphores ≡ srv.semaphores
    → ipc_listen ftok pid' address (ipc_close srv (events ftok during o)) ≡ some (srv', o')
    → (attached ipc (events ftok after (ipc_close srv (events ftok during o))) ≡ none)
      × (m : Message) × (attached srv' o' ≡ some (semcreate m))
relisten ftok pid pid' address before during after {srv} {srv'} {o} {o'} ipc opened clients same
      again =
    let began = events ftok before nothing in
    let l = listened ftok pid address began opened in
    let l' = listened ftok pid' address (ipc_close srv (events ftok during o)) again in
    let known : AreKnown began =
      events-Kept ftok AreKnown AreKnown-IsKept semdestroy-AreKnown before nothing
        nothing-AreKnown in
    let known_o : AreKnown o =
      rw l.objects
        (AreKnown-IsKept.by_set (l.key 2) _ (AreKnown-IsKept.by_segment (l.key 1) began known)) in
    let at : IsSetOf (l.key 2) srv.semaphores o =
      rw (l.objects, l.semaphores) (get_set_self (l.key 2) (get_segment (l.key 1) began)) in
    let known_closing = clients-Kept ftok AreKnown AreKnown-IsKept during o clients known_o in
    let at_closing =
      clients-Kept ftok (IsSetOf (l.key 2) srv.semaphores) (IsSetOf-IsKept (l.key 2) srv.semaphores)
        during o clients at in
    let (gone, absent) =
      close-IsGone srv (l.key 2) (events ftok during o) l.is_server known_closing at_closing in
    let key : l.key ≡ l'.key = some-injective _ _ (sym l.is_key ∙ l'.is_key) in
    (
      attached-IsGone ipc srv.semaphores _ same (
          events-Kept ftok (IsGone srv.semaphores) (IsGone-IsKept srv.semaphores)
            (λ v. semdestroy-IsGone v srv.semaphores) after _ gone),
      (Listened-new ftok l' (rw (← key) absent)).0,
      (Listened-new ftok l' (rw (← key) absent)).1,
    )
