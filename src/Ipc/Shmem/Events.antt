-- ===== src/Ipc/Shmem/Events.antt =====
-- What processes do with the objects of src/ipc/shmem.c, in any order.
use so.Base.{
  List, Option, [], inl, inr, none, some, ℕ, ℕ_discrete, ◌∷◌, All, Option-cases, eq→==, ne→==,
}
use so.Ipc.Clients.{update}
use so.Ipc.Shmem.Protocol.{Shared}
use so.Ipc.Shmem.Segments.{
  Counts, Handle, Objects, get_segment, get_set, ipc_close, ipc_connect, ipc_listen, ipc_open,
  semcreate_at, semdestroy, shalloc, shfree,
}

-- The objects after a process has changed what its handle shares, by `emit`, `await` or a copy.
abbrev pub stored : Handle → Shared → Objects → Option Counts → Objects
stored ipc s o none = o
stored ipc s o (some v) = record o {
  segment = update o.segment ipc.memory (some s.memory);
  counts = update o.counts ipc.semaphores (
      some (record {
        client_can_write = s.client_can_write;
        server_can_read = s.server_can_read;
        client_can_read = s.client_can_read;
      }));
}

unfoldable pub store : Handle → Shared → Objects → Objects
store ipc s o = stored ipc s o (o.counts ipc.semaphores)

-- What a process does with the objects.
pub data Event : Type 0 where
  listens : ℕ → List ℕ → Event
  connects : ℕ → List ℕ → Event
  uses : Handle → Shared → Event
  closes : Handle → Event

abbrev pub IsClient : Event → Type 0
IsClient (connects pid address) = Unit
IsClient (uses ipc s) = Unit
IsClient _ = ⊥

-- The objects that a call leaves; a call that ends its process leaves those that were there.
unfoldable pub left : Objects → Option (Handle × Objects) → Objects
left o none = o
left o (some r) = r.1

-- No object exists.
abbrev pub nothing : Objects
nothing = record { segment = λ key. none; set = λ key. none; counts = λ semarray. none; fresh = 0 }

-- A predicate on the objects that the calls of `ipc_open` and the uses of a handle keep.
pub record IsKept (P : Objects → Type 0) : Type 0 where
  pub by_set : (key : ℕ) (o : Objects) → P o → P (get_set key o).1
  pub by_segment : (key : ℕ) (o : Objects) → P o → P (get_segment key o)
  pub by_store : (ipc : Handle) (s : Shared) (o : Objects) → P o → P (store ipc s o)

module _ (ftok : List ℕ → Option (ℕ → ℕ)) where
  unfoldable pub event : Event → Objects → Objects
  event (listens pid address) o = left o (ipc_listen ftok pid address o)
  event (connects pid address) o = left o (ipc_connect ftok pid address o)
  event (uses ipc s) o = store ipc s o
  event (closes ipc) o = ipc_close ipc o

  unfoldable pub events : List Event → Objects → Objects
  events [] o = o
  events (e ∷ es) o = events es (event e o)

  module _ (P : Objects → Type 0) (kept : IsKept P) where
    pub listen-Kept :
        (pid : ℕ) (address : List ℕ) (o : Objects)
        → P o
        → P (left o (ipc_listen ftok pid address o))
    unfolding ipc_listen ipc_open shalloc semcreate_at left
    listen-Kept pid address o h = elim (Option-cases (ftok address)) [
      | inl e ↦ rw e h
      | inr (key, e) ↦
          rw e (kept.by_set (key 2) (get_segment (key 1) o) (kept.by_segment (key 1) o h))
    ]

    connect-Kept :
        (pid : ℕ) (address : List ℕ) (o : Objects)
        → P o
        → P (left o (ipc_connect ftok pid address o))
    unfolding ipc_connect ipc_open shalloc semcreate_at left
    connect-Kept pid address o h = elim (Option-cases (ftok address)) [
      | inl e ↦ rw e h
      | inr (key, e) ↦
          rw e (kept.by_set (key 2) (get_segment (key 1) o) (kept.by_segment (key 1) o h))
    ]

    pub clients-Kept : (es : List Event) (o : Objects) → All IsClient es → P o → P (events es o)
    unfolding events event
    clients-Kept [] o all h = h
    clients-Kept (listens pid address ∷ es) o all h = absurd all.0
    clients-Kept (closes ipc ∷ es) o all h = absurd all.0
    clients-Kept (connects pid address ∷ es) o all h =
        clients-Kept es (left o (ipc_connect ftok pid address o)) all.1
          (connect-Kept pid address o h)
    clients-Kept (uses ipc s ∷ es) o all h =
        clients-Kept es (store ipc s o) all.1 (kept.by_store ipc s o h)

    module _ (destroyed : (s : ℕ) (o : Objects) → P o → P (semdestroy s o)) where
      close-Kept : (ipc : Handle) (o : Objects) → P o → P (ipc_close ipc o)
      unfolding ipc_close shfree
      close-Kept ipc o h = elim (ℕ_discrete ipc.id ipc.server_id) [
        | yes e ↦ rw (eq→== ipc.id ipc.server_id e) (destroyed ipc.semaphores o h)
        | no n ↦ rw (ne→== ipc.id ipc.server_id n) h
      ]

      pub events-Kept : (es : List Event) (o : Objects) → P o → P (events es o)
      unfolding events event
      events-Kept [] o h = h
      events-Kept (listens pid address ∷ es) o h =
          events-Kept es (left o (ipc_listen ftok pid address o)) (listen-Kept pid address o h)
      events-Kept (connects pid address ∷ es) o h =
          events-Kept es (left o (ipc_connect ftok pid address o)) (connect-Kept pid address o h)
      events-Kept (uses ipc s ∷ es) o h = events-Kept es (store ipc s o) (kept.by_store ipc s o h)
      events-Kept (closes ipc ∷ es) o h = events-Kept es (ipc_close ipc o) (close-Kept ipc o h)
