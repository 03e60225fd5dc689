-- ===== src/Ipc/Shmem/Sets.antt =====
-- Predicates on the semaphores of src/ipc/shmem.c that the calls keep.
use so.Base.{Option, arith, none, refl, some, ℕ, ℕ_discrete, ◌<◌, ◌∙◌, ◌≡◌, ◌≢◌}
use so.Actions.{Message}
use so.Ipc.Clients.{update-ne, update_self}
use so.Ipc.Shmem.Events.{IsKept, nothing, store, stored}
use so.Ipc.Shmem.Protocol.{Shared}
use so.Ipc.Shmem.Segments.{
  Counts, Handle, Objects, get_segment, get_set, segment_of, semdestroy, set_of, without,
  zero_counts,
}

-- Every set that a key has got an identifier before `fresh`.
abbrev pub AreKnown : Objects → Type 0
AreKnown o = (key s : ℕ) → o.set key ≡ some s → s < o.fresh

-- The set `s` is removed, and its identifier is not given out again.
abbrev pub IsGone : ℕ → Objects → Type 0
IsGone s o = (o.counts s ≡ none) × (s < o.fresh)

set_of-AreKnown : (key : ℕ) (o : Objects) (r : Option ℕ) → AreKnown o → AreKnown (set_of key o r).1
set_of-AreKnown key o (some v) h k s e = h k s e
set_of-AreKnown key o none h k s e = ground (arith, h k s)

pub set_of-lt :
    (key : ℕ) (o : Objects) (r : Option ℕ)
    → o.set key ≡ r
    → AreKnown o
    → (set_of key o r).0 < (set_of key o r).1.fresh
set_of-lt key o none e h = omega arith
set_of-lt key o (some s) e h = h key s e

set_of-IsGone : (key s : ℕ) (o : Objects) (r : Option ℕ) → IsGone s o → IsGone s (set_of key o r).1
set_of-IsGone key s o none h = (
  update-ne o.counts o.fresh (some zero_counts) s (λ e. omega (arith, h.1, e)) ∙ h.0,
  omega (arith, h.1),
)
set_of-IsGone key s o (some v) h = h

stored-IsGone :
    (ipc : Handle) (m : Shared) (s : ℕ) (o : Objects) (r : Option Counts)
    → o.counts ipc.semaphores ≡ r
    → IsGone s o
    → IsGone s (stored ipc m o r)
stored-IsGone ipc m s o none e h = h
stored-IsGone ipc m s o (some v) e h =
    let other : ipc.semaphores ≢ s = λ same. ground (arith, e, h.0, same) in
    (update-ne o.counts ipc.semaphores _ s other ∙ h.0, h.1)

without-some : (v s : ℕ) (r : Option ℕ) → without v r ≡ some s → r ≡ some s
without-some v s none e = e
without-some v s (some u) e = ground arith

pub semdestroy-IsGone : (v s : ℕ) (o : Objects) → IsGone s o → IsGone s (semdestroy v o)
unfolding semdestroy
semdestroy-IsGone v s o h = elim (ℕ_discrete v s) [
  | yes same ↦ (rw same (update_self o.counts s none), h.1)
  | no ne ↦ (update-ne o.counts v none s ne ∙ h.0, h.1)
]

-- The set of `key` is `s`.
abbrev pub IsSetOf : ℕ → ℕ → Objects → Type 0
IsSetOf key s o = o.set key ≡ some s

segment_of-AreKnown :
    (key : ℕ) (o : Objects) (r : Option Message) → AreKnown o → AreKnown (segment_of key o r)
segment_of-AreKnown key o none h = h
segment_of-AreKnown key o (some m) h = h

segment_of-IsGone :
    (key s : ℕ) (o : Objects) (r : Option Message) → IsGone s o → IsGone s (segment_of key o r)
segment_of-IsGone key s o none h = h
segment_of-IsGone key s o (some m) h = h

segment_of-IsSetOf :
    (key k s : ℕ) (o : Objects) (r : Option Message)
    → IsSetOf k s o
    → IsSetOf k s (segment_of key o r)
segment_of-IsSetOf key k s o none h = h
segment_of-IsSetOf key k s o (some m) h = h

stored-AreKnown :
    (ipc : Handle) (m : Shared) (o : Objects) (r : Option Counts)
    → AreKnown o
    → AreKnown (stored ipc m o r)
stored-AreKnown ipc m o none h = h
stored-AreKnown ipc m o (some v) h = h

stored-IsSetOf :
    (ipc : Handle) (m : Shared) (k s : ℕ) (o : Objects) (r : Option Counts)
    → IsSetOf k s o
    → IsSetOf k s (stored ipc m o r)
stored-IsSetOf ipc m k s o none h = h
stored-IsSetOf ipc m k s o (some v) h = h

set_of-IsSetOf :
    (key k s : ℕ) (o : Objects) (r : Option ℕ)
    → o.set key ≡ r
    → IsSetOf k s o
    → IsSetOf k s (set_of key o r).1
set_of-IsSetOf key k s o none e h =
    let other : key ≢ k = λ same. ground (arith, rw same at e, h) in
    update-ne o.set key (some o.fresh) k other ∙ h
set_of-IsSetOf key k s o (some v) e h = h

-- `semget` leaves the key with the set that it returns.
set_of_self :
    (key : ℕ) (o : Objects) (r : Option ℕ)
    → o.set key ≡ r
    → IsSetOf key (set_of key o r).0 (set_of key o r).1
set_of_self key o none e = update_self o.set key (some o.fresh)
set_of_self key o (some v) e = e

pub get_set_self : (key : ℕ) (o : Objects) → IsSetOf key (get_set key o).0 (get_set key o).1
unfolding get_set
get_set_self key o = set_of_self key o (o.set key) refl

pub nothing-AreKnown : AreKnown nothing
nothing-AreKnown key s e = ground (arith, e)

pub AreKnown-IsKept : IsKept AreKnown
unfolding get_set get_segment store
AreKnown-IsKept = record {
  by_set = λ key o h. set_of-AreKnown key o (o.set key) h;
  by_segment = λ key o h. segment_of-AreKnown key o (o.segment key) h;
  by_store = λ ipc s o h. stored-AreKnown ipc s o (o.counts ipc.semaphores) h;
}

pub IsGone-IsKept : (s : ℕ) → IsKept (IsGone s)
unfolding get_set get_segment store
IsGone-IsKept s = record {
  by_set = λ key o h. set_of-IsGone key s o (o.set key) h;
  by_segment = λ key o h. segment_of-IsGone key s o (o.segment key) h;
  by_store = λ ipc m o h. stored-IsGone ipc m s o (o.counts ipc.semaphores) refl h;
}

pub IsSetOf-IsKept : (key s : ℕ) → IsKept (IsSetOf key s)
unfolding get_set get_segment store
IsSetOf-IsKept k s = record {
  by_set = λ key o h. set_of-IsSetOf key k s o (o.set key) refl h;
  by_segment = λ key o h. segment_of-IsSetOf key k s o (o.segment key) h;
  by_store = λ ipc m o h. stored-IsSetOf ipc m k s o (o.counts ipc.semaphores) h;
}

pub semdestroy-AreKnown : (v : ℕ) (o : Objects) → AreKnown o → AreKnown (semdestroy v o)
unfolding semdestroy
semdestroy-AreKnown v o h k s e = h k s (without-some v s (o.set k) e)
