-- ===== src/Database/Find.antt =====
-- `db_find` returns the first movie of a name.
use so.Base.{
  List, Option, [], arith, false, inl, inr, none, refl, some, suc, zero, ℕ, ◌+◌, ◌<◌, ◌∷◌, ◌≡◌, ◌≢◌,
  get_elem?, take_all, Bool-cases,
}
use so.Database.Tickets.{db_find, find_from}
use so.Database.Types.{Database, Movie}
use so.Database.Valid.{IsValid}
use so.Libc.{same_string_refl, same_string→eq, c_string, same_string}

-- Place `i` holds the first movie of the name.
abbrev pub IsFirstAt : List ℕ → List Movie → ℕ → Type 0
IsFirstAt name ms i =
    ((m : Movie) × (get_elem? ms i ≡ some m) × (c_string m.name ≡ name))
    × ((j : ℕ) (m : Movie) → j < i → get_elem? ms j ≡ some m → c_string m.name ≢ name)

-- The answer of the loop that starts at place `k`, with the movies `ms` before it.
abbrev FoundFrom : List ℕ → ℕ → List Movie → Option ℕ → Type 0
FoundFrom name k ms none = (i : ℕ) (m : Movie) → get_elem? ms i ≡ some m → c_string m.name ≢ name
FoundFrom name k ms (some p) = (i : ℕ) × (p ≡ k + i) × IsFirstAt name ms i

not_same : (s t : List ℕ) → same_string s t ≡ false → s ≢ t
not_same s t h e = ground (arith, same_string_refl s)

-- The head is not called so, nor is any of the first `n` movies behind it.
others-cons :
    (name : List ℕ) (m : Movie) (ms : List Movie) (i : ℕ)
    → c_string m.name ≢ name
    → ((j : ℕ) (x : Movie) → j < i → get_elem? ms j ≡ some x → c_string x.name ≢ name)
    → (j : ℕ) (x : Movie) → j < suc i
    → get_elem? (m ∷ ms) j ≡ some x
    → c_string x.name ≢ name
others-cons name m ms i ne h zero x lt g = ground arith
others-cons name m ms i ne h (suc j) x lt g = h j x (omega arith) g

none-cons :
    (name : List ℕ) (m : Movie) (ms : List Movie)
    → c_string m.name ≢ name
    → ((i : ℕ) (x : Movie) → get_elem? ms i ≡ some x → c_string x.name ≢ name)
    → (i : ℕ) (x : Movie) → get_elem? (m ∷ ms) i ≡ some x
    → c_string x.name ≢ name
none-cons name m ms ne h zero x g = ground arith
none-cons name m ms ne h (suc i) x g = h i x g

FoundFrom-cons :
    (name : List ℕ) (k : ℕ) (m : Movie) (ms : List Movie) (r : Option ℕ)
    → c_string m.name ≢ name
    → FoundFrom name (suc k) ms r
    → FoundFrom name k (m ∷ ms) r
FoundFrom-cons name k m ms none ne h = none-cons name m ms ne h
FoundFrom-cons name k m ms (some p) ne (i, e, first) =
    (suc i, omega arith, (first.0, others-cons name m ms i ne first.1))

find_from-Found :
    (name : List ℕ) (k : ℕ) (ms : List Movie) → FoundFrom name k ms (find_from name k ms)
unfolding find_from
find_from-Found name k [] = λ i m e. ground arith
find_from-Found name k (m ∷ ms) = elim (Bool-cases (same_string (c_string m.name) name)) [
  | inl same ↦
      rw (same, FoundFrom)
        (0, omega arith, ((m, refl, same_string→eq _ _ same), λ j x lt g. absurd (omega arith)))
  | inr differs ↦
      rw (differs, FoundFrom)
        (FoundFrom-cons name k m ms (find_from name (suc k) ms) (not_same _ _ differs)
          (find_from-Found name (suc k) ms))
]

abbrev pub IsFound : List ℕ → List Movie → Option ℕ → Type 0
IsFound name ms none = (i : ℕ) (m : Movie) → get_elem? ms i ≡ some m → c_string m.name ≢ name
IsFound name ms (some i) = IsFirstAt name ms i

FoundFrom-start :
    (name : List ℕ) (ms : List Movie) (r : Option ℕ) → FoundFrom name 0 ms r → IsFound name ms r
FoundFrom-start name ms none h = h
FoundFrom-start name ms (some p) (i, e, h) = let q : p ≡ i = omega arith in rw q h

-- In a valid database `db_find` returns the place of the first movie whose name, up to its NUL, is
-- the name asked for; it returns NULL only where no movie has that name.
pub db_find-IsFound :
    (db : Database) (name : List ℕ) → IsValid db → IsFound name db.movies (db_find db name)
unfolding db_find
db_find-IsFound db name v =
    rw (take_all db.count db.movies (omega (arith, v.counted)))
      (FoundFrom-start name db.movies _ (find_from-Found name 0 db.movies))
