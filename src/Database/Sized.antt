-- ===== src/Database/Sized.antt =====
-- The movies of a valid database fit their structure, so the file can hold them.
use so.Base.{
  List, [], ap, arith, some, suc, zero, ℕ, ◌%◌, ◌*◌, ◌++◌, ◌+◌, ◌-◌, ◌<◌, ◌^◌, ◌∙◌, ◌∷◌, ◌≡◌, All,
  length, replicate,
}
use so.Base.Int.{IsI32, pos}
use so.Database.File.{IsSized, db_open-put_movies}
use so.Database.Layout.{db_open, put_movies}
use so.Database.Lookup.{length-tickets}
use so.Database.Types.{Database, Movie, f_unlck}
use so.Database.Valid.{AreMovies, IsMovie, IsValid, issued, ticket_array}

All-append {ℓ κ} :
    {A : Type ℓ} (P : A → Type κ) (xs ys : List A) → All P xs → All P ys → All P (xs ++ ys)
All-append P [] ys h k = k
All-append P (x ∷ xs) ys h k = (h.0, All-append P xs ys h.1 k)

issued-IsI32 : (base n : ℕ) → base + n < 2 ^ 31 → All IsI32 (issued base n)
unfolding issued
issued-IsI32 base zero h = tt
issued-IsI32 base (suc n) h =
    All-append IsI32 (issued base n) (pos (base + n + 1) ∷ []) (issued-IsI32 base n (omega arith))
      (omega arith)

free-IsI32 : (r : ℕ) → All IsI32 (replicate r (pos 0))
free-IsI32 zero = tt
free-IsI32 (suc r) = (omega arith, free-IsI32 r)

ticket_array-IsI32 : (i r : ℕ) → i < 2 ^ 16 → All IsI32 (ticket_array i r)
ticket_array-IsI32 i r h =
    All-append IsI32 (issued (i * 20) (20 - r)) (replicate r (pos 0))
      (issued-IsI32 (i * 20) (20 - r) (omega arith)) (free-IsI32 r)

pub IsMovie-IsSized : (i : ℕ) (m : Movie) → i < 2 ^ 16 → IsMovie i m → IsSized m
IsMovie-IsSized i m h v = record {
  name_size = v.name_size;
  time_size = v.time_size;
  small = omega (arith, v.few);
  ticket_count = length-tickets i m v;
  ticket_range = rw (v.sold) (ticket_array-IsI32 i m.remaining_tickets h);
}

AreMovies-IsSized :
    (k : ℕ) (ms : List Movie) → k + length ms < 2 ^ 16 → AreMovies k ms → All IsSized ms
AreMovies-IsSized k [] h v = tt
AreMovies-IsSized k (m ∷ ms) h v =
    (IsMovie-IsSized k m (omega arith) v.0, AreMovies-IsSized (suc k) ms (omega arith) v.1)

-- A valid database written to its file and opened again has the same movies and count, and no lock.
pub db_open-IsValid :
    (padding : List ℕ) (db : Database)
    → length padding ≡ 2
    → IsValid db
    → db_open (put_movies padding db.movies)
      ≡ some (record db { st_size = 284 * length db.movies; held = f_unlck })
db_open-IsValid padding db p v =
    let same : length db.movies % 2 ^ 16 ≡ db.count = omega (arith, v.counted, v.small) in
    db_open-put_movies padding p db.movies
      (AreMovies-IsSized 0 db.movies (omega (arith, v.counted, v.small)) v.movies)
    ∙ ap
        (λ (n : ℕ).
          some (record db { st_size = 284 * length db.movies; count = n; held = f_unlck }))
        same

pub IsValid-IsSized : (db : Database) → IsValid db → All IsSized db.movies
IsValid-IsSized db v = AreMovies-IsSized 0 db.movies (omega (arith, v.counted, v.small)) v.movies
