-- ===== src/Client/Samples.antt =====
-- The texts of the hall of two movies, and halls of many: data of the tests.
use so.Base.{
  [], false, refl, suc, sym, zero, ℕ, ◌*◌, ◌<◌, ◌^◌, ◌∷◌, ◌≡◌, length-replicate, replicate, ◌==◌,
}
use so.Client.Get.{ArePrinted, IsPrinted}
use so.Database.{movie_init, Database, Movie, f_unlck}
use so.Database.Samples.{alien, gravity, hall}
use so.Database.Valid.{AreMovies, IsValid, movie_init-IsMovie}
use so.Libc.{string_at, strncpy}

printed :
    (m : Movie) (a b : ℕ)
    → m ≡ movie_init (a ∷ []) (b ∷ [])
    → (a == 0) ≡ false
    → (b == 0) ≡ false
    → IsPrinted m (a ∷ []) (b ∷ [])
unfolding movie_init strncpy string_at
printed m a b is x y = rw is (record { name_ends = rw x refl; time_ends = rw y refl })

pub hall-ArePrinted : ArePrinted hall.movies
hall-ArePrinted = (
  (b'G' ∷ [], b'9' ∷ [], printed gravity (b'G') (b'9') refl refl refl),
  ((b'A' ∷ [], b'7' ∷ [], printed alien (b'A') (b'7') refl refl refl), tt),
)

-- A hall of so many movies.
abbrev pub crowded : ℕ → Database
crowded n = record { st_size = 284 * n; count = n; movies = replicate n alien; held = f_unlck }

replicate-AreMovies : (k n : ℕ) → AreMovies k (replicate n alien)
replicate-AreMovies k zero = tt
replicate-AreMovies k (suc n) =
    (movie_init-IsMovie (b'A' ∷ []) (b'7' ∷ []) k, replicate-AreMovies (suc k) n)

pub crowded-IsValid : (n : ℕ) → n < 2 ^ 16 → IsValid (crowded n)
crowded-IsValid n h = record {
  counted = sym (length-replicate n alien);
  small = h;
  movies = replicate-AreMovies 0 n;
}
