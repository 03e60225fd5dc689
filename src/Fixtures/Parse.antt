-- ===== src/Fixtures/Parse.antt =====
-- What `fixtures_read1` makes of a line `name,time`.
use so.Base.{List, [], ap, arith, refl, some, ℕ, ◌++◌, ◌∷◌, ◌≡◌, ◌≢◌, All, ne→==}
use so.Database.{movie_init}
use so.Fixtures.Reading.{chomp, fixtures_read1, parse_movie, read1}
use so.Libc.{c_string, strtok_first, strtok_last}

chomp-append : (s : List ℕ) → chomp (s ++ b'\n' ∷ []) ≡ s
unfolding chomp
chomp-append [] = refl
chomp-append (b ∷ []) = refl
chomp-append (b ∷ c ∷ s) = ap (λ t. b ∷ t) (chomp-append (c ∷ s))

c_string-All : (s : List ℕ) → All (λ b. b ≢ 0) s → c_string s ≡ s
unfolding c_string
c_string-All [] h = refl
c_string-All (b ∷ s) h = rw (ne→== b 0 h.0) (ap (λ t. b ∷ t) (c_string-All s h.1))

-- A part of a line: not empty, with no comma and no NUL in it.
pub record IsPart (s : List ℕ) : Type 0 where
  pub filled : s ≢ []
  pub no_comma : All (λ b. b ≢ b',') s
  pub no_nul : All (λ b. b ≢ 0) s

parse_movie_parts :
    (name time : List ℕ)
    → IsPart name
    → IsPart time
    → parse_movie (name ++ b',' ∷ time) ≡ some (movie_init name time)
unfolding parse_movie
parse_movie_parts name time n t =
    rw (strtok_first b',' name time n.filled n.no_comma, strtok_last b',' time t.filled t.no_comma)

All-append :
    (xs ys : List ℕ) → All (λ b. b ≢ 0) xs → All (λ b. b ≢ 0) ys → All (λ b. b ≢ 0) (xs ++ ys)
All-append [] ys h k = k
All-append (x ∷ xs) ys h k = (h.0, All-append xs ys h.1 k)

-- A line of two parts joined by a comma, with its newline, becomes the movie with these two texts.
pub fixtures_read1_line :
    (name time : List ℕ)
    → IsPart name
    → IsPart time
    → fixtures_read1 ((name ++ b',' ∷ time) ++ b'\n' ∷ []) ≡ some (movie_init name time)
unfolding fixtures_read1 read1
fixtures_read1_line [] time n t = absurd (n.filled refl)
fixtures_read1_line (b ∷ name) time n t =
    rw
      (
        c_string-All (((b ∷ name) ++ b',' ∷ time) ++ b'\n' ∷ []) (
            All-append ((b ∷ name) ++ b',' ∷ time) (b'\n' ∷ [])
              (All-append (b ∷ name) (b',' ∷ time) n.no_nul (omega arith, t.no_nul)) (omega arith)),
        chomp-append (b ∷ (name ++ b',' ∷ time)),
      )
      (parse_movie_parts (b ∷ name) time n t)
