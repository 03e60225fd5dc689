-- ===== src/Fixtures/Reading.antt =====
-- src/fixtures.c: `fixtures_read1` and `fixtures_read`. A crash of the C program is `none`.
use so.Base.{List, Option, [], none, some, ℕ, ◌++◌, ◌∷◌, if◌then◌else◌, ◌==◌}
use so.Bytes.{◌>>=◌}
use so.Database.{movie_init, put_movie, Movie}
use so.Libc.{c_string, lines, strtok}

-- Drops a newline that ends the string.
unfoldable pub chomp : List ℕ → List ℕ
chomp [] = []
chomp (b ∷ []) = if b == b'\n' then [] else b ∷ []
chomp (b ∷ c ∷ bs) = b ∷ chomp (c ∷ bs)

-- The two `strtok` calls and `movie_init`, which copies from NULL where a part is missing.
unfoldable pub parse_movie : List ℕ → Option Movie
parse_movie line =
    let (name, rest) = strtok b',' line in
    let (time, _) = strtok b',' rest in
    do m_name ← name; m_time ← time; some (movie_init m_name m_time)

-- `fixtures_read1` on a string. An empty one has no last byte: `line[line_len - 1]` is outside it.
unfoldable pub read1 : List ℕ → Option Movie
read1 [] = none
read1 (b ∷ bs) = parse_movie (chomp (b ∷ bs))

unfoldable pub fixtures_read1 : List ℕ → Option Movie
fixtures_read1 line = read1 (c_string line)

-- The `while` loop over the lines that getline has not read; each movie goes to the file.
unfoldable pub read_lines : List ℕ → List (List ℕ) → Option (List ℕ)
read_lines padding [] = some []
read_lines padding (line ∷ rest) = do
  movie ← fixtures_read1 line
  file ← read_lines padding rest
  some (put_movie padding movie ++ file)

-- The bytes of the database file written for these fixtures. `padding` is what the padding of the
-- local `movie` holds.
unfoldable pub fixtures_read : List ℕ → List ℕ → Option (List ℕ)
fixtures_read padding fixtures = read_lines padding (lines fixtures)
