-- ===== src/Fixtures/Tests.antt =====
-- The theorems on the fixtures at a text of two lines.
use so.Fixtures.{fixtures_read}  -- keep
use so.Base.{List, [], arith, none, refl, some, ℕ, ◌++◌, ◌<◌, ◌^◌, ◌∷◌, ◌≡◌, length, replicate}
use so.Database.{db_open, movie_init, put_movie, Database}
use so.Database.Sales.{sales}
use so.Database.Valid.{IsValid}
use so.Fixtures.Reading.{chomp, fixtures_read, fixtures_read1, parse_movie, read1, read_lines}
use so.Fixtures.Reset.{reset-IsValid}
use so.Libc.{c_string, lines, skip_delims, strtok, token, until}

abbrev padding : List ℕ
padding = 7 ∷ 9 ∷ []

-- Two lines, `A,7` and `G,9`, the last without a newline.
abbrev text : List ℕ
text = b'A' ∷ b',' ∷ b'7' ∷ b'\n' ∷ b'G' ∷ b',' ∷ b'9' ∷ []

two_lines : lines text ≡ (b'A' ∷ b',' ∷ b'7' ∷ b'\n' ∷ []) ∷ (b'G' ∷ b',' ∷ b'9' ∷ []) ∷ []
unfolding lines
two_lines = refl

abbrev file : List ℕ
file =
    put_movie padding (movie_init (b'A' ∷ []) (b'7' ∷ []))
    ++ (put_movie padding (movie_init (b'G' ∷ []) (b'9' ∷ [])) ++ [])

reads_text : fixtures_read padding text ≡ some file
unfolding lines fixtures_read read_lines fixtures_read1 read1 c_string chomp parse_movie strtok
    skip_delims token until
reads_text = refl

reset-IsValid_example :
    (db : Database) × (db_open file ≡ some db)
    × IsValid db
    × (db.count ≡ length (lines text))
    × (sales db ≡ replicate (length (lines text)) 0)
reset-IsValid_example = reset-IsValid padding text refl few reads_text
  where
    few : length (lines text) < 2 ^ 16
    few = rw two_lines (omega arith)

-- A line with no comma: `m_time` is NULL.
no_time : fixtures_read1 (b'A' ∷ b'\n' ∷ []) ≡ none
unfolding fixtures_read1 read1 c_string chomp parse_movie strtok skip_delims token until
no_time = refl
