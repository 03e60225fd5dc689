-- ===== src/Database/Lookup.antt =====
-- What the nested loops of `db_get_ticket` find in a valid database.
use so.Base.{
  ℕ, zero, suc, ◌+◌, ◌-◌, ◌*◌, ◌/◌, ◌%◌, ◌<◌, ◌≡◌, refl, ap, ◌∙◌, Option, none, some, Bool, false,
  ◌||◌, ◌&&◌, List, [], ◌∷◌, ◌++◌, map, arith, length, get_elem?, take, replicate, length-append,
  length-replicate, take_all, ltb, leb, ◌==◌, if◌then◌else◌, ap₂,
}
use so.Base.Int.{ℤ, pos, negsuc, eq_ℤ}
use so.Database.{Movie, scan_tickets, scan_movies, movie_max_tickets}
use so.Database.Valid.{issued, length-issued, ticket_array, IsMovie, AreMovies}

-- The ticket stands in the array.
hit : ℤ → List ℤ → Bool
hit t [] = false
hit t (x ∷ xs) = eq_ℤ x t || hit t xs

hit-append : (t : ℤ) (xs ys : List ℤ) → hit t (xs ++ ys) ≡ (hit t xs || hit t ys)
unfolding hit
hit-append t [] ys = refl
hit-append t (x ∷ xs) ys = ground (arith, hit-append t xs ys)

-- The inner loop assigns `movie` exactly when the ticket stands in the array.
scan_tickets-hit :
    (t : ℤ) (i : ℕ) (ts : List ℤ) (f : Option ℕ)
    → scan_tickets t i ts f ≡ (if hit t ts then some i else f)
unfolding scan_tickets hit
scan_tickets-hit t i [] f = refl
scan_tickets-hit t i (x ∷ xs) f =
    ground (arith, scan_tickets-hit t i xs (some i), scan_tickets-hit t i xs f)

hit-issued : (x base n : ℕ) → hit (pos x) (issued base n) ≡ (ltb base x && leb x (base + n))
unfolding hit issued
hit-issued x base zero = ground arith
hit-issued x base (suc n) =
    ground
      (arith, hit-issued x base n, hit-append (pos x) (issued base n) (pos (base + n + 1) ∷ []))

hit-issued_neg : (x base n : ℕ) → hit (negsuc x) (issued base n) ≡ false
unfolding hit issued
hit-issued_neg x base zero = refl
hit-issued_neg x base (suc n) = ground (
  arith,
  hit-issued_neg x base n,
  hit-append (negsuc x) (issued base n) (pos (base + n + 1) ∷ []),
)

hit-free : (x r : ℕ) → hit (pos x) (replicate r (pos 0)) ≡ (x == 0 && ltb 0 r)
unfolding hit
hit-free x zero = ground arith
hit-free x (suc r) = ground (arith, hit-free x r)

hit-free_neg : (x r : ℕ) → hit (negsuc x) (replicate r (pos 0)) ≡ false
unfolding hit
hit-free_neg x zero = refl
hit-free_neg x (suc r) = hit-free_neg x r

-- The ticket is one of those that the movie at place `i` has sold, or is 0 and a place is free.
abbrev pub is_at : ℤ → ℕ → ℕ → Bool
is_at (negsuc x) i r = false
is_at (pos x) i r = (ltb (i * 20) x && leb x (i * 20 + (20 - r))) || (x == 0 && ltb 0 r)

hit-ticket_array : (t : ℤ) (i r : ℕ) → hit t (ticket_array i r) ≡ is_at t i r
hit-ticket_array (pos x) i r =
    hit-append (pos x) (issued (i * 20) (20 - r)) (replicate r (pos 0))
    ∙ ap₂ ◌||◌ (hit-issued x (i * 20) (20 - r)) (hit-free x r)
hit-ticket_array (negsuc x) i r =
    hit-append (negsuc x) (issued (i * 20) (20 - r)) (replicate r (pos 0))
    ∙ ap₂ ◌||◌ (hit-issued_neg x (i * 20) (20 - r)) (hit-free_neg x r)

pub length-tickets : (i : ℕ) (m : Movie) → IsMovie i m → length m.tickets ≡ 20
length-tickets i m v =
    ap length v.sold
    ∙ omega (
      arith,
      length-append (issued (i * 20) (20 - m.remaining_tickets))
          (replicate m.remaining_tickets (pos 0)),
      length-issued (i * 20) (20 - m.remaining_tickets),
      length-replicate m.remaining_tickets (pos 0),
      v.few,
    )

-- One round of the outer loop.
pub scan_one :
    (t : ℤ) (i : ℕ) (m : Movie) (f : Option ℕ)
    → IsMovie i m
    → scan_tickets t i (take movie_max_tickets m.tickets) f
      ≡ (if is_at t i m.remaining_tickets then some i else f)
scan_one t i m f v = rw (take_all 20 m.tickets (omega (arith, length-tickets i m v))) (
    scan_tickets-hit t i m.tickets f
    ∙ ap (λ b. if b then some i else f)
        (ap (hit t) v.sold ∙ hit-ticket_array t i m.remaining_tickets))

-- The tickets sold of each movie.
abbrev pub sold_of : Movie → ℕ
sold_of m = movie_max_tickets - m.remaining_tickets

-- No movie from place `k` on has a ticket below its range.
scan_below :
    (x k : ℕ) (ms : List Movie) (f : Option ℕ)
    → AreMovies k ms
    → x / 20 < k
    → scan_movies (pos (suc x)) k ms f ≡ f
unfolding scan_movies
scan_below x k [] f h lt = refl
scan_below x k (m ∷ ms) f h lt =
    let away : is_at (pos (suc x)) k m.remaining_tickets ≡ false = ground arith in
    rw (scan_one (pos (suc x)) k m f h.0, away) (scan_below x (suc k) ms f h.1 (omega arith))

-- The answer for a ticket whose movie has sold so many.
abbrev pub if_sold : ℕ → Option ℕ → Option ℕ → Option ℕ
if_sold x none f = f
if_sold x (some s) f = if ltb (x % 20) s then some (x / 20) else f

pub scan_pos :
    (x k j : ℕ) (ms : List Movie) (f : Option ℕ)
    → AreMovies k ms
    → x / 20 ≡ k + j
    → scan_movies (pos (suc x)) k ms f ≡ if_sold x (get_elem? (map sold_of ms) j) f
unfolding scan_movies
scan_pos x k j [] f h e = refl
scan_pos x k zero (m ∷ ms) f h e =
    let here : is_at (pos (suc x)) k m.remaining_tickets ≡ ltb (x % 20) (sold_of m) =
      ground arith in
    let place : x / 20 ≡ k = omega arith in
    rw (scan_one (pos (suc x)) k m f h.0, here, place)
      (scan_below x (suc k) ms (if ltb (x % 20) (sold_of m) then some k else f) h.1 (omega arith))
scan_pos x k (suc j) (m ∷ ms) f h e =
    let away : is_at (pos (suc x)) k m.remaining_tickets ≡ false = ground arith in
    rw (scan_one (pos (suc x)) k m f h.0, away) (scan_pos x (suc k) j ms f h.1 (omega arith))

pub scan_neg :
    (x k : ℕ) (ms : List Movie) (f : Option ℕ) → AreMovies k ms → scan_movies (negsuc x) k ms f ≡ f
unfolding scan_movies
scan_neg x k [] f h = refl
scan_neg x k (m ∷ ms) f h = rw (scan_one (negsuc x) k m f h.0) (scan_neg x (suc k) ms f h.1)

-- The last place from `k` on where a ticket is free.
unfoldable pub last_free : ℕ → List ℕ → Option ℕ → Option ℕ
last_free k [] f = f
last_free k (s ∷ ss) f = last_free (suc k) ss (if ltb s 20 then some k else f)

pub scan_zero :
    (k : ℕ) (ms : List Movie) (f : Option ℕ)
    → AreMovies k ms
    → scan_movies (pos 0) k ms f ≡ last_free k (map sold_of ms) f
unfolding scan_movies last_free
scan_zero k [] f h = refl
scan_zero k (m ∷ ms) f h =
    let free : is_at (pos 0) k m.remaining_tickets ≡ ltb (sold_of m) 20 = ground (arith, h.0.few) in
    rw (scan_one (pos 0) k m f h.0, free)
      (scan_zero (suc k) ms (if ltb (sold_of m) 20 then some k else f) h.1)
