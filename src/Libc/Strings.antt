-- ===== src/Libc/Strings.antt =====
-- strcmp, strncpy, strtok, getline and atoi, as the sources call them.
use Prim.Native.Char.{code}
use so.Base.{
  Bool, List, Option, String, [], false, none, some, suc, true, zero, ℕ, ◌&&◌, ◌*◌, ◌++◌, ◌+◌, ◌-◌,
  ◌||◌, ◌∷◌, length, replicate, take, if◌then◌else◌, leb, ◌==◌,
}
use so.Base.Int.{negsuc, pos, ℤ}

-- The string that an array of bytes holds: what stands before the first NUL.
unfoldable pub c_string : List ℕ → List ℕ
c_string [] = []
c_string (b ∷ bs) = if b == 0 then [] else b ∷ c_string bs

-- The string that begins at a `char *` into a buffer; none where no NUL ends it inside the buffer.
unfoldable pub string_at : List ℕ → Option (List ℕ)
string_at [] = none
string_at (b ∷ bs) =
    let rest = string_at bs in
    if b == 0 then some [] else elim rest [ none ↦ none | some s ↦ some (b ∷ s) ]

-- strcmp(s1, s2) == 0
unfoldable pub same_string : List ℕ → List ℕ → Bool
same_string [] [] = true
same_string [] (b ∷ bs) = false
same_string (a ∷ as') [] = false
same_string (a ∷ as') (b ∷ bs) = a == b && same_string as' bs

-- The `n` bytes that strncpy(dest, src, n) writes: no NUL where `src` is `n` long or longer.
unfoldable pub strncpy : List ℕ → ℕ → List ℕ
strncpy src n = take n src ++ replicate (n - length src) 0

-- The first byte is a delimiter; `strtok` skips such.
unfoldable pub skip_delims : ℕ → List ℕ → List ℕ
skip_delims d [] = []
skip_delims d (b ∷ bs) = if b == d then skip_delims d bs else b ∷ bs

-- The bytes before the first delimiter, and what follows that delimiter.
unfoldable pub until : ℕ → List ℕ → List ℕ × List ℕ
until d [] = ([], [])
until d (b ∷ bs) = let (t, r) = until d bs in if b == d then ([], bs) else (b ∷ t, r)

-- The token at a position that delimiters do not begin; NULL (none) at the end of the string.
unfoldable pub token : ℕ → List ℕ → Option (List ℕ) × List ℕ
token d [] = (none, [])
token d (b ∷ bs) = let (t, r) = until d (b ∷ bs) in (some t, r)

-- strtok with one delimiter, from a saved position: the token and the new position.
unfoldable pub strtok : ℕ → List ℕ → Option (List ℕ) × List ℕ
strtok d s = token d (skip_delims d s)

-- The lines that successive calls of getline give, each with its newline.
unfoldable pub lines : List ℕ → List (List ℕ)
lines [] = []
lines (b ∷ bs) =
    let rest = lines bs in
    if b == b'\n' then (b ∷ []) ∷ rest else elim rest [ [] ↦ (b ∷ []) ∷ [] | l ∷ ls ↦ (b ∷ l) ∷ ls ]

abbrev pub is_digit : ℕ → Bool
is_digit c = leb b'0' c && leb c b'9'

unfoldable pub digits_value : List ℕ → ℕ → ℕ
digits_value [] acc = acc
digits_value (c ∷ cs) acc =
    let more = digits_value cs (acc * 10 + (c - b'0')) in if is_digit c then more else acc

-- isspace
abbrev pub is_space : ℕ → Bool
is_space c = c == b' ' || (leb 9 c && leb c 13)

unfoldable pub minus : ℕ → ℤ
minus zero = pos 0
minus (suc n) = negsuc n

-- Blanks, a sign, digits; 0 where there is no digit. The value of a text that overflows `int` is not
-- defined in C: theorems about such a value assume its range.
unfoldable pub atoi : List ℕ → ℤ
unfolding digits_value minus
atoi [] = pos 0
atoi (c ∷ cs) =
    let blank = atoi cs in
    if is_space c
    then blank
    else if c == b'-'
    then minus (digits_value cs 0)
    else if c == b'+'
    then pos (digits_value cs 0)
    else pos (digits_value (c ∷ cs) 0)

-- The bytes of a text literal.
abbrev pub codes : String → List ℕ
codes String.[] = []
codes (String.◌∷◌ c s) = code c ∷ codes s
