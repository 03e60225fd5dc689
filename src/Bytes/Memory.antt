-- ===== src/Bytes/Memory.antt =====
-- Writing and reading the integer types of <stdint.h>. A read outside the buffer is `none`.
use so.Base.{
  ℕ, zero, suc, ◌+◌, ◌*◌, ◌/◌, ◌%◌, Option, none, some, List, [], ◌∷◌, ◌++◌, get_elem?, drop,
}
use so.Base.Int.{ℤ, to_u32, of_u32}

infixl 5 ◌>>=◌
abbrev pub ◌>>=◌ {ℓ κ} : {A : Type ℓ} {B : Type κ} → Option A → (A → Option B) → Option B
none >>= f = none
some a >>= f = f a

unfoldable pub put_u16 : ℕ → List ℕ
put_u16 n = n % 256 ∷ n / 256 % 256 ∷ []

unfoldable pub put_u32 : ℕ → List ℕ
put_u32 n = n % 256 ∷ n / 256 % 256 ∷ n / 65536 % 256 ∷ n / 16777216 % 256 ∷ []

unfoldable pub put_i32 : ℤ → List ℕ
put_i32 z = put_u32 (to_u32 z)

-- The integer at the start of a buffer.
unfoldable pub first_u16 : List ℕ → Option ℕ
first_u16 (a ∷ b ∷ bs) = some (a + 256 * b)
first_u16 _ = none

unfoldable pub first_u32 : List ℕ → Option ℕ
first_u32 (a ∷ b ∷ c ∷ d ∷ bs) = some (a + 256 * b + 65536 * c + 16777216 * d)
first_u32 _ = none

unfoldable pub first_i32 : List ℕ → Option ℤ
first_i32 bs = do n ← first_u32 bs; some (of_u32 n)

-- The integer at an offset.
unfoldable pub get_u8 : List ℕ → ℕ → Option ℕ
get_u8 bs off = get_elem? bs off

unfoldable pub get_u16 : List ℕ → ℕ → Option ℕ
get_u16 bs off = first_u16 (drop off bs)

unfoldable pub get_i32 : List ℕ → ℕ → Option ℤ
get_i32 bs off = first_i32 (drop off bs)

-- An array of `n` int32_t at the start of a buffer.
unfoldable pub first_i32s : ℕ → List ℕ → Option (List ℤ)
first_i32s zero bs = some []
first_i32s (suc n) bs = do z ← first_i32 bs; zs ← first_i32s n (drop 4 bs); some (z ∷ zs)

unfoldable pub put_i32s : List ℤ → List ℕ
put_i32s [] = []
put_i32s (z ∷ zs) = put_i32 z ++ put_i32s zs
