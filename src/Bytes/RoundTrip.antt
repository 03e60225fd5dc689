-- ===== src/Bytes/RoundTrip.antt =====
-- What is written is read back, whatever follows it.
use so.Base.{
  List, Option, [], ap, append-nil, append_assoc, arith, none, refl, some, suc, zero, ℕ, ◌%◌, ◌*◌,
  ◌++◌, ◌+◌, ◌<◌, ◌^◌, ◌∷◌, ◌≡◌, ◌≤◌, All, drop, length, length-drop, take,
}
use so.Base.Int.{IsI32, negsuc, of_u32, of_u32-to_u32, pos, to_u32, ℤ}
use so.Bytes.Memory.{
  first_i32, first_i32s, first_u16, first_u32, get_i32, get_u16, put_i32, put_i32s, put_u16,
  put_u32, ◌>>=◌,
}

pub first_u16-put_u16 : (n : ℕ) (r : List ℕ) → first_u16 (put_u16 n ++ r) ≡ some (n % 65536)
unfolding first_u16 put_u16
first_u16-put_u16 n r = ap some (omega arith)

pub first_u32-put_u32 : (n : ℕ) (r : List ℕ) → n < 2 ^ 32 → first_u32 (put_u32 n ++ r) ≡ some n
unfolding first_u32 put_u32
first_u32-put_u32 n r h = ap some (omega arith)

to_u32-lt : (z : ℤ) → to_u32 z < 2 ^ 32
to_u32-lt (pos n) = omega arith
to_u32-lt (negsuc n) = omega arith

pub first_i32-put_i32 : (z : ℤ) (r : List ℕ) → IsI32 z → first_i32 (put_i32 z ++ r) ≡ some z
unfolding first_i32 put_i32
first_i32-put_i32 z r h =
    rw (first_u32-put_u32 (to_u32 z) r (to_u32-lt z)) (ap some (of_u32-to_u32 z h))

pub length-put_i32s : (zs : List ℤ) → length (put_i32s zs) ≡ 4 * length zs
unfolding put_i32s put_i32 put_u32
length-put_i32s [] = refl
length-put_i32s (z ∷ zs) = omega (arith, length-put_i32s zs)

drop-put_i32 : (z : ℤ) (r : List ℕ) → drop 4 (put_i32 z ++ r) ≡ r
unfolding put_i32 put_u32
drop-put_i32 z r = refl

pub first_i32s-put_i32s :
    (zs : List ℤ) (n : ℕ) (r : List ℕ)
    → length zs ≡ n
    → All IsI32 zs
    → first_i32s n (put_i32s zs ++ r) ≡ some zs
unfolding first_i32s put_i32s
first_i32s-put_i32s [] zero r e h = refl
first_i32s-put_i32s [] (suc n) r e h = absurd (omega arith)
first_i32s-put_i32s (z ∷ zs) zero r e h = absurd (omega arith)
first_i32s-put_i32s (z ∷ zs) (suc n) r e h = rw (
  append_assoc,
  first_i32-put_i32 z (put_i32s zs ++ r) h.0,
  drop-put_i32 z (put_i32s zs ++ r),
  first_i32s-put_i32s zs n r (omega arith) h.1,
)

-- A chain that succeeds: its first step did, and the rest on the value of that step.
pub >>=-eq-some {ℓ κ} :
    {A : Type ℓ} {B : Type κ} (o : Option A) (f : A → Option B) {b : B}
    → (o >>= f) ≡ some b
    → (a : A) × (o ≡ some a) × (f a ≡ some b)
>>=-eq-some none f e = cc
>>=-eq-some (some a) f e = (a, refl, e)

-- A read inside the buffer succeeds.
pub get_u16-total :
    (bs : List ℕ) (off : ℕ) → off + 2 ≤ length bs → (n : ℕ) × (get_u16 bs off ≡ some n)
unfolding get_u16
get_u16-total bs off h = first (drop off bs) (omega (arith, length-drop off bs))
  where
    first : (cs : List ℕ) → 2 ≤ length cs → (n : ℕ) × (first_u16 cs ≡ some n)
    first [] k = absurd (omega arith)
    first (a ∷ []) k = absurd (omega arith)
    first (a ∷ b ∷ cs) k = (a + 256 * b, unfold first_u16 in refl)

pub get_i32-total :
    (bs : List ℕ) (off : ℕ) → off + 4 ≤ length bs → (z : ℤ) × (get_i32 bs off ≡ some z)
unfolding get_i32 first_i32
get_i32-total bs off h = first (drop off bs) (omega (arith, length-drop off bs))
  where
    first : (cs : List ℕ) → 4 ≤ length cs → (z : ℤ) × (first_i32 cs ≡ some z)
    first [] k = absurd (omega arith)
    first (a ∷ []) k = absurd (omega arith)
    first (a ∷ b ∷ []) k = absurd (omega arith)
    first (a ∷ b ∷ c ∷ []) k = absurd (omega arith)
    first (a ∷ b ∷ c ∷ d ∷ cs) k =
        (of_u32 (a + 256 * b + 65536 * c + 16777216 * d), unfold first_u32 in refl)

-- The same at the end of a buffer.
pub first_i32-put_i32_last : (z : ℤ) → IsI32 z → first_i32 (put_i32 z) ≡ some z
first_i32-put_i32_last z h = rw append-nil at (first_i32-put_i32 z [] h)

pub first_u16-put_u16_last : (n : ℕ) → first_u16 (put_u16 n) ≡ some (n % 65536)
first_u16-put_u16_last n = rw append-nil at (first_u16-put_u16 n [])

-- An integer takes up its size.
pub take-put_u16 : (n : ℕ) → take 2 (put_u16 n) ≡ put_u16 n
unfolding put_u16
take-put_u16 n = refl

pub take-put_i32 : (z : ℤ) → take 4 (put_i32 z) ≡ put_i32 z
unfolding put_i32 put_u32
take-put_i32 z = refl

pub drop-put_u16 : (n : ℕ) (r : List ℕ) → drop 2 (put_u16 n ++ r) ≡ r
unfolding put_u16
drop-put_u16 n r = refl
