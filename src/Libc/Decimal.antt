-- ===== src/Libc/Decimal.antt =====
-- The conversion `%d` of printf on a number that is not negative, and `atoi` of its result.
use so.Base.{
  List, [], ap, arith, false, inl, inr, refl, suc, true, zero, ℕ, ◌%◌, ◌*◌, ◌++◌, ◌+◌, ◌-◌, ◌/◌,
  ◌<◌, ◌∙◌, ◌∷◌, ◌≡◌, ◌≢◌, ◌≤◌, All, Bool-cases, if◌then◌else◌, ltb, ◌==◌,
}
use so.Base.Int.{pos}
use so.Libc.Strings.{atoi, digits_value, is_digit, is_space}

-- The digits of `n`, with fuel: `suc n` is enough, as each digit makes the number smaller.
unfoldable pub decimal_from : ℕ → ℕ → List ℕ
decimal_from zero n = []
decimal_from (suc fuel) n =
    let rest = decimal_from fuel (n / 10) in
    if ltb n 10 then (b'0' + n) ∷ [] else rest ++ (b'0' + n % 10) ∷ []

unfoldable pub decimal : ℕ → List ℕ
decimal n = decimal_from (suc n) n

abbrev pub IsDigit : ℕ → Type 0
IsDigit b = (48 ≤ b) × (b < 58)

All-snoc : (bs : List ℕ) (b : ℕ) → All IsDigit bs → IsDigit b → All IsDigit (bs ++ b ∷ [])
All-snoc [] b all new = (new, tt)
All-snoc (x ∷ bs) b all new = (all.0, All-snoc bs b all.1 new)

decimal_from-IsDigit : (fuel n : ℕ) → All IsDigit (decimal_from fuel n)
unfolding decimal_from
decimal_from-IsDigit zero n = tt
decimal_from-IsDigit (suc fuel) n =
    let rest = decimal_from-IsDigit fuel (n / 10) in
    elim (Bool-cases (ltb n 10)) [
      | inl y ↦ rw y ((omega arith, ground arith), tt)
      | inr more ↦ rw more (All-snoc _ (48 + n % 10) rest (omega arith, omega arith))
    ]

pub decimal-IsDigit : (n : ℕ) → All IsDigit (decimal n)
unfolding decimal
decimal-IsDigit n = decimal_from-IsDigit (suc n) n

is_digit-IsDigit : (b : ℕ) → IsDigit b → is_digit b ≡ true
is_digit-IsDigit b h = ground arith

digits_value-snoc :
    (bs : List ℕ) (b acc : ℕ)
    → All IsDigit bs
    → IsDigit b
    → digits_value (bs ++ b ∷ []) acc ≡ digits_value bs acc * 10 + (b - 48)
unfolding digits_value
digits_value-snoc [] b acc all new = rw (is_digit-IsDigit b new) refl
digits_value-snoc (x ∷ bs) b acc all new =
    rw (is_digit-IsDigit x all.0) (digits_value-snoc bs b (acc * 10 + (x - 48)) all.1 new)

digits_value-decimal_from : (fuel n : ℕ) → n < fuel → digits_value (decimal_from fuel n) 0 ≡ n
unfolding decimal_from
digits_value-decimal_from zero n h = absurd (omega arith)
digits_value-decimal_from (suc fuel) n h = elim (Bool-cases (ltb n 10)) [
  | inl y ↦
      let one : is_digit (48 + n) ≡ true = ground arith in
      rw y (unfold digits_value in rw one (omega arith))
  | inr more ↦
      let large : 10 ≤ n = ground arith in
      let rest = digits_value-decimal_from fuel (n / 10) (omega arith) in
      let last =
        digits_value-snoc (decimal_from fuel (n / 10)) (48 + n % 10) 0
          (decimal_from-IsDigit fuel (n / 10)) (omega arith, omega arith) in
      rw (more, last, rest) (omega arith)
]

atoi_digits : (bs : List ℕ) → All IsDigit bs → atoi bs ≡ pos (digits_value bs 0)
unfolding atoi digits_value
atoi_digits [] h = refl
atoi_digits (b ∷ bs) h =
    let solid : is_space b ≡ false = ground (arith, h.0) in
    let unsigned : (b == 45) ≡ false = ground (arith, h.0) in
    let plain : (b == 43) ≡ false = ground (arith, h.0) in rw (solid, unsigned, plain) refl

-- `atoi` reads back what `%d` printed.
pub atoi-decimal : (n : ℕ) → atoi (decimal n) ≡ pos n
atoi-decimal n =
    atoi_digits (decimal n) (decimal-IsDigit n)
    ∙ ap pos (unfold decimal in digits_value-decimal_from (suc n) n (omega arith))

snoc_filled : (bs : List ℕ) (b : ℕ) → bs ++ b ∷ [] ≢ []
snoc_filled [] b e = cc
snoc_filled (x ∷ bs) b e = cc

-- Every number has a first digit.
pub decimal_filled : (n : ℕ) → decimal n ≢ []
unfolding decimal decimal_from
decimal_filled n e = elim (Bool-cases (ltb n 10)) [
  | inl y ↦ absurd (cons_filled (rw y at e))
  | inr more ↦ absurd (snoc_filled (decimal_from n (n / 10)) (b'0' + n % 10) (rw more at e))
]
  where
    cons_filled : ¬ ((b'0' + n) ∷ [] ≡ [])
    cons_filled f = cc
