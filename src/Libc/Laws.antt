-- ===== src/Libc/Laws.antt =====
-- Laws of the string functions.
use so.Base.{
  ℕ, suc, ◌-◌, ◌≤◌, ◌≡◌, ◌≢◌, refl, ap, List, [], ◌∷◌, ◌++◌, true, arith, length, take, replicate,
  length-append, length-take, length-replicate, take_all, ne→==, All, append_assoc,
}
use so.Libc.Strings.{c_string, same_string, strncpy}

pub length-strncpy : (src : List ℕ) (n : ℕ) → length (strncpy src n) ≡ n
unfolding strncpy
length-strncpy src n = omega (
  arith,
  length-append (take n src) (replicate (n - length src) 0),
  length-take n src,
  length-replicate {A = ℕ} (n - length src) 0,
)

-- `strcmp` finds no difference exactly when the strings are equal.
pub same_string→eq : (s t : List ℕ) → same_string s t ≡ true → s ≡ t
unfolding same_string
same_string→eq [] [] h = refl
same_string→eq [] (b ∷ bs) h = cc
same_string→eq (a ∷ s) [] h = cc
same_string→eq (a ∷ s) (b ∷ t) h = ground (arith, same_string→eq s t)

pub same_string_refl : (s : List ℕ) → same_string s s ≡ true
unfolding same_string
same_string_refl [] = refl
same_string_refl (a ∷ s) = ground (arith, same_string_refl s)

-- A string with no NUL in it is read back from an array that has a NUL behind it.
pub c_string-append_zero : (s r : List ℕ) → All (λ b. b ≢ 0) s → c_string (s ++ 0 ∷ r) ≡ s
unfolding c_string
c_string-append_zero [] r h = refl
c_string-append_zero (b ∷ s) r h =
    rw (ne→== b 0 h.0) (ap (λ t. b ∷ t) (c_string-append_zero s r h.1))

-- The text of a string shorter than the array survives `strncpy`.
pub c_string-strncpy :
    (s r : List ℕ) (n : ℕ)
    → suc (length s) ≤ n
    → All (λ b. b ≢ 0) s
    → c_string (strncpy s n ++ r) ≡ s
unfolding strncpy
c_string-strncpy s r n lt h =
    let room : n - length s ≡ suc (n - length s - 1) = omega arith in
    rw (take_all n s (omega arith), room, append_assoc)
      (c_string-append_zero s (replicate (n - length s - 1) 0 ++ r) h)
