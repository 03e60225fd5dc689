-- ===== src/Libc/Paths.antt =====
-- `dirname` and `basename` of <libgen.h>, as POSIX describes them, and sprintf of "%s/%d".
use so.Base.{
  List, Option, [], inl, inr, none, refl, some, ℕ, ◌++◌, ◌∷◌, ◌≡◌, ◌≢◌, All, Bool-cases,
  if◌then◌else◌, ne→==, ◌==◌,
}

-- The path without the slashes at its end.
unfoldable pub strip_slashes : List ℕ → List ℕ
strip_slashes [] = []
strip_slashes (b ∷ bs) = elim (strip_slashes bs) [
  | [] ↦ if b == b'/' then [] else b ∷ []
  | c ∷ cs ↦ b ∷ c ∷ cs
]

-- What stands behind the last slash of a path, `found` if no slash is left.
unfoldable pub behind_slash : List ℕ → List ℕ → List ℕ
behind_slash found [] = found
behind_slash found (b ∷ bs) =
    let rest = behind_slash bs bs in
    let same = behind_slash found bs in if b == b'/' then rest else same

-- What stands in front of the last slash; none without a slash.
unfoldable pub before_slash : List ℕ → Option (List ℕ)
before_slash [] = none
before_slash (b ∷ bs) = elim (before_slash bs) [
  | some dir ↦ some (b ∷ dir)
  | none ↦ if b == b'/' then some [] else none
]

unfoldable pub basename : List ℕ → List ℕ
basename path = elim (strip_slashes path) [
  | [] ↦ elim path [ [] ↦ b'.' ∷ [] | c ∷ cs ↦ b'/' ∷ [] ]
  | b ∷ bs ↦ behind_slash (b ∷ bs) (b ∷ bs)
]

unfoldable pub root_or : List ℕ → List ℕ
root_or [] = b'/' ∷ []
root_or (b ∷ bs) = b ∷ bs

unfoldable pub dirname : List ℕ → List ℕ
dirname path = elim (before_slash (strip_slashes path)) [
  | none ↦ elim path [ [] ↦ b'.' ∷ [] | c ∷ cs ↦ if c == b'/' then b'/' ∷ [] else b'.' ∷ [] ]
  | some dir ↦ root_or (strip_slashes dir)
]

abbrev pub NoSlash : List ℕ → Type 0
NoSlash bs = All (λ b. b ≢ b'/') bs

strip_slashes_same : (bs : List ℕ) → NoSlash bs → strip_slashes bs ≡ bs
unfolding strip_slashes
strip_slashes_same [] h = refl
strip_slashes_same (b ∷ []) h = rw (ne→== b b'/' h.0) refl
strip_slashes_same (b ∷ c ∷ bs) h = rw (strip_slashes_same (c ∷ bs) h.1) refl

strip_slashes-cons :
    (x c : ℕ) (rest cs : List ℕ)
    → strip_slashes rest ≡ c ∷ cs
    → strip_slashes (x ∷ rest) ≡ x ∷ c ∷ cs
unfolding strip_slashes
strip_slashes-cons x c rest cs e = rw e refl

strip_slashes_keep :
    (xs : List ℕ) (y : ℕ) (ys : List ℕ)
    → strip_slashes (y ∷ ys) ≡ y ∷ ys
    → strip_slashes (xs ++ y ∷ ys) ≡ xs ++ y ∷ ys
strip_slashes_keep [] y ys h = h
strip_slashes_keep (x ∷ []) y ys h = strip_slashes-cons x y (y ∷ ys) ys h
strip_slashes_keep (x ∷ z ∷ xs) y ys h =
    strip_slashes-cons x z (z ∷ (xs ++ y ∷ ys)) (xs ++ y ∷ ys) (strip_slashes_keep (z ∷ xs) y ys h)

behind_slash_none : (found bs : List ℕ) → NoSlash bs → behind_slash found bs ≡ found
unfolding behind_slash
behind_slash_none found [] h = refl
behind_slash_none found (b ∷ bs) h = rw (ne→== b b'/' h.0) (behind_slash_none found bs h.1)

behind_slash_last : (found xs ys : List ℕ) → NoSlash ys → behind_slash found (xs ++ b'/' ∷ ys) ≡ ys
unfolding behind_slash
behind_slash_last found [] ys h = behind_slash_none ys ys h
behind_slash_last found (x ∷ xs) ys h = elim (Bool-cases (x == b'/')) [
  | inl y ↦ rw y (behind_slash_last (xs ++ b'/' ∷ ys) xs ys h)
  | inr n ↦ rw n (behind_slash_last found xs ys h)
]

before_slash-none : (bs : List ℕ) → NoSlash bs → before_slash bs ≡ none
unfolding before_slash
before_slash-none [] h = refl
before_slash-none (b ∷ bs) h = rw (before_slash-none bs h.1, ne→== b b'/' h.0) refl

before_slash_last : (xs ys : List ℕ) → NoSlash ys → before_slash (xs ++ b'/' ∷ ys) ≡ some xs
unfolding before_slash
before_slash_last [] ys h = rw (before_slash-none ys h) refl
before_slash_last (x ∷ xs) ys h = rw (before_slash_last xs ys h) refl

strip_name :
    (root : List ℕ) (y : ℕ) (name : List ℕ)
    → NoSlash (y ∷ name)
    → strip_slashes (root ++ b'/' ∷ y ∷ name) ≡ root ++ b'/' ∷ y ∷ name
strip_name root y name h =
    strip_slashes_keep root b'/' (y ∷ name)
      (strip_slashes_keep (b'/' ∷ []) y name (strip_slashes_same (y ∷ name) h))

-- The parts of a path that ends in a name.
pub dirname-basename :
    (root : List ℕ) (y : ℕ) (name : List ℕ)
    → NoSlash (y ∷ name)
    → root ≢ []
    → strip_slashes root ≡ root
    → (dirname (root ++ b'/' ∷ y ∷ name) ≡ root) × (basename (root ++ b'/' ∷ y ∷ name) ≡ y ∷ name)
unfolding dirname basename root_or before_slash strip_slashes
dirname-basename [] y name h filled plain = absurd (filled refl)
dirname-basename (r ∷ root) y name h filled plain = (
  rw (strip_name (r ∷ root) y name h, before_slash_last (r ∷ root) (y ∷ name) h, plain) refl,
  rw (strip_name (r ∷ root) y name h)
      (behind_slash_last ((r ∷ root) ++ b'/' ∷ y ∷ name) (r ∷ root) (y ∷ name) h),
)
