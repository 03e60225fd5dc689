-- ===== src/Libc/Tokens.antt =====
-- `strtok` on the parts that a delimiter joins.
use so.Base.{List, [], arith, refl, some, ℕ, ◌++◌, ◌∷◌, ◌≡◌, ◌≢◌, All, ne→==}
use so.Libc.Strings.{skip_delims, strtok, token, until}

until-append : (d : ℕ) (s r : List ℕ) → All (λ b. b ≢ d) s → until d (s ++ d ∷ r) ≡ (s, r)
unfolding until
until-append d [] r h = ground arith
until-append d (b ∷ s) r h = ground (arith, until-append d s r)

until_end : (d : ℕ) (s : List ℕ) → All (λ b. b ≢ d) s → until d s ≡ (s, [])
unfolding until
until_end d [] h = refl
until_end d (b ∷ s) h = ground (arith, until_end d s)

pub strtok_first :
    (d : ℕ) (s r : List ℕ) → s ≢ [] → All (λ b. b ≢ d) s → strtok d (s ++ d ∷ r) ≡ (some s, r)
unfolding strtok skip_delims token
strtok_first d [] r ne h = absurd (ne refl)
strtok_first d (b ∷ s) r ne h = rw (ne→== b d h.0, until-append d (b ∷ s) r h) refl

pub strtok_last : (d : ℕ) (s : List ℕ) → s ≢ [] → All (λ b. b ≢ d) s → strtok d s ≡ (some s, [])
unfolding strtok skip_delims token
strtok_last d [] ne h = absurd (ne refl)
strtok_last d (b ∷ s) ne h = rw (ne→== b d h.0, until_end d (b ∷ s) h) refl
