-- ===== src/Ipc/Clients.antt =====
-- A family of client processes, of which one moves at a time.
use so.Base.{arith, ℕ, ℕ_discrete, ◌≡◌, ◌≢◌, if◌then◌else◌, ◌==◌}

abbrev pub update {ℓ} : {A : Type ℓ} → (ℕ → A) → ℕ → A → ℕ → A
update f i a j = if i == j then a else f j

pub update_self {ℓ} : {A : Type ℓ} (f : ℕ → A) (i : ℕ) (a : A) → update f i a i ≡ a
update_self f i a = ground arith

pub update-ne {ℓ} : {A : Type ℓ} (f : ℕ → A) (i : ℕ) (a : A) (j : ℕ) → i ≢ j → update f i a j ≡ f j
update-ne f i a j h = ground arith

-- What relates two families at every index holds after an update of both.
pub update-both {ℓ κ μ} :
    {A : Type ℓ} {B : Type κ} (P : A → B → Type μ) (f : ℕ → A) (g : ℕ → B) (i : ℕ) {a : A} {b : B}
    → ((j : ℕ) → P (f j) (g j))
    → P a b
    → (j : ℕ) → P (update f i a j) (update g i b j)
update-both P f g i {a} {b} all new j = elim (ℕ_discrete i j) [
  | yes e ↦ rw (← e, update_self f i a, update_self g i b) new
  | no n ↦ rw (update-ne f i a j n, update-ne g i b j n) (all j)
]
