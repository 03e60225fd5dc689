-- ===== src/Ipc/SelectServer/Polling.antt =====
-- src/ipc/socket/socketsrv.c: the descriptors that `select` is given, and new clients.
use so.Base.{
  List, [], ap, append-nil, arith, false, inl, inr, refl, some, suc, sym, true, zero, ℕ, ◌++◌, ◌+◌,
  ◌-◌, ◌<◌, ◌∙◌, ◌∷◌, ◌≡◌, ◌≤◌, ◌⊎◌, All, get_elem?, length, length-set, set, take, Bool-cases,
  if◌then◌else◌, leb, ltb,
}
use so.Base.Int.{ltb_ℤ, ℤ}
use so.Ipc.SelectServer.Clients.{Clients, get_max_fd, max_from, maxclients, new_client}
use so.Ipc.SelectServer.Slots.{IsClients, clients_of}

-- The bound of the descriptors polled.
unfoldable pub AllUpTo : ℤ → List ℤ → Type 0
AllUpTo max fds = All (λ fd. ltb_ℤ max fd ≡ false) fds

ltb_ℤ-trans : (a b c : ℤ) → ltb_ℤ b a ≡ false → ltb_ℤ c b ≡ false → ltb_ℤ c a ≡ false
ltb_ℤ-trans a b c h k = ground arith

ltb_ℤ-asym : (a b : ℤ) → ltb_ℤ a b ≡ true → ltb_ℤ b a ≡ false
ltb_ℤ-asym a b h = ground arith

max_from-cons :
    (max fd : ℤ) (n : ℕ) (clis : List ℤ)
    → max_from max (suc n) (fd ∷ clis) ≡ max_from (if ltb_ℤ max fd then fd else max) n clis
unfolding max_from
max_from-cons max fd n clis = refl

max_from-end : (max : ℤ) (n : ℕ) → max_from max n [] ≡ max
unfolding max_from
max_from-end max zero = refl
max_from-end max (suc n) = refl

AllUpTo-cons :
    (max fd : ℤ) (fds : List ℤ) → ltb_ℤ max fd ≡ false → AllUpTo max fds → AllUpTo max (fd ∷ fds)
unfolding AllUpTo
AllUpTo-cons max fd fds h all = (h, all)

max_from-bound :
    (max : ℤ) (n : ℕ) (clis : List ℤ)
    → (ltb_ℤ (max_from max n clis) max ≡ false) × AllUpTo (max_from max n clis) (take n clis)
max_from-bound max zero clis = (unfold max_from in ground arith, unfold AllUpTo in tt)
max_from-bound max (suc n) [] = (rw (max_from-end max (suc n)) (ground arith), unfold AllUpTo in tt)
max_from-bound max (suc n) (fd ∷ clis) = elim (Bool-cases (ltb_ℤ max fd)) [
  | inl y ↦
      let (above, all) = max_from-bound fd n clis in
      rw (max_from-cons max fd n clis, y)
        (
          ltb_ℤ-trans max fd _ (ltb_ℤ-asym max fd y) above,
          AllUpTo-cons _ fd (take n clis) above all,
        )
  | inr not_less ↦
      let (above, all) = max_from-bound max n clis in
      rw (max_from-cons max fd n clis, not_less)
        (above, AllUpTo-cons _ fd (take n clis) (ltb_ℤ-trans fd max _ not_less above) all)
]

-- The result of the loop is where it began, or one of the descriptors.
max_from-member :
    (max : ℤ) (n : ℕ) (clis : List ℤ)
    → (max_from max n clis ≡ max)
      ⊎ ((k : ℕ) × (k < n) × (get_elem? clis k ≡ some (max_from max n clis)))
max_from-member max zero clis = inl (unfold max_from in refl)
max_from-member max (suc n) [] = inl (max_from-end max (suc n))
max_from-member max (suc n) (fd ∷ clis) =
    rw (max_from-cons max fd n clis) (elim (Bool-cases (ltb_ℤ max fd)) [
      | inl y ↦ rw y (elim (max_from-member fd n clis) [
        | inl e ↦ inr (0, omega arith, ap some (sym e))
        | inr (k, lt, e) ↦ inr (suc k, omega arith, e)
      ])
      | inr not_less ↦ rw not_less (elim (max_from-member max n clis) [
        | inl e ↦ inl e
        | inr (k, lt, e) ↦ inr (suc k, omega arith, e)
      ])
    ])

-- For at least one client, `get_max_fd` is one of the descriptors in use and none in use is larger.
pub get_max_fd-IsMax :
    (c : Clients)
    → 0 < c.ncli
    → c.ncli ≤ length c.cfd
    → AllUpTo (get_max_fd (some c.cfd) c.ncli) (clients_of c)
      × ((k : ℕ) × (k < c.ncli) × (get_elem? c.cfd k ≡ some (get_max_fd (some c.cfd) c.ncli)))
unfolding get_max_fd
get_max_fd-IsMax c used fits = of_array c.cfd c.ncli used fits
  where
    of_array :
        (cfd : List ℤ) (n : ℕ)
        → 0 < n
        → n ≤ length cfd
        → AllUpTo (get_max_fd (some cfd) n) (take n cfd)
          × ((k : ℕ) × (k < n) × (get_elem? cfd k ≡ some (get_max_fd (some cfd) n)))
    of_array [] n u h = absurd (omega arith)
    of_array (fd ∷ cfd) n u h =
        let some_used : ltb n 1 ≡ false = ground arith in
        rw some_used (
          (max_from-bound fd n (fd ∷ cfd)).1,
          elim (max_from-member fd n (fd ∷ cfd)) [ inl e ↦ (0, u, ap some (sym e)) | inr at ↦ at ],
        )

take-set {ℓ} :
    {A : Type ℓ} (xs : List A) (n m : ℕ) (v : A)
    → n < length xs
    → m ≡ suc n
    → take m (set xs n v) ≡ take n xs ++ v ∷ []
take-set xs n zero v h e = absurd (omega arith)
take-set [] n (suc m) v h e = absurd (omega arith)
take-set (x ∷ xs) zero (suc zero) v h e = refl
take-set (x ∷ xs) zero (suc (suc m)) v h e = absurd (omega arith)
take-set (x ∷ xs) (suc n) (suc m) v h e =
    ap (λ t. x ∷ t) (take-set xs n m v (omega arith) (omega arith))

take-set_same {ℓ} : {A : Type ℓ} (xs : List A) (n : ℕ) (v : A) → take n (set xs n v) ≡ take n xs
take-set_same [] n v = refl
take-set_same (x ∷ xs) zero v = refl
take-set_same (x ∷ xs) (suc n) v = ap (λ t. x ∷ t) (take-set_same xs n v)

-- On an array of ten places with at most nine in use, `new_client` keeps it so. With fewer than nine in use
-- the new descriptor joins them behind the others; with nine in use the new one is closed and does not join.
pub new_client-IsClients :
    (fd : ℤ) (c : Clients)
    → IsClients c
    → IsClients (new_client fd c).0
      × (clients_of (new_client fd c).0 ≡ clients_of c ++ (if ltb c.ncli 9 then fd ∷ [] else []))
      × ((new_client fd c).1 ≡ (if ltb c.ncli 9 then [] else fd ∷ []))
unfolding new_client
new_client-IsClients fd c v =
    let size : length (set c.cfd c.ncli fd) ≡ maxclients = length-set c.cfd c.ncli fd ∙ v.sized in
    elim (Bool-cases (ltb c.ncli 9)) [
      | inl y ↦
          let room : leb maxclients (c.ncli + 1) ≡ false = ground arith in
          let low : c.ncli < 9 = ground arith in
          rw
            (
              room,
              y,
              take-set c.cfd c.ncli (c.ncli + 1) fd (omega (arith, v.sized, v.below)) (omega arith),
            )
            (record { sized = size; below = omega arith }, refl, refl)
      | inr n ↦
          let full : leb maxclients (c.ncli + 1) ≡ true = ground (arith, v.below) in
          let same : c.ncli + 1 - 1 ≡ c.ncli = omega arith in
          rw (full, n, same, take-set_same c.cfd c.ncli fd)
            (record { sized = size; below = v.below }, sym (append-nil (clients_of c)), refl)
    ]
