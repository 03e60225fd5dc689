-- ===== src/Ipc/SelectServer/Slots.antt =====
-- The operations on the array of descriptors, and the list of clients that it stands for.
use so.Base.{
  List, [], ap, append-nil, append_assoc, arith, false, inl, inr, refl, some, suc, sym, true, zero,
  ℕ, ◌++◌, ◌+◌, ◌<◌, ◌∙◌, ◌∷◌, ◌≡◌, ◌≤◌, drop, get_elem?, length, length-append, length-take, set,
  set-append, take, take-append, ==→eq, Bool-cases, if◌then◌else◌, ◌==◌,
}
use so.Base.Int.{ℤ}
use so.Ipc.SelectServer.Clients.{
  Clients, is_closed, maxclients, move_down, reorganize_clients_array,
}

-- The descriptors in use.
abbrev pub clients_of : Clients → List ℤ
clients_of c = take c.ncli c.cfd

unfoldable pub open_ones : List ℤ → List ℤ
open_ones [] = []
open_ones (fd ∷ fds) = if is_closed fd then open_ones fds else fd ∷ open_ones fds

-- The array has its full size, and a place is free.
pub record IsClients (c : Clients) : Type 0 where
  pub sized : length c.cfd ≡ maxclients
  pub below : c.ncli < maxclients

get_elem?-append {ℓ} :
    {A : Type ℓ} (xs : List A) (y : A) (ys : List A) (i : ℕ)
    → i ≡ length xs
    → get_elem? (xs ++ y ∷ ys) i ≡ some y
get_elem?-append [] y ys zero h = refl
get_elem?-append [] y ys (suc i) h = absurd (omega arith)
get_elem?-append (x ∷ xs) y ys zero h = absurd (omega arith)
get_elem?-append (x ∷ xs) y ys (suc i) h = get_elem?-append xs y ys i (omega arith)

pub take-drop {ℓ} : {A : Type ℓ} (n : ℕ) (xs : List A) → take n xs ++ drop n xs ≡ xs
take-drop zero xs = refl
take-drop (suc n) [] = refl
take-drop (suc n) (x ∷ xs) = ap (λ t. x ∷ t) (take-drop n xs)

-- Writing behind `kept` what stands in front of `todo`.
moved :
    (kept gap : List ℤ) (fd : ℤ) (rest : List ℤ)
    → (gap' : List ℤ) × (set (kept ++ (gap ++ fd ∷ rest)) (length kept) fd
        ≡ (kept ++ fd ∷ []) ++ (gap' ++ rest))
      × (length (gap' ++ rest) ≡ length (gap ++ rest))
      × (length gap' ≡ length gap)
moved kept [] fd rest = (
  [],
  set-append kept fd rest (length kept) fd refl ∙ sym (append_assoc kept (fd ∷ []) rest),
  refl,
  refl,
)
moved kept (g ∷ gap) fd rest = (
  gap ++ fd ∷ [],
  rw (set-append kept g (gap ++ fd ∷ rest) (length kept) fd refl) (simp append_assoc),
  omega (
    arith,
    length-append (gap ++ fd ∷ []) rest,
    length-append gap (fd ∷ []),
    length-append (g ∷ gap) rest,
  ),
  omega (arith, length-append gap (fd ∷ [])),
)

step_closed :
    (left i j : ℕ) (array : List ℤ) (fd : ℤ)
    → get_elem? array i ≡ some fd
    → is_closed fd ≡ true
    → move_down (suc left) i j array ≡ move_down left (i + 1) j array
unfolding move_down
step_closed left i j array fd h y = ground arith

step_open :
    (left i j : ℕ) (array : List ℤ) (fd : ℤ)
    → get_elem? array i ≡ some fd
    → is_closed fd ≡ false
    → move_down (suc left) i j array ≡ move_down left (i + 1) (j + 1) (set array j fd)
unfolding move_down
step_open left i j array fd h n = ground arith

-- The loop moves the open descriptors of `todo` down to `kept`, in place.
move_down-open :
    (todo kept gap tail : List ℤ) (i j : ℕ)
    → j ≡ length kept
    → i ≡ length (kept ++ gap)
    → (rest : List ℤ) × (move_down (length todo) i j (kept ++ (gap ++ (todo ++ tail)))
        ≡ ((kept ++ open_ones todo) ++ rest, length (kept ++ open_ones todo)))
      × (length ((kept ++ open_ones todo) ++ rest) ≡ length (kept ++ (gap ++ (todo ++ tail))))
unfolding move_down open_ones
move_down-open [] kept gap tail i j hj hi =
    (gap ++ tail, rw (append-nil kept, hj) refl, rw (append-nil kept) refl)
move_down-open (fd ∷ todo) kept gap tail i j hj hi =
    let array = kept ++ (gap ++ (fd ∷ todo ++ tail)) in
    let here : get_elem? array i ≡ some fd =
      rw (← append_assoc kept gap (fd ∷ todo ++ tail))
        (get_elem?-append (kept ++ gap) fd (todo ++ tail) i hi) in
    elim (Bool-cases (is_closed fd)) [
      | inl y ↦
          let shape : kept ++ ((gap ++ fd ∷ []) ++ (todo ++ tail)) ≡ array = simp append_assoc in
          let (rest, e, size) = move_down-open todo kept (gap ++ fd ∷ []) tail (i + 1) j hj (
            omega (
              arith,
              length-append kept gap,
              length-append kept (gap ++ fd ∷ []),
              length-append gap (fd ∷ []),
            )) in
          (
            rest,
            step_closed (length todo) i j array fd here y ∙ rw y (rw shape at e),
            rw y (size ∙ ap length shape),
          )
      | inr n ↦
          let (gap', at, same, long) = moved kept gap fd (todo ++ tail) in
          let (rest, e, size) =
            move_down-open todo (kept ++ fd ∷ []) gap' tail (i + 1) (j + 1)
              (omega (arith, length-append kept (fd ∷ [])))
              (omega (
                arith,
                length-append kept gap,
                length-append (kept ++ fd ∷ []) gap',
                length-append kept (fd ∷ []),
              )) in
          let shape : (kept ++ fd ∷ []) ++ open_ones todo ≡ kept ++ fd ∷ open_ones todo =
            append_assoc kept (fd ∷ []) (open_ones todo) in
          let size' : length ((kept ++ fd ∷ open_ones todo) ++ rest)
              ≡ length ((kept ++ fd ∷ []) ++ (gap' ++ (todo ++ tail))) =
            ap (λ t. length (t ++ rest)) (sym shape) ∙ size in
          (
            rest,
            step_open (length todo) i j array fd here n ∙ rw (n, hj, at) (rw (shape, hj) at e),
            rw n (
                omega (
                  arith,
                  size',
                  length-append (kept ++ fd ∷ []) (gap' ++ (todo ++ tail)),
                  same,
                  length-append kept (fd ∷ []),
                  length-append kept (gap ++ (fd ∷ todo ++ tail)),
                  length-append gap (todo ++ tail),
                  length-append gap (fd ∷ todo ++ tail),
                )),
          )
    ]

-- `reorganize_clients_array` leaves in use the descriptors that are not -1, in their order, within the
-- array and its size.
pub reorganize_clients_array-open :
    (c : Clients)
    → c.ncli ≤ length c.cfd
    → (clients_of (reorganize_clients_array c) ≡ open_ones (clients_of c))
      × (length (reorganize_clients_array c).cfd ≡ length c.cfd)
      × ((reorganize_clients_array c).ncli ≡ length (open_ones (clients_of c)))
unfolding reorganize_clients_array
reorganize_clients_array-open c h = elim (Bool-cases (c.ncli == 0)) [
  | inl y ↦
      let none_used : c.ncli ≡ 0 = ==→eq _ _ y in
      rw (y, none_used) (unfold open_ones in (refl, refl, refl))
  | inr n ↦
      let used : length (clients_of c) ≡ c.ncli = omega (arith, length-take c.ncli c.cfd) in
      let (rest, e, size) = move_down-open (clients_of c) [] [] (drop c.ncli c.cfd) 0 0 refl refl in
      let moved_down : move_down c.ncli 0 0 c.cfd
          ≡ (open_ones (clients_of c) ++ rest, length (open_ones (clients_of c))) =
        rw (used, take-drop c.ncli c.cfd) at e in
      rw (n, moved_down)
        (
          take-append (length (open_ones (clients_of c))) (open_ones (clients_of c)) rest refl,
          size ∙ ap length (take-drop c.ncli c.cfd),
          refl,
        )
]
