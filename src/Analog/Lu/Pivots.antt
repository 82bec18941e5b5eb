-- ===== src/Analog/Lu/Pivots.antt =====
-- analog/circuit/Circuit.cpp, `luFactor`: the rows that `piv_` names.
use phu_audio_lib.Base.{
  ℕ, zero, suc, ◌+◌, ◌-◌, ◌≤◌, ◌<◌, ◌*◌, pos, ◌≡◌, refl, ◌∙◌, arith, ◌&&◌, ◌==◌, ltb, leb, List, [],
  ◌∷◌, length, get_or, set, length-set, get_or-set, if◌then◌else◌, Bool-cases, inl, inr,
}
use phu_audio_lib.Double.{Double}
use phu_audio_lib.Analog.Elements.{nought}
use phu_audio_lib.Analog.Lu.{iota, swap_at, find_pivot, factor_step, factor_from, lu_factor}

-- How often a list holds a number.
abbrev pub count : ℕ → List ℕ → ℕ
count a [] = 0
count a (x ∷ xs) = (if x == a then 1 else 0) + count a xs

length-iota : (n i : ℕ) → length (iota n i) ≡ n
unfolding iota
length-iota zero i = refl
length-iota (suc n) i = omega (arith, length-iota n (suc i))

count-iota : (a n i : ℕ) → count a (iota n i) ≡ (if leb i a && ltb a (i + n) then 1 else 0)
unfolding iota
count-iota a zero i = ground arith
count-iota a (suc n) i = ground (arith, count-iota a n (suc i))

count-set :
    (a : ℕ) (xs : List ℕ) (i v : ℕ)
    → i < length xs
    → count a (set xs i v) + (if get_or xs i 0 == a then 1 else 0)
      ≡ count a xs + (if v == a then 1 else 0)
count-set a [] i v h = absurd (omega arith)
count-set a (x ∷ xs) zero v h = omega arith
count-set a (x ∷ xs) (suc i) v h = omega (arith, count-set a xs i v (omega arith))

count-swap_at :
    (a : ℕ) (xs : List ℕ) (i j : ℕ)
    → i < length xs
    → j < length xs
    → count a (swap_at 0 i j xs) ≡ count a xs
unfolding swap_at
count-swap_at a xs i j hi hj =
    let first = set xs i (get_or xs j 0) in
    let same : get_or first j 0 ≡ get_or xs j 0 =
      get_or-set xs i j (get_or xs j 0) 0 hi ∙ ground arith in
    let c1 = count-set a xs i (get_or xs j 0) hi in
    let c2 : count a (set first j (get_or xs i 0)) + (if get_or xs j 0 == a then 1 else 0)
        ≡ count a first + (if get_or xs i 0 == a then 1 else 0) =
      rw same at
        (count-set a first j (get_or xs i 0) (omega (arith, length-set xs i (get_or xs j 0)))) in
    omega (arith, c1, c2)

length-swap_at : (xs : List ℕ) (i j : ℕ) → length (swap_at 0 i j xs) ≡ length xs
unfolding swap_at
length-swap_at xs i j =
    length-set (set xs i (get_or xs j 0)) j (get_or xs i 0) ∙ length-set xs i (get_or xs j 0)

module _ (d : Double) (size : ℕ) where
  find_pivot-lt :
      (rounds i k max_row : ℕ) (max_val : d.Carrier) (lu : List d.Carrier)
      → max_row < size
      → i + rounds ≤ size
      → (find_pivot d size rounds i k max_row max_val lu).0 < size
  unfolding find_pivot
  find_pivot-lt zero i k max_row max_val lu h g = h
  find_pivot-lt (suc rounds) i k max_row max_val lu h g =
      find_pivot-lt rounds (i + 1) k _ _ lu (ground arith) (omega arith)

  factor_step-pivots :
      (k max_row : ℕ) (lu : List d.Carrier) (piv : List ℕ)
      → k < size
      → max_row < size
      → length piv ≡ size
      → (length (factor_step d size k max_row (lu, piv)).1 ≡ size)
        × ((a : ℕ) → count a (factor_step d size k max_row (lu, piv)).1 ≡ count a piv)
  unfolding factor_step
  factor_step-pivots k max_row lu piv hk hm e = elim (Bool-cases (max_row == k)) [
    | inl same ↦ rw same (e, λ a. refl)
    | inr other ↦ rw other (
      length-swap_at piv k max_row ∙ e,
      λ a. count-swap_at a piv k max_row (omega arith) (omega arith),
    )
  ]

  factor_from-pivots :
      (rounds k : ℕ) (lu : List d.Carrier) (piv : List ℕ)
      → k + rounds ≤ size
      → length piv ≡ size
      → (length (factor_from d size rounds k (lu, piv)).0.1 ≡ size)
        × ((a : ℕ) → count a (factor_from d size rounds k (lu, piv)).0.1 ≡ count a piv)
  unfolding factor_from
  factor_from-pivots zero k lu piv h e = (e, λ a. refl)
  factor_from-pivots (suc rounds) k lu piv h e =
      let found =
        find_pivot d size (size - (k + 1)) (k + 1) k k (d.abs (get_or lu (k * size + k) (nought d)))
          lu in
      let step =
        factor_step-pivots k found.0 lu piv (omega arith)
          (find_pivot-lt (size - (k + 1)) (k + 1) k k _ lu (omega arith) (omega arith)) e in
      let next = factor_step d size k found.0 (lu, piv) in
      let rest = factor_from-pivots rounds (k + 1) next.0 next.1 (omega arith) step.0 in
      elim (Bool-cases (d.lt found.1 (d.lit (pos 1) 100000000000000))) [
        | inl singular ↦ rw singular (e, λ a. refl)
        | inr regular ↦ rw regular (rest.0, λ a. rest.1 a ∙ step.1 a)
      ]

  -- Whatever the matrix, and also where the factorisation stops at a singular column, `piv_` has an
  -- entry for each row of the matrix, and holds each row exactly once and nothing else.
  pub lu_factor-pivots :
      (m : List d.Carrier) (row : ℕ)
      → (length (lu_factor d size m).0.1 ≡ size)
        × (count row (lu_factor d size m).0.1 ≡ (if ltb row size then 1 else 0))
  unfolding lu_factor
  lu_factor-pivots m row =
      let (sized, counted) =
        factor_from-pivots size 0 m (iota size 0) (omega arith) (length-iota size 0) in
      (sized, counted row ∙ count-iota row size 0 ∙ ground arith)
