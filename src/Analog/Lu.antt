-- ===== src/Analog/Lu.antt =====
-- analog/circuit/Circuit.cpp, `luFactor` and `luSolve`: a factorisation with partial pivoting in
-- place, and the two substitutions, on a row-major matrix of `size` rows. Each loop is a function of the
-- rounds left and the index of the next.
pub mod Pivots
use phu_audio_lib.Base.{
  ℕ, zero, suc, ◌+◌, ◌-◌, ◌*◌, ℤ, pos, ◌==◌, Bool, true, false, List, [], ◌∷◌, get_or, set, map,
  if◌then◌else◌,
}
use phu_audio_lib.Double.{Double}
use phu_audio_lib.Analog.Elements.{nought, one}

-- `std::iota` from `i` on.
pub iota : ℕ → ℕ → List ℕ
iota zero i = []
iota (suc k) i = i ∷ iota k (suc i)

pub swap_at {ℓ} : {A : Type ℓ} → A → ℕ → ℕ → List A → List A
swap_at default i j xs = set (set xs i (get_or xs j default)) j (get_or xs i default)

module _ (d : Double) (size : ℕ) where
  abbrev at : ℕ → ℕ → List d.Carrier → d.Carrier
  at r c m = get_or m (r * size + c) (nought d)

  -- The search for the largest value in column `k`, from row `i` on.
  pub find_pivot : ℕ → ℕ → ℕ → ℕ → d.Carrier → List d.Carrier → ℕ × d.Carrier
  find_pivot zero i k max_row max_val lu = (max_row, max_val)
  find_pivot (suc rounds) i k max_row max_val lu =
      let v = d.abs (at i k lu) in
      let larger = d.lt max_val v in
      find_pivot rounds (i + 1) k (if larger then i else max_row) (if larger then v else max_val) lu

  pub swap_rows : ℕ → ℕ → ℕ → ℕ → List d.Carrier → List d.Carrier
  unfolding swap_at
  swap_rows zero j r s lu = lu
  swap_rows (suc rounds) j r s lu =
      swap_rows rounds (j + 1) r s (swap_at (nought d) (r * size + j) (s * size + j) lu)

  -- Row `i` behind column `k`.
  pub eliminate_row : ℕ → ℕ → ℕ → ℕ → List d.Carrier → List d.Carrier
  eliminate_row zero j i k lu = lu
  eliminate_row (suc rounds) j i k lu =
      eliminate_row rounds (j + 1) i k
        (set lu (i * size + j) (d.sub (at i j lu) (d.mul (at i k lu) (at k j lu))))

  pub eliminate : ℕ → ℕ → ℕ → d.Carrier → List d.Carrier → List d.Carrier
  unfolding eliminate_row
  eliminate zero i k inv lu = lu
  eliminate (suc rounds) i k inv lu =
      eliminate rounds (i + 1) k inv
        (eliminate_row (size - (k + 1)) (k + 1) i k (set lu (i * size + k) (d.mul (at i k lu) inv)))

  -- The body of the loop over the columns, behind the test for a singular matrix.
  pub factor_step : ℕ → ℕ → List d.Carrier × List ℕ → List d.Carrier × List ℕ
  unfolding swap_rows eliminate
  factor_step k max_row (lu, piv) =
      let swapped : List d.Carrier × List ℕ =
        if max_row == k
        then (lu, piv)
        else (swap_rows size 0 k max_row lu, swap_at 0 k max_row piv) in
      (eliminate (size - (k + 1)) (k + 1) k (d.div (one d) (at k k swapped.0)) swapped.0, swapped.1)

  -- `1e-14`
  abbrev tiny : d.Carrier
  tiny = d.lit (pos 1) 100000000000000

  -- The state behind the loop, and whether it ran to its end.
  pub factor_from : ℕ → ℕ → List d.Carrier × List ℕ → (List d.Carrier × List ℕ) × Bool
  unfolding find_pivot factor_step
  factor_from zero k s = (s, true)
  factor_from (suc rounds) k s =
      let (max_row, max_val) = find_pivot (size - (k + 1)) (k + 1) k k (d.abs (at k k s.0)) s.0 in
      let rest = factor_from rounds (k + 1) (factor_step k max_row s) in
      if d.lt max_val tiny then (s, false) else rest

  unfoldable pub lu_factor : List d.Carrier → (List d.Carrier × List ℕ) × Bool
  unfolding factor_from iota
  lu_factor a_base = factor_from size 0 (a_base, iota size 0)

  -- `tmp_[i] -= LU_[i, j] * tmp_[j]` from `j` on.
  pub subtract_row : ℕ → ℕ → ℕ → List d.Carrier → List d.Carrier → List d.Carrier
  subtract_row zero j i lu tmp = tmp
  subtract_row (suc rounds) j i lu tmp =
      subtract_row rounds (j + 1) i lu
        (set tmp i (d.sub (get_or tmp i (nought d)) (d.mul (at i j lu) (get_or tmp j (nought d)))))

  -- Forward substitution from row `i` on.
  pub forward : ℕ → ℕ → List d.Carrier → List d.Carrier → List d.Carrier
  unfolding subtract_row
  forward zero i lu tmp = tmp
  forward (suc rounds) i lu tmp = forward rounds (i + 1) lu (subtract_row i 0 i lu tmp)

  -- Back substitution of the rows below `rows`, the last one first.
  pub backward : ℕ → List d.Carrier → List d.Carrier → List d.Carrier
  unfolding subtract_row
  backward zero lu tmp = tmp
  backward (suc i) lu tmp =
      let row = subtract_row (size - (i + 1)) (i + 1) i lu tmp in
      backward i lu (set row i (d.div (get_or row i (nought d)) (at i i lu)))

  unfoldable pub lu_solve : List d.Carrier → List ℕ → List d.Carrier → List d.Carrier
  unfolding forward backward
  lu_solve lu piv z =
      backward size lu (forward (size - 1) 1 lu (map (λ r. get_or z r (nought d)) piv))
