-- ===== src/Base/Slices.antt =====
-- Lists by index: their parts, and lists made from a function of the index.
use Prim.Native.Nat.{ℕ, zero, suc, ◌+◌, ◌-◌, ◌≤◌, ◌<◌}
use mathlib.Core.Path.{◌≡◌, refl, sym, ap, ◌∙◌}
use mathlib.Core.List.{List, [], ◌∷◌, ◌++◌}
use native.Mathlib.Omega.{arith}
use phu_audio_lib.Base.Bools.{ltb, if◌then◌else◌}
use phu_audio_lib.Base.Lists.{length, set, get_or, take, drop}

module _ {ℓ} {A : Type ℓ} where
  -- `resize`: elements are dropped from the end, or copies of `v` are put there.
  abbrev pub resize : ℕ → A → List A → List A
  resize zero v xs = []
  resize (suc n) v [] = v ∷ resize n v []
  resize (suc n) v (x ∷ xs) = x ∷ resize n v xs

  pub length-resize : (n : ℕ) (v : A) (xs : List A) → length (resize n v xs) ≡ n
  length-resize zero v xs = refl
  length-resize (suc n) v [] = ap suc (length-resize n v [])
  length-resize (suc n) v (x ∷ xs) = ap suc (length-resize n v xs)

  -- The list of `f 0` to `f (n - 1)`.
  abbrev pub tabulate : ℕ → (ℕ → A) → List A
  tabulate zero f = []
  tabulate (suc n) f = f 0 ∷ tabulate n (λ i. f (suc i))

  pub tabulate_eq :
      (n : ℕ) (f g : ℕ → A) → ((i : ℕ) → i < n → f i ≡ g i) → tabulate n f ≡ tabulate n g
  tabulate_eq zero f g h = refl
  tabulate_eq (suc n) f g h =
      ap (λ x. x ∷ tabulate n (λ i. f (suc i))) (h 0 (omega arith))
      ∙ ap (λ rest. g 0 ∷ rest)
          (tabulate_eq n (λ i. f (suc i)) (λ i. g (suc i)) (λ i lt. h (suc i) (omega arith)))

  pub get_or-append :
      (xs ys : List A) (i : ℕ) (default : A)
      → get_or (xs ++ ys) i default
        ≡ (if ltb i (length xs) then get_or xs i default else get_or ys (i - length xs) default)
  get_or-append [] ys i default = ground arith
  get_or-append (x ∷ xs) ys zero default = ground arith
  get_or-append (x ∷ xs) ys (suc i) default = ground (arith, get_or-append xs ys i default)

  pub get_or-drop :
      (m : ℕ) (xs : List A) (k : ℕ) (default : A)
      → get_or (drop m xs) k default ≡ get_or xs (m + k) default
  get_or-drop zero xs k default = let e : 0 + k ≡ k = omega arith in rw e
  get_or-drop (suc m) [] k default = refl
  get_or-drop (suc m) (x ∷ xs) k default =
      let e : suc m + k ≡ suc (m + k) = omega arith in rw e (get_or-drop m xs k default)

  pub get_or-take :
      (m : ℕ) (xs : List A) (k : ℕ) (default : A)
      → k < m
      → get_or (take m xs) k default ≡ get_or xs k default
  get_or-take zero xs k default h = absurd (omega arith)
  get_or-take (suc m) [] k default h = refl
  get_or-take (suc m) (x ∷ xs) zero default h = refl
  get_or-take (suc m) (x ∷ xs) (suc k) default h = get_or-take m xs k default (omega arith)

  pub take-set :
      (xs : List A) (i : ℕ) (v : A)
      → i < length xs
      → take (suc i) (set xs i v) ≡ take i xs ++ v ∷ []
  take-set [] i v h = absurd (omega arith)
  take-set (x ∷ xs) zero v h = refl
  take-set (x ∷ xs) (suc i) v h = ap (λ rest. x ∷ rest) (take-set xs i v (omega arith))

  pub drop-set : (xs : List A) (i : ℕ) (v : A) → drop (suc i) (set xs i v) ≡ drop (suc i) xs
  drop-set [] i v = refl
  drop-set (x ∷ xs) zero v = refl
  drop-set (x ∷ xs) (suc i) v = drop-set xs i v

  pub drop-append : (n : ℕ) (xs ys : List A) → n ≤ length xs → drop n (xs ++ ys) ≡ drop n xs ++ ys
  drop-append zero xs ys h = refl
  drop-append (suc n) [] ys h = absurd (omega arith)
  drop-append (suc n) (x ∷ xs) ys h = drop-append n xs ys (omega arith)

  drop-none : (n : ℕ) → drop {A = A} n [] ≡ []
  drop-none zero = refl
  drop-none (suc n) = refl

  pub drop-drop : (m n : ℕ) (xs : List A) → drop m (drop n xs) ≡ drop (n + m) xs
  drop-drop m zero xs = let e : 0 + m ≡ m = omega arith in rw e
  drop-drop m (suc n) [] = drop-none m ∙ sym (drop-none (suc n + m))
  drop-drop m (suc n) (x ∷ xs) =
      let e : suc n + m ≡ suc (n + m) = omega arith in rw e (drop-drop m n xs)

  pub drop-all : (n : ℕ) (xs : List A) → length xs ≤ n → drop n xs ≡ []
  drop-all zero [] h = refl
  drop-all zero (x ∷ xs) h = absurd (omega arith)
  drop-all (suc n) [] h = refl
  drop-all (suc n) (x ∷ xs) h = drop-all n xs (omega arith)

  pub length-tabulate : (n : ℕ) (f : ℕ → A) → length (tabulate n f) ≡ n
  length-tabulate zero f = refl
  length-tabulate (suc n) f = ap suc (length-tabulate n (λ i. f (suc i)))

  pub tabulate_snoc : (n : ℕ) (f : ℕ → A) → tabulate (suc n) f ≡ tabulate n f ++ f n ∷ []
  tabulate_snoc zero f = refl
  tabulate_snoc (suc n) f = ap (λ rest. f 0 ∷ rest) (tabulate_snoc n (λ i. f (suc i)))

  pub get_or-tabulate :
      (n : ℕ) (f : ℕ → A) (i : ℕ) (default : A) → i < n → get_or (tabulate n f) i default ≡ f i
  get_or-tabulate zero f i default h = absurd (omega arith)
  get_or-tabulate (suc n) f zero default h = refl
  get_or-tabulate (suc n) f (suc i) default h =
      get_or-tabulate n (λ j. f (suc j)) i default (omega arith)
