-- ===== src/Base/Lists.antt =====
-- Lists measured and indexed by native numbers, under the library's names.
use Prim.Native.Nat.{ℕ, zero, suc, ◌+◌, ◌-◌, ◌≤◌, ◌<◌, min}
use mathlib.Core.Path.{◌≡◌, refl, ap}
use mathlib.Core.Logic.{◌≢◌}
use mathlib.Core.List.{List, [], ◌∷◌, ◌++◌, map}
use mathlib.Core.Option.{Option, none, some}
use native.Mathlib.Omega.{arith}
use phu_audio_lib.Base.Bools.{◌==◌, if◌then◌else◌}

module _ {ℓ} {A : Type ℓ} where
  abbrev pub length : List A → ℕ
  length [] = 0
  length (x ∷ xs) = suc (length xs)

  abbrev pub get_elem? : List A → ℕ → Option A
  get_elem? [] i = none
  get_elem? (x ∷ xs) zero = some x
  get_elem? (x ∷ xs) (suc i) = get_elem? xs i

  -- A write out of bounds changes nothing.
  abbrev pub set : List A → ℕ → A → List A
  set [] i v = []
  set (x ∷ xs) zero v = v ∷ xs
  set (x ∷ xs) (suc i) v = x ∷ set xs i v

  abbrev pub All {κ} : (A → Type κ) → List A → Type κ
  All P [] = Unit
  All P (x ∷ xs) = P x × All P xs

  pub length-append : (xs ys : List A) → length (xs ++ ys) ≡ length xs + length ys
  length-append [] ys = omega arith
  length-append (x ∷ xs) ys = omega (arith, length-append xs ys)

module _ {ℓ} {A : Type ℓ} where
  pub length-set : (xs : List A) (i : ℕ) (v : A) → length (set xs i v) ≡ length xs
  length-set [] i v = refl
  length-set (x ∷ xs) zero v = refl
  length-set (x ∷ xs) (suc i) v = ap suc (length-set xs i v)

  pub set-set : (xs : List A) (i : ℕ) (a b : A) → set (set xs i a) i b ≡ set xs i b
  set-set [] i a b = refl
  set-set (x ∷ xs) zero a b = refl
  set-set (x ∷ xs) (suc i) a b = rw (set-set xs i a b)

  pub get_elem?-set_self :
      (xs : List A) (i : ℕ) (v : A) → i < length xs → get_elem? (set xs i v) i ≡ some v
  get_elem?-set_self [] i v h = elim h [ ]
  get_elem?-set_self (x ∷ xs) zero v h = refl
  get_elem?-set_self (x ∷ xs) (suc i) v h = get_elem?-set_self xs i v (omega arith)

  pub get_elem?-set_ne :
      (xs : List A) {i j : ℕ} (v : A) → i ≢ j → get_elem? (set xs i v) j ≡ get_elem? xs j
  get_elem?-set_ne [] v h = refl
  get_elem?-set_ne (x ∷ xs) {i = zero} {j = zero} v h = absurd (h refl)
  get_elem?-set_ne (x ∷ xs) {i = zero} {j = suc j} v h = refl
  get_elem?-set_ne (x ∷ xs) {i = suc i} {j = zero} v h = refl
  get_elem?-set_ne (x ∷ xs) {i = suc i} {j = suc j} v h = get_elem?-set_ne xs v (λ e. h (ap suc e))

  pub All-append {κ} : (P : A → Type κ) (xs ys : List A) → All P xs → All P ys → All P (xs ++ ys)
  All-append P [] ys h g = g
  All-append P (x ∷ xs) ys h g = (h.0, All-append P xs ys h.1 g)

  pub All-map {κ μ} :
      {B : Type κ} (P : A → Type μ) (Q : B → Type μ) (f : A → B) (xs : List A)
      → ((x : A) → P x → Q (f x))
      → All P xs
      → All Q (map f xs)
  All-map P Q f [] keep h = tt
  All-map P Q f (x ∷ xs) keep h = (keep x h.0, All-map P Q f xs keep h.1)

module _ {ℓ} {A : Type ℓ} where
  abbrev pub get_or : List A → ℕ → A → A
  get_or [] i d = d
  get_or (x ∷ xs) zero d = x
  get_or (x ∷ xs) (suc i) d = get_or xs i d

  pub get_or-set :
      (xs : List A) (i j : ℕ) (v default : A)
      → i < length xs
      → get_or (set xs i v) j default ≡ (if j == i then v else get_or xs j default)
  get_or-set [] i j v default h = absurd (omega arith)
  get_or-set (x ∷ xs) zero zero v default h = refl
  get_or-set (x ∷ xs) zero (suc j) v default h = ground arith
  get_or-set (x ∷ xs) (suc i) zero v default h = ground arith
  get_or-set (x ∷ xs) (suc i) (suc j) v default h =
      ground (arith, get_or-set xs i j v default (omega arith))

  abbrev pub take : ℕ → List A → List A
  take zero xs = []
  take (suc n) [] = []
  take (suc n) (x ∷ xs) = x ∷ take n xs

  abbrev pub drop : ℕ → List A → List A
  drop zero xs = xs
  drop (suc n) [] = []
  drop (suc n) (x ∷ xs) = drop n xs

  abbrev pub replicate : ℕ → A → List A
  replicate zero a = []
  replicate (suc n) a = a ∷ replicate n a

  pub take-append-drop : (n : ℕ) (xs : List A) → take n xs ++ drop n xs ≡ xs
  take-append-drop zero xs = refl
  take-append-drop (suc n) [] = refl
  take-append-drop (suc n) (x ∷ xs) = rw (take-append-drop n xs)

  pub length-take : (n : ℕ) (xs : List A) → length (take n xs) ≡ min n (length xs)
  length-take zero xs = omega arith
  length-take (suc n) [] = omega arith
  length-take (suc n) (x ∷ xs) = omega (arith, length-take n xs)

  pub length-drop : (n : ℕ) (xs : List A) → length (drop n xs) ≡ length xs - n
  length-drop zero xs = omega arith
  length-drop (suc n) [] = omega arith
  length-drop (suc n) (x ∷ xs) = omega (arith, length-drop n xs)

  pub length-replicate : (n : ℕ) (a : A) → length (replicate n a) ≡ n
  length-replicate zero a = refl
  length-replicate (suc n) a = ap suc (length-replicate n a)

  pub length-map {κ} : {B : Type κ} (xs : List A) (f : A → B) → length (map f xs) ≡ length xs
  length-map [] f = refl
  length-map (x ∷ xs) f = ap suc (length-map xs f)

  -- `std::fill` of the first `n` elements.
  abbrev pub fill : ℕ → A → List A → List A
  fill zero v xs = xs
  fill (suc n) v [] = []
  fill (suc n) v (x ∷ xs) = v ∷ fill n v xs

  pub length-fill : (n : ℕ) (v : A) (xs : List A) → length (fill n v xs) ≡ length xs
  length-fill zero v xs = refl
  length-fill (suc n) v [] = refl
  length-fill (suc n) v (x ∷ xs) = ap suc (length-fill n v xs)

  -- `memcpy` of all of `src` to the elements of `dst` from `i` on; what would lie behind the end of
  -- `dst` is dropped.
  abbrev pub blit : List A → ℕ → List A → List A
  blit [] i src = []
  blit (x ∷ xs) (suc i) src = x ∷ blit xs i src
  blit (x ∷ xs) zero [] = x ∷ xs
  blit (x ∷ xs) zero (v ∷ src) = v ∷ blit xs zero src

  pub length-blit : (dst : List A) (i : ℕ) (src : List A) → length (blit dst i src) ≡ length dst
  length-blit [] i src = refl
  length-blit (x ∷ xs) (suc i) src = ap suc (length-blit xs i src)
  length-blit (x ∷ xs) zero [] = refl
  length-blit (x ∷ xs) zero (v ∷ src) = ap suc (length-blit xs zero src)

  pub blit-none : (dst : List A) → blit dst 0 [] ≡ dst
  blit-none [] = refl
  blit-none (x ∷ xs) = refl

  pub blit-all : (dst src : List A) → length src ≡ length dst → blit dst 0 src ≡ src
  blit-all [] [] h = refl
  blit-all [] (v ∷ src) h = absurd (omega (arith, h))
  blit-all (x ∷ xs) [] h = absurd (omega (arith, h))
  blit-all (x ∷ xs) (v ∷ src) h = rw (blit-all xs src (omega (arith, h)))

  pub take-blit :
      (n : ℕ) (dst src : List A)
      → n ≤ length src
      → n ≤ length dst
      → take n (blit dst 0 src) ≡ take n src
  take-blit zero dst src h g = refl
  take-blit (suc n) [] src h g = absurd (omega arith)
  take-blit (suc n) (x ∷ xs) [] h g = absurd (omega arith)
  take-blit (suc n) (x ∷ xs) (v ∷ src) h g = rw (take-blit n xs src (omega arith) (omega arith))

  pub get_elem?-blit_inside :
      (dst : List A) (i : ℕ) (src : List A) (j k : ℕ)
      → j ≡ i + k
      → k < length src
      → i + length src ≤ length dst
      → get_elem? (blit dst i src) j ≡ get_elem? src k
  get_elem?-blit_inside [] i src j k e h f = absurd (omega arith)
  get_elem?-blit_inside (x ∷ xs) (suc i) src zero k e h f = absurd (omega arith)
  get_elem?-blit_inside (x ∷ xs) (suc i) src (suc j) k e h f =
      get_elem?-blit_inside xs i src j k (omega arith) h (omega arith)
  get_elem?-blit_inside (x ∷ xs) zero [] j k e h f = absurd (omega arith)
  get_elem?-blit_inside (x ∷ xs) zero (v ∷ src) zero zero e h f = refl
  get_elem?-blit_inside (x ∷ xs) zero (v ∷ src) zero (suc k) e h f = absurd (omega arith)
  get_elem?-blit_inside (x ∷ xs) zero (v ∷ src) (suc j) zero e h f = absurd (omega arith)
  get_elem?-blit_inside (x ∷ xs) zero (v ∷ src) (suc j) (suc k) e h f =
      get_elem?-blit_inside xs zero src j k (omega arith) (omega arith) (omega arith)

  pub get_elem?-blit_below :
      (dst : List A) (i : ℕ) (src : List A) (j : ℕ)
      → j < i
      → get_elem? (blit dst i src) j ≡ get_elem? dst j
  get_elem?-blit_below [] i src j h = refl
  get_elem?-blit_below (x ∷ xs) (suc i) src zero h = refl
  get_elem?-blit_below (x ∷ xs) (suc i) src (suc j) h =
      get_elem?-blit_below xs i src j (omega arith)
  get_elem?-blit_below (x ∷ xs) zero src j h = absurd (omega arith)

  pub get_elem?-blit_above :
      (dst : List A) (i : ℕ) (src : List A) (j : ℕ)
      → i + length src ≤ j
      → get_elem? (blit dst i src) j ≡ get_elem? dst j
  get_elem?-blit_above [] i src j h = refl
  get_elem?-blit_above (x ∷ xs) (suc i) src zero h = absurd (omega arith)
  get_elem?-blit_above (x ∷ xs) (suc i) src (suc j) h =
      get_elem?-blit_above xs i src j (omega arith)
  get_elem?-blit_above (x ∷ xs) zero [] j h = refl
  get_elem?-blit_above (x ∷ xs) zero (v ∷ src) zero h = absurd (omega arith)
  get_elem?-blit_above (x ∷ xs) zero (v ∷ src) (suc j) h =
      get_elem?-blit_above xs zero src j (omega arith)

  pub take-length : (xs : List A) → take (length xs) xs ≡ xs
  take-length [] = refl
  take-length (x ∷ xs) = rw (take-length xs)

  pub take-take : (n : ℕ) (xs : List A) → take n (take n xs) ≡ take n xs
  take-take zero xs = refl
  take-take (suc n) [] = refl
  take-take (suc n) (x ∷ xs) = rw (take-take n xs)

  pub get_elem?-take :
      (m : ℕ) (xs : List A) (k : ℕ) → k < m → get_elem? (take m xs) k ≡ get_elem? xs k
  get_elem?-take zero xs k h = absurd (omega arith)
  get_elem?-take (suc m) [] k h = refl
  get_elem?-take (suc m) (x ∷ xs) zero h = refl
  get_elem?-take (suc m) (x ∷ xs) (suc k) h = get_elem?-take m xs k (omega arith)

  pub get_elem?-drop :
      (m : ℕ) (xs : List A) (j k : ℕ) → j ≡ m + k → get_elem? (drop m xs) k ≡ get_elem? xs j
  get_elem?-drop zero xs j k e = let e' : k ≡ j = omega arith in rw e'
  get_elem?-drop (suc m) [] j k e = refl
  get_elem?-drop (suc m) (x ∷ xs) zero k e = absurd (omega arith)
  get_elem?-drop (suc m) (x ∷ xs) (suc j) k e = get_elem?-drop m xs j k (omega arith)
