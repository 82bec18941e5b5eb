-- ===== src/Base/Loops.antt =====
-- Counted loops over a state, and steps that can fault: `none` is a read or a write out of bounds.
use Prim.Native.Nat.{ℕ, zero, suc, ◌<◌}
use mathlib.Core.Path.{◌≡◌, refl, sym, ap, ◌∙◌}
use mathlib.Core.Option.{Option, none, some}
use native.Mathlib.Omega.{arith}

infixl 5 ◌>>=◌
abbrev pub ◌>>=◌ {ℓ κ} : {A : Type ℓ} {B : Type κ} → Option A → (A → Option B) → Option B
none >>= f = none
some a >>= f = f a

-- The step is made, with a result that satisfies `P`.
abbrev pub Returns {ℓ} : {A : Type ℓ} → Option A → (A → Type 0) → Type 0
Returns none P = ⊥
Returns (some a) P = P a

pub Returns-bind {ℓ κ} :
    {A : Type ℓ} {B : Type κ} (P : A → Type 0) (Q : B → Type 0) (m : Option A) (f : A → Option B)
    → Returns m P
    → ((a : A) → P a → Returns (f a) Q)
    → Returns (m >>= f) Q
Returns-bind P Q none f h k = absurd h
Returns-bind P Q (some a) f h k = k a h

pub Returns-weaken {ℓ} :
    {A : Type ℓ} (P Q : A → Type 0) (o : Option A)
    → ((a : A) → P a → Q a)
    → Returns o P
    → Returns o Q
Returns-weaken P Q none f h = h
Returns-weaken P Q (some a) f h = f a h

pub Returns-both {ℓ} :
    {A : Type ℓ} (P Q : A → Type 0) (o : Option A)
    → Returns o P
    → Returns o Q
    → Returns o (λ a. P a × Q a)
Returns-both P Q none p q = p
Returns-both P Q (some a) p q = (p, q)

module _ {ℓ} {S : Type ℓ} where
  -- `for (i = 0; i < n; ++i) s = body(i, s);`
  unfoldable pub for_below : ℕ → (ℕ → S → S) → S → S
  for_below zero body s = s
  for_below (suc n) body s = body n (for_below n body s)

  -- The same, where the body can fault.
  unfoldable pub for_m : ℕ → (ℕ → S → Option S) → S → Option S
  for_m zero body s = some s
  for_m (suc n) body s = for_m n body s >>= body n

  -- A loop whose body makes two steps is two loops, where the steps commute.
  pub for_below-split :
      (first second : ℕ → S → S)
      → ((i j : ℕ) (s : S) → second i (first j s) ≡ first j (second i s))
      → (n : ℕ) (s : S)
      → for_below n (λ i s. second i (first i s)) s ≡ for_below n second (for_below n first s)
  unfolding for_below
  for_below-split first second commute zero s = refl
  for_below-split first second commute (suc n) s =
      ap (λ (t : S). second n (first n t)) (for_below-split first second commute n s)
      ∙ ap (second n) (sym (pull n n (for_below n first s)))
    where
      pull : (m j : ℕ) (s : S) → for_below m second (first j s) ≡ first j (for_below m second s)
      pull zero j s = refl
      pull (suc m) j s = ap (second m) (pull m j s) ∙ commute m j (for_below m second s)

  pub for_below-keeps :
      (P : S → Type 0) (body : ℕ → S → S)
      → ((i : ℕ) (s : S) → P s → P (body i s))
      → (n : ℕ) (s : S) → P s
      → P (for_below n body s)
  unfolding for_below
  for_below-keeps P body keep zero s h = h
  for_below-keeps P body keep (suc n) s h = keep n _ (for_below-keeps P body keep n s h)

  -- Invariants that count the rounds.
  pub for_below-counts :
      (P : ℕ → S → Type 0) (body : ℕ → S → S) (n : ℕ)
      → ((i : ℕ) (s : S) → i < n → P i s → P (suc i) (body i s))
      → (s : S) → P 0 s
      → P n (for_below n body s)
  unfolding for_below
  for_below-counts P body zero step s h = h
  for_below-counts P body (suc n) step s h =
      step n _ (omega arith) (for_below-counts P body n (λ i t l. step i t (omega arith)) s h)

  pub for_m-Returns :
      (P : ℕ → S → Type 0) (body : ℕ → S → Option S) (n : ℕ)
      → ((i : ℕ) (s : S) → i < n → P i s → Returns (body i s) (P (suc i)))
      → (s : S) → P 0 s
      → Returns (for_m n body s) (P n)
  unfolding for_m
  for_m-Returns P body zero step s h = h
  for_m-Returns P body (suc n) step s h =
      Returns-bind (P n) (P (suc n)) (for_m n body s) (body n)
        (for_m-Returns P body n (λ i t l. step i t (omega arith)) s h)
        (λ t p. step n t (omega arith) p)

-- Two steps, one after the other, each on its own state.
abbrev pub both {ℓ κ} : {A : Type ℓ} {B : Type κ} → Option A → Option B → Option (A × B)
both none n = none
both (some a) none = none
both (some a) (some b) = some (a, b)

pub Returns-pair {ℓ κ} :
    {A : Type ℓ} {B : Type κ} (P : A → Type 0) (Q : B → Type 0) (a : Option A) (b : Option B)
    → Returns a P
    → Returns b Q
    → Returns (both a b) (λ u. P u.0 × Q u.1)
Returns-pair P Q none b p q = p
Returns-pair P Q (some a) none p q = q
Returns-pair P Q (some a) (some b) p q = (p, q)

module _ {ℓ κ} {S : Type ℓ} {T : Type κ} where
  -- A part of the state has a loop of its own, where the body does not read the rest for it.
  pub for_below-part :
      (part : S → T) (body : ℕ → S → S) (own : ℕ → T → T)
      → ((i : ℕ) (s : S) → part (body i s) ≡ own i (part s))
      → (n : ℕ) (s : S) → part (for_below n body s) ≡ for_below n own (part s)
  unfolding for_below
  for_below-part part body own same zero s = refl
  for_below-part part body own same (suc n) s =
      same n (for_below n body s) ∙ ap (own n) (for_below-part part body own same n s)

module _ {ℓ} {S T : Type ℓ} where
  pub for_m-both :
      (f : ℕ → S → Option S) (g : ℕ → T → Option T) (n : ℕ) (s : S) (t : T)
      → for_m n (λ i (u : S × T). both (f i u.0) (g i u.1)) (s, t)
        ≡ both (for_m n f s) (for_m n g t)
  unfolding for_m
  for_m-both f g zero s t = refl
  for_m-both f g (suc n) s t = rw (for_m-both f g n s t) (pairs (for_m n f s) (for_m n g t))
    where
      pairs :
          (a : Option S) (b : Option T)
          → (both a b >>= λ u. both (f n u.0) (g n u.1)) ≡ both (a >>= f n) (b >>= g n)
      pairs none b = refl
      pairs (some a) none = fault (f n a)
        where
          fault : (o : Option S) → none ≡ both {B = T} o none
          fault none = refl
          fault (some a) = refl
      pairs (some a) (some b) = refl
