-- ===== src/Audio/LinkwitzRiley/MultiBand/Arrays.antt =====
-- audio/LinkwitzRileyFilter.h: the arrays of filters of a channel, which of them are configured, and
-- the writes to one element.
use phu_audio_lib.Base.{
  ℕ, zero, suc, ◌+◌, ◌<◌, ◌≤◌, ◌≡◌, ◌≢◌, refl, ap, Returns, List, [], ◌∷◌, get_elem?, set, length,
  ltb, lt→ltb, true, arith,
}
use phu_audio_lib.Double.{Double}
use phu_audio_lib.Audio.LinkwitzRiley.{LinkwitzRileyFilter}
use phu_audio_lib.Audio.LinkwitzRiley.Stages.{IsConfigured}
use phu_audio_lib.Audio.LinkwitzRiley.MultiBand.{Channel, MultiBandN, update}

module _ {ℓ} {A : Type ℓ} (P : A → Type 0) where
  pub Returns-set_at :
      (xs : List A) (i j : ℕ) (v : A)
      → (i ≡ j → P v)
      → Returns (get_elem? xs j) P
      → Returns (get_elem? (set xs i v) j) P
  Returns-set_at [] i j v p h = h
  Returns-set_at (x ∷ xs) zero zero v p h = p refl
  Returns-set_at (x ∷ xs) zero (suc j) v p h = h
  Returns-set_at (x ∷ xs) (suc i) zero v p h = h
  Returns-set_at (x ∷ xs) (suc i) (suc j) v p h = Returns-set_at xs i j v (λ e. p (ap suc e)) h

  pub Returns-set :
      (xs : List A) (i j : ℕ) (v : A)
      → P v
      → Returns (get_elem? xs j) P
      → Returns (get_elem? (set xs i v) j) P
  Returns-set xs i j v p = Returns-set_at xs i j v (λ e. p)

  -- A method that keeps `P`, called at any element.
  pub Returns-update :
      (xs : List A) (i j : ℕ) (f : A → A)
      → i < length xs
      → ((x : A) → P x → P (f x))
      → Returns (get_elem? xs j) P
      → Returns (get_elem? (update i f xs) j) P
  unfolding update
  Returns-update [] i j f lt keep h = h
  Returns-update (x ∷ xs) zero zero f lt keep h = keep x h
  Returns-update (x ∷ xs) zero (suc j) f lt keep h = h
  Returns-update (x ∷ xs) (suc i) zero f lt keep h =
      let inside : ltb i (length xs) ≡ true = lt→ltb i (length xs) (omega arith) in rw inside h
  Returns-update (x ∷ xs) (suc i) (suc j) f lt keep h =
      let inside : ltb i (length xs) ≡ true = lt→ltb i (length xs) (omega arith) in
      rw inside (Returns-update xs i j f (omega arith) keep h)

  -- A method that takes `P` to `Q`, called at one element.
  pub Returns-update_at :
      (Q : A → Type 0) (xs : List A) (i j : ℕ) (f : A → A)
      → i < length xs
      → (i ≡ j → (x : A) → P x → Q (f x))
      → (i ≢ j → Returns (get_elem? xs j) Q)
      → Returns (get_elem? xs j) P
      → Returns (get_elem? (update i f xs) j) Q
  unfolding update
  Returns-update_at Q [] i j f lt turn rest h = h
  Returns-update_at Q (x ∷ xs) zero zero f lt turn rest h = turn refl x h
  Returns-update_at Q (x ∷ xs) zero (suc j) f lt turn rest h = rest (λ e. cc)
  Returns-update_at Q (x ∷ xs) (suc i) zero f lt turn rest h =
      let inside : ltb i (length xs) ≡ true = lt→ltb i (length xs) (omega arith) in
      rw inside (rest (λ e. cc))
  Returns-update_at Q (x ∷ xs) (suc i) (suc j) f lt turn rest h =
      let inside : ltb i (length xs) ≡ true = lt→ltb i (length xs) (omega arith) in
      rw inside (
        Returns-update_at Q xs i j f (omega arith) (λ e. turn (ap suc e))
          (λ ne. rest (λ e. ne (omega (arith, e)))) h)

  -- An index at which there is an element.
  pub Returns-bounds : (xs : List A) (i : ℕ) → Returns (get_elem? xs i) P → i < length xs
  Returns-bounds [] i h = absurd h
  Returns-bounds (x ∷ xs) zero h = omega arith
  Returns-bounds (x ∷ xs) (suc i) h = let l = Returns-bounds xs i h in omega (arith, l)

-- Each index below `n` lies in the list, at an element with `P`.
abbrev pub Below {ℓ} : {A : Type ℓ} → ℕ → (A → Type 0) → List A → Type 0
Below n P xs = (i : ℕ) → i < n → Returns (get_elem? xs i) P

module _ (d : Double) where
  abbrev pub AnyFilter : LinkwitzRileyFilter d → Type 0
  AnyFilter f = Unit

  -- The sizes of the arrays.
  pub record IsSized (c : Channel d) : Type 0 where
    pub lps : Below 6 AnyFilter c.lp_filters
    pub hps : Below 6 AnyFilter c.hp_filters
    pub rows : Below 6 (Below 6 AnyFilter) c.allpass

  -- The row of a band has configured filters for the frequencies above the band.
  abbrev pub RowIsReady : ℕ → ℕ → List (LinkwitzRileyFilter d) → Type 0
  RowIsReady n band row = (f : ℕ) → band < f → f < n → Returns (get_elem? row f) (IsConfigured d)

  -- The filters that `n` frequencies use are configured.
  pub record ChannelIsReady (n : ℕ) (c : Channel d) : Type 0 where
    pub sized : IsSized c
    pub lps : Below n (IsConfigured d) c.lp_filters
    pub hps : Below n (IsConfigured d) c.hp_filters
    pub rows : (band : ℕ) → band < n → Returns (get_elem? c.allpass band) (RowIsReady n band)

  -- A crossover whose number of bands fits its frequencies, and whose channels are ready for them.
  pub record IsReady (m : MultiBandN d) : Type 0 where
    pub freqs : length m.freqs ≡ 6
    pub bands : m.num_bands ≡ m.num_freqs + 1
    pub some_freqs : 1 ≤ m.num_freqs
    pub not_too_many : m.num_freqs ≤ 6
    pub left : ChannelIsReady m.num_freqs m.left
    pub right : ChannelIsReady m.num_freqs m.right
