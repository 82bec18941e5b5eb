-- ===== src/Net/States/Laws.antt =====
-- The map of remote states: finding, storing and pruning.
use phu_audio_lib.Base.{
  ℕ, suc, ◌≤◌, ◌<◌, ◌≡◌, refl, Bool, Option, none, some, [], ◌∷◌, map, ltb, ◌==◌, if◌then◌else◌,
  arith, Bool-cases, inl, inr,
}
use phu_audio_lib.Net.States.{StateMap, find, store, prune_loop, get_remote_states}

-- Every key of the map is at least `lo`, and the keys rise.
abbrev pub Rising : {S : Type 0} → ℕ → StateMap S → Type 0
Rising lo [] = Unit {0}
Rising lo ((j, s) ∷ m) = (lo ≤ j) × Rising (suc j) m

-- A predicate of every entry.
abbrev pub AllStates : {S : Type 0} → (ℕ → S → Type 0) → StateMap S → Type 0
AllStates P [] = Unit {0}
AllStates P ((j, s) ∷ m) = P j s × AllStates P m

abbrev pub keep_live : {S : Type 0} → (S → Bool) → Option S → Option S
keep_live should_prune none = none
keep_live should_prune (some s) = if should_prune s then none else some s

module _ {S : Type 0} where
  pub find-store :
      (k j : ℕ) (s : S) (m : StateMap S)
      → find j (store k s m) ≡ (if j == k then some s else find j m)
  unfolding find store
  find-store k j s [] = refl
  find-store k j s ((i, t) ∷ m) = ground (arith, find-store k j s m)

  pub store-Rising :
      (k lo : ℕ) (s : S) (m : StateMap S) → lo ≤ k → Rising lo m → Rising lo (store k s m)
  unfolding store
  store-Rising k lo s [] h r = (h, tt)
  store-Rising k lo s ((j, t) ∷ m) h r = ground (arith, store-Rising k (suc j) s m)

  pub store-AllStates :
      (P : ℕ → S → Type 0) (k : ℕ) (s : S) (m : StateMap S)
      → P k s
      → AllStates P m
      → AllStates P (store k s m)
  unfolding store
  store-AllStates P k s [] p a = (p, tt)
  store-AllStates P k s ((j, t) ∷ m) p a = elim (Bool-cases (k == j)) [
    | inl same ↦ rw same (p, a.1)
    | inr other ↦ rw other (elim (Bool-cases (ltb k j)) [
      | inl before ↦ rw before (p, a)
      | inr after ↦ rw after (a.0, store-AllStates P k s m p a.1)
    ])
  ]

  pub find-AllStates :
      (P : ℕ → S → Type 0) (k : ℕ) (s : S) (m : StateMap S)
      → AllStates P m
      → find k m ≡ some s
      → P k s
  unfolding find
  find-AllStates P k s [] a e = cc
  find-AllStates P k s ((j, t) ∷ m) a e = elim (Bool-cases (k == j)) [
    | inl same ↦
        let key : k ≡ j = ground arith in let state : t ≡ s = ground arith in rw (key, ← state) a.0
    | inr other ↦ find-AllStates P k s m a.1 (ground arith)
  ]

  find_above : (k lo : ℕ) (m : StateMap S) → k < lo → Rising lo m → find k m ≡ none
  unfolding find
  find_above k lo [] h r = refl
  find_above k lo ((j, s) ∷ m) h r = ground (arith, find_above k (suc j) m)

  Rising-mono : (lo hi : ℕ) (m : StateMap S) → lo ≤ hi → Rising hi m → Rising lo m
  Rising-mono lo hi [] h r = tt
  Rising-mono lo hi ((j, s) ∷ m) h r = (omega arith, r.1)

  pub prune_loop-Rising :
      (p : S → Bool) (lo : ℕ) (m : StateMap S) → Rising lo m → Rising lo (prune_loop p m).1
  unfolding prune_loop
  prune_loop-Rising p lo [] r = tt
  prune_loop-Rising p lo ((j, s) ∷ m) r = elim (Bool-cases (p s)) [
    | inl gone ↦
        rw gone (Rising-mono lo (suc j) _ (omega arith) (prune_loop-Rising p (suc j) m r.1))
    | inr live ↦ rw live (r.0, prune_loop-Rising p (suc j) m r.1)
  ]

  find-prune_loop :
      (p : S → Bool) (k lo : ℕ) (m : StateMap S)
      → Rising lo m
      → find k (prune_loop p m).1 ≡ keep_live p (find k m)
  unfolding find prune_loop
  find-prune_loop p k lo [] r = refl
  find-prune_loop p k lo ((j, s) ∷ m) r =
      ground (arith, find-prune_loop p k (suc j) m, find_above k (suc j) m)

  prune_loop-out :
      (p : S → Bool) (m : StateMap S) → (prune_loop p m).0 ≡ map (λ e. e.1) (prune_loop p m).1
  unfolding prune_loop
  prune_loop-out p [] = refl
  prune_loop-out p ((j, s) ∷ m) = ground (arith, prune_loop-out p m)

  pub prune_loop-AllStates :
      (P : ℕ → S → Type 0) (p : S → Bool) (m : StateMap S)
      → AllStates P m
      → AllStates P (prune_loop p m).1
  unfolding prune_loop
  prune_loop-AllStates P p [] a = tt
  prune_loop-AllStates P p ((j, s) ∷ m) a = elim (Bool-cases (p s)) [
    | inl gone ↦ rw gone (prune_loop-AllStates P p m a.1)
    | inr live ↦ rw live (a.0, prune_loop-AllStates P p m a.1)
  ]

  -- `getRemoteStates` removes exactly the states that the predicate holds of, and returns the
  -- others in the order of their keys; the keys still rise.
  pub get_remote_states_lem :
      (should_prune : S → Bool) (m : StateMap S) (k : ℕ)
      → Rising 0 m
      → let (out, kept) = get_remote_states should_prune m in
        (find k kept ≡ keep_live should_prune (find k m))
        × (out ≡ map (λ e. e.1) kept)
        × Rising 0 kept
  unfolding get_remote_states
  get_remote_states_lem p m k r =
      (find-prune_loop p k 0 m r, prune_loop-out p m, prune_loop-Rising p 0 m r)
