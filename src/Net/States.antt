-- ===== src/Net/States.antt =====
-- network/StatefulBroadcaster.h: the state that a broadcaster keeps for each remote instance, a
-- `std::map<uint32_t, S>`. A map is the list of its entries in the order of the keys. The mutex makes
-- each operation one step.
pub mod Laws
mod Tests
use phu_audio_lib.Base.{
  ℕ, ◌-◌, ◌^◌, Bool, true, false, Option, none, some, List, [], ◌∷◌, ltb, ◌==◌, length,
  if◌then◌else◌,
}

abbrev pub StateMap : Type 0 → Type 0
StateMap S = List (ℕ × S)

module _ {S : Type 0} where
  -- `map::find`
  unfoldable pub find : ℕ → StateMap S → Option S
  find k [] = none
  find k ((j, s) ∷ m) = if k == j then some s else find k m

  -- `map[k] = s`
  unfoldable pub store : ℕ → S → StateMap S → StateMap S
  store k s [] = (k, s) ∷ []
  store k s ((j, t) ∷ m) =
      if k == j then (k, s) ∷ m else if ltb k j then (k, s) ∷ (j, t) ∷ m else (j, t) ∷ store k s m

  unfoldable pub clear_remote_states : StateMap S → StateMap S
  clear_remote_states m = []

  -- The loop of `getRemoteStates`: what it appends to `out`, and the entries that it leaves.
  pub prune_loop : (S → Bool) → StateMap S → List S × StateMap S
  prune_loop should_prune [] = ([], [])
  prune_loop should_prune ((j, s) ∷ m) =
      let (out, kept) = prune_loop should_prune m in
      if should_prune s then (out, kept) else (s ∷ out, (j, s) ∷ kept)

  -- The old content of `out` is discarded, so it is no argument.
  unfoldable pub get_remote_states : (S → Bool) → StateMap S → List S × StateMap S
  unfolding prune_loop
  get_remote_states should_prune m = prune_loop should_prune m

  unfoldable pub get_num_remote_states : StateMap S → ℕ
  get_num_remote_states m = if ltb (2 ^ 31 - 1) (length m) then 2 ^ 31 - 1 else length m
