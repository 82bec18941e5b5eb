-- ===== src/Net/Command/Listeners.antt =====
-- The list of listeners.
use phu_audio_lib.Base.{
  ℕ, ◌≡◌, refl, ◌==◌, false, List, [], ◌∷◌, ◌&&◌, ◌||◌, not, Bool-cases, inl, inr, arith,
}
use phu_audio_lib.Net.Command.{
  CommandState, has_listener, append_one, remove_all, add_listener, remove_listener,
}

-- No listener stands twice in the list.
abbrev pub Distinct : List ℕ → Type 0
Distinct [] = Unit {0}
Distinct (l ∷ ls) = (has_listener l ls ≡ false) × Distinct ls

has_listener-append_one :
    (k l : ℕ) (ls : List ℕ) → has_listener k (append_one l ls) ≡ (l == k || has_listener k ls)
unfolding has_listener append_one
has_listener-append_one k l [] = refl
has_listener-append_one k l (j ∷ ls) = ground (arith, has_listener-append_one k l ls)

has_listener-remove_all :
    (k l : ℕ) (ls : List ℕ) → has_listener k (remove_all l ls) ≡ (not (l == k) && has_listener k ls)
unfolding has_listener remove_all
has_listener-remove_all k l [] = ground arith
has_listener-remove_all k l (j ∷ ls) = ground (arith, has_listener-remove_all k l ls)

append_one-Distinct :
    (l : ℕ) (ls : List ℕ) → has_listener l ls ≡ false → Distinct ls → Distinct (append_one l ls)
unfolding has_listener append_one
append_one-Distinct l [] e d = (refl, tt)
append_one-Distinct l (j ∷ ls) e d =
    (ground (arith, has_listener-append_one j l ls), append_one-Distinct l ls (ground arith) d.1)

remove_all-Distinct : (l : ℕ) (ls : List ℕ) → Distinct ls → Distinct (remove_all l ls)
unfolding remove_all
remove_all-Distinct l [] d = tt
remove_all-Distinct l (j ∷ ls) d = elim (Bool-cases (j == l)) [
  | inl same ↦ rw same (remove_all-Distinct l ls d.1)
  | inr other ↦
      rw other (ground (arith, has_listener-remove_all j l ls), remove_all-Distinct l ls d.1)
]

-- Where no listener stands twice, as at the start, `addListener` and `removeListener` keep it so; behind the first
-- exactly the added one has come in, and behind the second exactly the removed one has gone.
pub listeners_lem :
    (l k : ℕ) (s : CommandState)
    → Distinct s.listeners
    → Distinct (add_listener l s).listeners
      × Distinct (remove_listener l s).listeners
      × (has_listener k (add_listener l s).listeners ≡ (l == k || has_listener k s.listeners))
      × (has_listener k (remove_listener l s).listeners
          ≡ (not (l == k) && has_listener k s.listeners))
unfolding add_listener remove_listener
listeners_lem l k s d = elim (Bool-cases (has_listener l s.listeners)) [
  | inl there ↦ rw there (
    d,
    remove_all-Distinct l s.listeners d,
    ground arith,
    has_listener-remove_all k l s.listeners,
  )
  | inr new ↦ rw new (
    append_one-Distinct l s.listeners new d,
    remove_all-Distinct l s.listeners d,
    has_listener-append_one k l s.listeners,
    has_listener-remove_all k l s.listeners,
  )
]
