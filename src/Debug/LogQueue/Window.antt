-- ===== src/Debug/LogQueue/Window.antt =====
-- The occupied slots of the queue as a list, oldest first.
use native.Mathlib.Nat.{zero-add}
use phu_audio_lib.Base.{
  ℕ, zero, suc, ◌+◌, ◌-◌, ◌%◌, ◌≤◌, ◌<◌, min, ◌≡◌, ◌≢◌, refl, sym, ap, List, [], ◌∷◌, ◌++◌, length,
  get_or, set, arith,
}
use phu_audio_lib.Debug.LogQueue.{LogEntry, empty_entry, num_slots, pop_loop}

-- The `n` entries from slot `h` on, going round at the end.
abbrev pub window : List LogEntry → ℕ → ℕ → List LogEntry
window slots h zero = []
window slots h (suc n) = get_or slots h empty_entry ∷ window slots ((h + 1) % num_slots) n

pub get_or-set_self {ℓ} :
    {A : Type ℓ} (xs : List A) (i : ℕ) (v d : A) → i < length xs → get_or (set xs i v) i d ≡ v
get_or-set_self [] i v d h = absurd (omega arith)
get_or-set_self (x ∷ xs) zero v d h = refl
get_or-set_self (x ∷ xs) (suc i) v d h = get_or-set_self xs i v d (omega arith)

get_or-set_ne {ℓ} :
    {A : Type ℓ} (xs : List A) (i j : ℕ) (v d : A) → i ≢ j → get_or (set xs i v) j d ≡ get_or xs j d
get_or-set_ne [] i j v d h = refl
get_or-set_ne (x ∷ xs) zero zero v d h = absurd (h refl)
get_or-set_ne (x ∷ xs) zero (suc j) v d h = refl
get_or-set_ne (x ∷ xs) (suc i) zero v d h = refl
get_or-set_ne (x ∷ xs) (suc i) (suc j) v d h = get_or-set_ne xs i j v d (λ e. h (ap suc e))

-- A write behind the window is not seen in it.
pub window-set_behind :
    (slots : List LogEntry) (x : LogEntry) (n h i m : ℕ)
    → h < num_slots
    → n ≤ m
    → m < num_slots
    → i ≡ (h + m) % num_slots
    → window (set slots i x) h n ≡ window slots h n
window-set_behind slots x zero h i m hh hn hm e = refl
window-set_behind slots x (suc n) h i m hh hn hm e = rw (
  get_or-set_ne slots i h x empty_entry (omega arith),
  window-set_behind slots x n ((h + 1) % num_slots) i (m - 1) (omega arith) (omega arith)
      (omega arith) (omega arith),
)

-- A write just behind the window extends it.
pub window-set :
    (slots : List LogEntry) (x : LogEntry) (n h i : ℕ)
    → length slots ≡ num_slots
    → h < num_slots
    → n < num_slots
    → i ≡ (h + n) % num_slots
    → window (set slots i x) h (suc n) ≡ window slots h n ++ x ∷ []
window-set slots x zero h i hs hh hn e =
    let e' : i ≡ h = omega arith in rw (e', get_or-set_self slots h x empty_entry (omega arith))
window-set slots x (suc n) h i hs hh hn e =
    rw (get_or-set_ne slots i h x empty_entry (omega arith)) (
      ap (◌∷◌ (get_or slots h empty_entry))
        (window-set slots x n ((h + 1) % num_slots) i hs (omega arith) (omega arith) (omega arith)))

pub length-window : (slots : List LogEntry) (n h : ℕ) → length (window slots h n) ≡ n
length-window slots zero h = refl
length-window slots (suc n) h = ap suc (length-window slots n ((h + 1) % num_slots))

pub window-split :
    (slots : List LogEntry) (a b h g : ℕ)
    → h < num_slots
    → g ≡ (h + a) % num_slots
    → window slots h (a + b) ≡ window slots h a ++ window slots g b
window-split slots zero b h g hh e = let e' : g ≡ h = omega arith in rw (e', zero-add b)
window-split slots (suc a) b h g hh e =
    let e' : suc a + b ≡ suc (a + b) = omega arith in
    rw e' (
      ap (◌∷◌ (get_or slots h empty_entry))
        (window-split slots a b ((h + 1) % num_slots) g (omega arith) (omega arith)))

-- The number of the slots from `r` up to `w`.
abbrev pub distance : ℕ → ℕ → ℕ
distance r w = (w + num_slots - r) % num_slots

-- The loop of `popBatch` copies out at most `k` of the occupied slots.
pub pop_loop_lem :
    (k m r w : ℕ) (slots : List LogEntry)
    → r < num_slots
    → w < num_slots
    → m ≡ min k (distance r w)
    → pop_loop k r w slots ≡ (window slots r m, (r + m) % num_slots)
unfolding pop_loop
pop_loop_lem zero zero r w slots hr hw e = ground arith
pop_loop_lem zero (suc m) r w slots hr hw e = absurd (omega arith)
pop_loop_lem (suc k) zero r w slots hr hw e = ground arith
pop_loop_lem (suc k) (suc m) r w slots hr hw e =
    ground (arith, pop_loop_lem k m ((r + 1) % num_slots) w slots)

-- The first `m` of the occupied slots, and the others.
pub window-distance :
    (slots : List LogEntry) (m r w : ℕ)
    → r < num_slots
    → w < num_slots
    → m ≤ distance r w
    → window slots r m ++ window slots ((r + m) % num_slots) (distance ((r + m) % num_slots) w)
      ≡ window slots r (distance r w)
window-distance slots m r w hr hw h =
    let parts : distance r w ≡ m + distance ((r + m) % num_slots) w = omega arith in
    rw parts (
      sym (window-split slots m (distance ((r + m) % num_slots) w) r ((r + m) % num_slots) hr refl))
