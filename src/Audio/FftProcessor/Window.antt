-- ===== src/Audio/FftProcessor/Window.antt =====
-- audio/FFTProcessor.h: the ring buffer as a sliding window over the mixed samples.
use mathlib.Core.List.{append_assoc, append-nil}
use native.Mathlib.Nat.{mod-eq_of_lt, mod-eq-sub-mod}
use native.Mathlib.Decide.{dec_lt}
use phu_audio_lib.Base.{
  ℕ, zero, suc, ◌+◌, ◌-◌, ◌%◌, ◌≤◌, ◌<◌, ◌≡◌, sym, ap, ◌∙◌, List, [], ◌∷◌, ◌++◌, length, set,
  length-set, take, drop, take-set, drop-set, take-length, drop-append, drop-drop, drop-all,
  length-drop, length-take, length-append, tabulate, length-tabulate, tabulate_snoc, for_below,
  get_or, get_or-append, get_or-drop, get_or-take, ltb, true, false, arith,
}
use phu_audio_lib.Double.{Double}
use phu_audio_lib.Analog.Elements.{nought}
use phu_audio_lib.Audio.FftProcessor.{FftProcessor, shift_in}

-- The elements of a ring from the oldest on, where `write_pos` is the next to be overwritten.
abbrev pub oldest_first {ℓ} : {A : Type ℓ} → List A → ℕ → List A
oldest_first ring write_pos = drop write_pos ring ++ take write_pos ring

module _ {ℓ} {A : Type ℓ} where
  pub length-oldest_first :
      (ring : List A) (p : ℕ) → p ≤ length ring → length (oldest_first ring p) ≡ length ring
  length-oldest_first ring p h =
      omega
        (arith, length-append (drop p ring) (take p ring), length-drop p ring, length-take p ring)

  wrapped : (n : ℕ) (xs : List A) → length xs ≡ n → oldest_first xs 0 ≡ oldest_first xs n
  wrapped n xs h =
      append-nil xs
      ∙ sym (take-length xs)
      ∙ ap (λ k. take k xs) h
      ∙ ap (λ none. none ++ take n xs) (sym (drop-all n xs (omega (arith, h))))

  -- After a write at `p` the oldest is gone, and the value is the newest.
  written :
      (ring : List A) (p : ℕ) (v : A)
      → p < length ring
      → oldest_first (set ring p v) (suc p) ≡ drop 1 (oldest_first ring p) ++ v ∷ []
  written ring p v lt =
      let one_more : p + 1 ≡ suc p = omega arith in
      let rest : drop 1 (oldest_first ring p) ≡ drop (suc p) ring ++ take p ring =
        drop-append 1 (drop p ring) (take p ring) (omega (arith, length-drop p ring))
        ∙ ap (λ xs. xs ++ take p ring) (drop-drop 1 p ring ∙ ap (λ k. drop k ring) one_more) in
      rw (drop-set ring p v, take-set ring p v lt, rest)
        (sym (append_assoc (drop (suc p) ring) (take p ring) (v ∷ [])))

  slide :
      (xs : List A) (value : ℕ → A) (n : ℕ)
      → 1 ≤ length xs
      → drop 1 (drop n (xs ++ tabulate n value)) ++ value n ∷ []
        ≡ drop (suc n) (xs ++ tabulate (suc n) value)
  slide xs value n h =
      let long : suc n ≤ length (xs ++ tabulate n value) =
        omega (arith, length-append xs (tabulate n value), length-tabulate n value) in
      let one_more : n + 1 ≡ suc n = omega arith in
      rw (
        tabulate_snoc n value,
        sym (append_assoc xs (tabulate n value) (value n ∷ [])),
        drop-append (suc n) (xs ++ tabulate n value) (value n ∷ []) long,
        drop-drop 1 n (xs ++ tabulate n value),
        one_more,
      )

module _ (d : Double) where
  -- The last `fft_size` samples, from the oldest on.
  abbrev pub window_of : FftProcessor d → List d.Carrier
  window_of p = oldest_first p.ring p.write_pos

  pub record RingIsValid (size : ℕ) (ring : List d.Carrier) (write_pos : ℕ) : Type 0 where
    pub full : length ring ≡ size
    pub inside : write_pos < size

  -- A sample that is shifted in: what the ring holds, and that it stays valid.
  shift_in_lem :
      (size : ℕ) (v : d.Carrier) (ring : List d.Carrier) (p : ℕ)
      → RingIsValid size ring p
      → (oldest_first (shift_in d size v (ring, p)).0 (shift_in d size v (ring, p)).1
          ≡ drop 1 (oldest_first ring p) ++ v ∷ [])
        × RingIsValid size (shift_in d size v (ring, p)).0 (shift_in d size v (ring, p)).1
  unfolding shift_in
  shift_in_lem size v ring p h =
      let full : length (set ring p v) ≡ size = length-set ring p v ∙ h.full in
      let after = written ring p v (omega (arith, h.full, h.inside)) in
      elim (dec_lt (suc p) size) [
        | yes lt ↦
            let next : (p + 1) % size ≡ suc p = mod-eq_of_lt (omega arith) ∙ (omega arith) in
            (rw next after, record { full = full; inside = rw next lt })
        | no stop ↦
            let last : suc p ≡ size = omega (arith, h.inside) in
            let next : (p + 1) % size ≡ 0 = grind arith in
            (
              rw next (wrapped (suc p) (set ring p v) (full ∙ sym last) ∙ after),
              record { full = full; inside = rw next (omega (arith, h.inside)) },
            )
      ]

  -- `n` samples.
  pub shifted :
      (size : ℕ) (value : ℕ → d.Carrier) (ring : List d.Carrier) (p : ℕ)
      → RingIsValid size ring p
      → (n : ℕ)
      → let s = for_below n (λ i. shift_in d size (value i)) (ring, p) in
        (oldest_first s.0 s.1 ≡ drop n (oldest_first ring p ++ tabulate n value))
        × RingIsValid size s.0 s.1
  unfolding for_below
  shifted size value ring p h zero = (sym (append-nil (oldest_first ring p)), h)
  shifted size value ring p h (suc n) =
      let (slid, valid) = shifted size value ring p h n in
      let (next, valid') = shift_in_lem size (value n) _ _ valid in
      (
        next
            ∙ ap (λ xs. drop 1 xs ++ value n ∷ []) slid
            ∙ slide (oldest_first ring p) value n
                (omega (arith, h.full, h.inside, length-oldest_first ring p)),
        valid',
      )

  -- The element at `i` from the oldest on is the one that the code reads.
  pub get_or-oldest_first :
      (size : ℕ) (ring : List d.Carrier) (p i : ℕ)
      → RingIsValid size ring p
      → i < size
      → get_or ring ((p + i) % size) (nought d) ≡ get_or (oldest_first ring p) i (nought d)
  get_or-oldest_first size ring p i h lt =
      let split = get_or-append (drop p ring) (take p ring) i (nought d) in
      let len : length (drop p ring) ≡ size - p = length-drop p ring ∙ ap (λ k. k - p) h.full in
      elim (dec_lt (p + i) size) [
        | yes inside ↦
            let here : ltb i (length (drop p ring)) ≡ true = ground (arith, len, h.inside) in
            rw (mod-eq_of_lt inside) (sym (split ∙ (rw here (get_or-drop p ring i (nought d)))))
        | no outside ↦
            let there : ltb i (length (drop p ring)) ≡ false = ground (arith, len, h.inside) in
            let index : (p + i) % size ≡ i - length (drop p ring) =
              mod-eq-sub-mod (omega arith)
              ∙ mod-eq_of_lt (omega (arith, h.inside))
              ∙ (omega (arith, len, h.inside)) in
            rw index (
              sym (
                split
                ∙ (rw there (
                    get_or-take p ring (i - length (drop p ring)) (nought d)
                      (omega (arith, len, h.inside))))))
      ]
