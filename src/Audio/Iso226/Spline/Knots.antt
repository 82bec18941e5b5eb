-- ===== src/Audio/Iso226/Spline/Knots.antt =====
-- audio/Iso226.h: the spline at its knots.
use phu_audio_lib.Base.{
  ℕ, zero, suc, ◌+◌, ◌-◌, ◌≤◌, ◌<◌, ◌≡◌, refl, sym, ap, ◌∙◌, ◌⊎◌, inl, inr, leb, ltb, leb→le, Bool,
  true, false, Returns, Returns-weaken, for_below, for_below-keeps, for_below-part, List, length,
  get_or, get_or-set, set, length-set, if◌then◌else◌, arith,
}
use phu_audio_lib.Double.{Double}
use phu_audio_lib.Analog.Elements.{nought}
use phu_audio_lib.Audio.Iso226.Spline.{
  Cubics, Build, at, widths, forward, backward, start, build_spline, cubic, eval_spline,
}
use phu_audio_lib.Audio.Iso226.Spline.Segment.{IsSegment, IsValue, eval_spline-IsValue}

-- A loop that writes each element below `n`.
pub get_or-for_below {ℓ} :
    {A : Type ℓ} (f : ℕ → A) (default : A) (n j : ℕ) (xs : List A)
    → n ≤ length xs
    → (get_or (for_below n (λ i out. set out i (f i)) xs) j default
        ≡ (if ltb j n then f j else get_or xs j default))
      × (length (for_below n (λ i out. set out i (f i)) xs) ≡ length xs)
unfolding for_below
get_or-for_below f default zero j xs h = (ground arith, refl)
get_or-for_below f default (suc n) j xs h =
    let (value, len) = get_or-for_below f default n j xs (omega arith) in
    let before = for_below n (λ i out. set out i (f i)) xs in
    let write = get_or-set before n j (f n) default (omega (arith, len)) in
    (ground (arith, write, value), length-set before n (f n) ∙ len)

-- A loop that does not write the constant coefficients.
keeps_a :
    (d : Double) (body : ℕ → Build d → Build d)
    → ((i : ℕ) (b : Build d) → (body i b).spline.a ≡ b.spline.a)
    → (n : ℕ) (b : Build d) → (for_below n body b).spline.a ≡ b.spline.a
keeps_a d body same n b =
    for_below-keeps (λ (t : Build d). t.spline.a ≡ b.spline.a) body (λ i t h. same i t ∙ h) n b refl

module _ (d : Double) (x y : List d.Carrier) (n : ℕ) (s : Cubics d) where
  build_spline-a :
      (build_spline d x y n s).a ≡ for_below (n - 1) (λ i out. set out i (at d y i)) s.a
  unfolding build_spline forward backward widths start
  build_spline-a =
      keeps_a d (λ k. backward d y (n - 1 - 1 - k)) (λ i b. refl) (n - 1) _
      ∙ keeps_a d (λ k. forward d x y (k + 1)) (λ i b. refl) (n - 1 - 1) _
      ∙ for_below-part (λ (b : Build d). b.spline.a) (widths d x y) (λ i out. set out i (at d y i))
          (λ i b. refl) (n - 1) (start d n s)

  -- The constant coefficient of a segment is the value at its lower knot.
  at-build_spline :
      (k : ℕ) → n - 1 ≤ length s.a → k < n - 1 → at d (build_spline d x y n s).a k ≡ at d y k
  at-build_spline k sized lt =
      let inside : ltb k (n - 1) ≡ true = ground arith in
      ap (λ a. at d a k) build_spline-a
      ∙ (get_or-for_below (at d y) (nought d) (n - 1) k s.a sized).0
      ∙ (rw inside)

  -- At each knot but the last, of knots that `<=` has in ascending order, the spline takes the value
  -- of the data at the first one, and at the others it is evaluated on the segment that begins there,
  -- whose constant coefficient is that of the data.
  pub eval_spline-build_spline :
      (k : ℕ)
      → n - 1 ≤ length s.a
      → k < n - 1
      → ((i j : ℕ) → i < n → j < n → d.le (at d x i) (at d x j) ≡ leb i j)
      → Returns (eval_spline d x (build_spline d x y n s) n (at d x k)) (λ v.
        ((k ≡ 0) × (v ≡ at d y 0))
        ⊎ ((at d (build_spline d x y n s).a k ≡ at d y k)
            × (v ≡ cubic d x (build_spline d x y n s) (at d x k) k)))
  eval_spline-build_spline k sized lt order =
      Returns-weaken (IsValue d x (at d x k) (build_spline d x y n s) n) _ _ (λ v. at_knot v)
        (eval_spline-IsValue d x (at d x k) (build_spline d x y n s) n (omega arith))
    where
      le→leb : (i j : ℕ) {b : Bool} → i < n → j < n → d.le (at d x i) (at d x j) ≡ b → leb i j ≡ b
      le→leb i j hi hj e = sym (order i j hi hj) ∙ e

      segment : (r : ℕ) → IsSegment d x (at d x k) 0 (n - 2) r → r ≡ k
      segment r seg =
          let low : r ≤ k = elim seg.below [
            | inl first ↦ omega (arith, first)
            | inr e ↦ leb→le r k (le→leb r k (omega (arith, seg.high)) (omega arith) e)
          ] in
          let high : k ≤ r = elim seg.above [
            | inl last ↦ omega (arith, last)
            | inr e ↦
                let above : leb (r + 1) k ≡ false =
                  le→leb (r + 1) k (omega (arith, seg.high)) (omega arith) e in
                ground arith
          ] in
          omega arith

      at_knot :
          (v : d.Carrier)
          → IsValue d x (at d x k) (build_spline d x y n s) n v
          → ((k ≡ 0) × (v ≡ at d y 0))
            ⊎ ((at d (build_spline d x y n s).a k ≡ at d y k)
                × (v ≡ cubic d x (build_spline d x y n s) (at d x k) k))
      at_knot v (inl (first, e)) =
          let zero_le : leb k 0 ≡ true = le→leb k 0 (omega arith) (omega arith) first in
          inl (omega (arith, leb→le k 0 zero_le), e ∙ at-build_spline 0 sized (omega arith))
      at_knot v (inr (inside, (r, seg, e))) = inr (
        at-build_spline k sized lt,
        e ∙ ap (cubic d x (build_spline d x y n s) (at d x k)) (segment r seg),
      )
