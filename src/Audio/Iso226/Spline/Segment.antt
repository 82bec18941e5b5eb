-- ===== src/Audio/Iso226/Spline/Segment.antt =====
-- audio/Iso226.h: the segment that the binary search of evalSpline ends at.
use phu_audio_lib.Base.{
  ℕ, zero, suc, ◌+◌, ◌-◌, ◌/◌, ◌≤◌, ◌<◌, ◌≡◌, refl, sym, subst, ◌⊎◌, inl, inr, ltb, Bool-cases,
  true, false, Returns, Returns-bind, List, arith,
}
use phu_audio_lib.Double.{Double}
use phu_audio_lib.Audio.Iso226.Spline.{Cubics, at, find_segment, cubic, eval_spline}

module _ (d : Double) (x : List d.Carrier) (xq : d.Carrier) where
  -- The knot at the lower end is not above `xq`, unless it is the first of the range; the one at the
  -- upper end is above it, unless it is the last.
  pub record IsSegment (first last r : ℕ) : Type 0 where
    pub low : first ≤ r
    pub high : r ≤ last
    pub below : (r ≡ first) ⊎ (d.le (at d x r) xq ≡ true)
    pub above : (r ≡ last) ⊎ (d.le (at d x (r + 1)) xq ≡ false)

  find_segment-IsSegment :
      (first last fuel lo hi : ℕ)
      → hi - lo < fuel
      → lo ≤ hi
      → first ≤ lo
      → hi ≤ last
      → (lo ≡ first) ⊎ (d.le (at d x lo) xq ≡ true)
      → (hi ≡ last) ⊎ (d.le (at d x (hi + 1)) xq ≡ false)
      → Returns (find_segment d fuel x xq lo hi) (IsSegment first last)
  unfolding find_segment
  find_segment-IsSegment first last zero lo hi f o l h below above = absurd (omega arith)
  find_segment-IsSegment first last (suc fuel) lo hi f o l h below above =
      let mid = (lo + hi + 1) / 2 in
      elim (Bool-cases (ltb lo hi)) [
        | inr stop ↦
            let same : lo ≡ hi = ground arith in
            rw stop (record {
              low = l;
              high = omega arith;
              below = below;
              above = subst (λ k. (k ≡ last) ⊎ (d.le (at d x (k + 1)) xq ≡ false)) (sym same) above;
            })
        | inl more ↦
            let lt : lo < hi = ground arith in
            elim (Bool-cases (d.le (at d x mid) xq)) [
              | inl up ↦
                  rw (more, up)
                    (find_segment-IsSegment first last fuel mid hi (omega arith) (omega arith)
                      (omega arith) h (inr up) above)
              | inr down ↦
                  let next : mid - 1 + 1 ≡ mid = omega arith in
                  rw (more, down)
                    (find_segment-IsSegment first last fuel lo (mid - 1) (omega arith) (omega arith)
                      l (omega arith) below (inr (rw next down)))
            ]
      ]

  -- A value of the spline with `n` knots: at or below the first knot, and in a segment.
  abbrev pub IsValue : Cubics d → ℕ → d.Carrier → Type 0
  IsValue s n v =
      ((d.le xq (at d x 0) ≡ true) × (v ≡ at d s.a 0))
      ⊎ ((d.le xq (at d x 0) ≡ false) × ((r : ℕ) × IsSegment 0 (n - 2) r × (v ≡ cubic d x s xq r)))

  -- The search of a spline of at least two knots ends. Up to the first knot the value is that of the
  -- first knot; above it the value is that of the cubic of a segment whose knots enclose the position.
  pub eval_spline-IsValue :
      (s : Cubics d) (n : ℕ) → 2 ≤ n → Returns (eval_spline d x s n xq) (IsValue s n)
  unfolding eval_spline
  eval_spline-IsValue s n h = elim (Bool-cases (d.le xq (at d x 0))) [
    | inl first ↦ rw first (inl (first, refl))
    | inr inside ↦ rw inside (
        Returns-bind (IsSegment 0 (n - 2)) (IsValue s n) (find_segment d n x xq 0 (n - 2)) _
          (find_segment-IsSegment 0 (n - 2) n 0 (n - 2) (omega arith) (omega arith) (omega arith)
            (omega arith) (inl refl) (inl refl))
          (λ r seg. inr (inside, (r, seg, refl))))
  ]
