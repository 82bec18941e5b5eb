-- ===== src/Audio/Iso226/Contour.antt =====
-- audio/Iso226.h: what the spans hold.
use phu_audio_lib.Base.{
  ℕ, suc, ◌≤◌, ◌<◌, ◌≡◌, refl, sym, ◌∙◌, if_cases, Option, none, some, ◌>>=◌, Returns,
  Returns-weaken, Returns-bind, for_m-Returns, List, length, get_elem?, get_elem?-set_self,
  get_elem?-set_ne, set, length-set, arith,
}
use native.Mathlib.Decide.{ℕ_discrete}
use phu_audio_lib.Double.{Double}
use phu_audio_lib.Analog.Elements.{nought}
use phu_audio_lib.Audio.Iso226.{Reference, reference, level_of, by_given_freqs}
use phu_audio_lib.Audio.Iso226.Spline.{at}
use phu_audio_lib.Audio.Iso226.Spline.Segment.{IsValue, eval_spline-IsValue}

module _ (d : Double) where
  -- Each frequency has a level.
  level_of-IsFound : (r : Reference d) (f : d.Carrier) → Returns (level_of d r f) (λ v. Unit {0})
  unfolding level_of
  level_of-IsFound r f =
      let Found : Option d.Carrier → Type 0 = λ o. Returns o (λ v. Unit {0}) in
      if_cases Found (d.le f (nought d)) _ _ (λ silent. tt)
        (λ audible.
          if_cases Found (d.le (d.log10 f) (at d r.log_x 28)) _ _
            (λ inside.
              Returns-weaken (IsValue d r.log_x (d.log10 f) r.spline 29) (λ v. Unit {0}) _
                (λ v value. tt)
                (eval_spline-IsValue d r.log_x (d.log10 f) r.spline 29 (omega arith)))
            (λ above. tt))

  level_of-Returns :
      (r : Reference d) (f : d.Carrier) → Returns (level_of d r f) (λ v. level_of d r f ≡ some v)
  level_of-Returns r f = itself (level_of d r f) (level_of-IsFound r f)
    where
      itself : (o : Option d.Carrier) → Returns o (λ v. Unit {0}) → Returns o (λ v. o ≡ some v)
      itself none h = absurd h
      itself (some v) h = refl

  -- What `out'` holds after `n` rounds: the levels of `n` frequencies, and the rest of `out`.
  pub record Holds (r : Reference d) (freqs out : List d.Carrier) (n : ℕ) (out' : List d.Carrier)
      : Type 0 where
    pub sized : length out' ≡ length out
    pub levels : (j : ℕ) → j < n → get_elem? out' j ≡ level_of d r (at d freqs j)
    pub rest : (j : ℕ) → n ≤ j → get_elem? out' j ≡ get_elem? out j

  set-Holds :
      (r : Reference d) (freqs out : List d.Carrier) (n : ℕ) (out' : List d.Carrier) (v : d.Carrier)
      → n < length out
      → level_of d r (at d freqs n) ≡ some v
      → Holds r freqs out n out'
      → Holds r freqs out (suc n) (set out' n v)
  set-Holds r freqs out n out' v lt e h = record {
    sized = length-set out' n v ∙ h.sized;
    levels = λ j below. elim (ℕ_discrete n j) [
      | yes same ↦ rw (sym same) (get_elem?-set_self out' n v (omega (arith, h.sized)) ∙ sym e)
      | no other ↦ get_elem?-set_ne out' v other ∙ h.levels j (omega (arith, other))
    ];
    rest = λ j above.
        get_elem?-set_ne out' v (λ e. absurd (omega (arith, e))) ∙ h.rest j (omega arith);
  }

  -- A span of at least as many elements as there are frequencies is given the level of each frequency,
  -- in order; its other elements stay as they are, and the count of the frequencies is returned.
  pub by_given_freqs-Holds :
      (phon : d.Carrier) (freqs out : List d.Carrier)
      → length freqs ≤ length out
      → Returns (by_given_freqs d phon freqs out) (λ result.
        Holds (reference d phon) freqs out (length freqs) result.0 × (result.1 ≡ length freqs))
  unfolding by_given_freqs
  by_given_freqs-Holds phon freqs out fits =
      let r = reference d phon in
      Returns-bind (Holds r freqs out (length freqs)) _ _ _
        (for_m-Returns (Holds r freqs out)
          (λ i out. level_of d r (at d freqs i) >>= λ v. some (set out i v)) (length freqs)
          (λ i out' lt h.
            Returns-bind (λ v. level_of d r (at d freqs i) ≡ some v) (Holds r freqs out (suc i)) _ _
              (level_of-Returns r (at d freqs i))
              (λ v e. set-Holds r freqs out i out' v (omega arith) e h))
          out (record { sized = refl; levels = λ j lt. absurd (omega arith); rest = λ j le. refl }))
        (λ out' h. (h, refl))
