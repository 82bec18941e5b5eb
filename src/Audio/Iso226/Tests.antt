-- ===== src/Audio/Iso226/Tests.antt =====
-- audio/Iso226.h at concrete inputs, in integers.
use phu_audio_lib.Base.{
  ℕ, zero, suc, ◌+◌, ◌*◌, ◌*ℤ◌, ◌<◌, ◌≡◌, ◌⊎◌, refl, pos, ℤ, leb, leb_ℤ, List, [], ◌∷◌, length,
  some, Returns, arith,
}
use phu_audio_lib.Double.Integers.{integers}
use phu_audio_lib.Audio.Iso226.{reference, by_given_freqs, by_fft}
use phu_audio_lib.Audio.Iso226.Contour.{Holds, by_given_freqs-Holds}
use phu_audio_lib.Audio.Iso226.Spline.{Cubics, at, build_spline, find_segment, cubic, eval_spline}
use phu_audio_lib.Audio.Iso226.Spline.Knots.{eval_spline-build_spline}
use phu_audio_lib.Audio.Iso226.Spline.Segment.{IsValue, eval_spline-IsValue}

bins :
    by_fft integers (pos 48000) 4 (pos 7 ∷ pos 7 ∷ pos 7 ∷ pos 7 ∷ [])
    ≡ (pos 0 ∷ pos 12000 ∷ pos 24000 ∷ pos 7 ∷ [], 3)
unfolding by_fft ◌*ℤ◌
bins = refl

abbrev knots : List ℤ
knots = pos 10 ∷ pos 20 ∷ pos 30 ∷ pos 40 ∷ []

finds : find_segment integers 4 knots (pos 25) 0 2 ≡ some 1
unfolding find_segment
finds = refl

abbrev values : List ℤ
values = pos 5 ∷ pos 6 ∷ pos 9 ∷ pos 2 ∷ []

abbrev empty : Cubics integers
empty = record {
  a = pos 0 ∷ pos 0 ∷ pos 0 ∷ [];
  b = pos 0 ∷ pos 0 ∷ pos 0 ∷ [];
  c = pos 0 ∷ pos 0 ∷ pos 0 ∷ [];
  d' = pos 0 ∷ pos 0 ∷ pos 0 ∷ [];
}

knot_at : (i : ℕ) → i < 4 → at integers knots i ≡ pos (10 * i + 10)
knot_at zero h = refl
knot_at (suc zero) h = refl
knot_at (suc (suc zero)) h = refl
knot_at (suc (suc (suc zero))) h = refl
knot_at (suc (suc (suc (suc i)))) h = absurd (omega arith)

ascending : (i j : ℕ) → i < 4 → j < 4 → leb_ℤ (at integers knots i) (at integers knots j) ≡ leb i j
ascending i j hi hj = rw (knot_at i hi, knot_at j hj) (ground arith)

eval_spline-IsValue_example :
    Returns (eval_spline integers knots empty 4 (pos 25)) (IsValue integers knots (pos 25) empty 4)
eval_spline-IsValue_example = eval_spline-IsValue integers knots (pos 25) empty 4 (omega arith)

eval_spline-build_spline_example :
    Returns
      (eval_spline integers knots
        (build_spline integers knots values 4 empty)
        4
        (at integers knots 1))
      (λ v.
        (◌≡◌ {A = ℕ} 1 0 × (v ≡ at integers values 0))
        ⊎ ((at integers (build_spline integers knots values 4 empty).a 1 ≡ at integers values 1)
            × (v
                ≡ cubic integers knots
                    (build_spline integers knots values 4 empty)
                    (at integers knots 1)
                    1)))
eval_spline-build_spline_example =
    eval_spline-build_spline integers knots values 4 empty 1 (omega arith) (omega arith) ascending

abbrev heard : List ℤ
heard = pos 0 ∷ pos 440 ∷ []

abbrev span : List ℤ
span = pos 0 ∷ pos 0 ∷ pos 7 ∷ []

levels_given : Returns (by_given_freqs integers (pos 40) heard span) (λ result.
    Holds integers (reference integers (pos 40)) heard span (length heard) result.0
    × (result.1 ≡ length heard))
levels_given = by_given_freqs-Holds integers (pos 40) heard span (omega arith)
