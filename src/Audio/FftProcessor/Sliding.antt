-- ===== src/Audio/FftProcessor/Sliding.antt =====
-- audio/FFTProcessor.h: the spectra over a history of blocks that are read from the fifo.
use mathlib.Core.List.{append_assoc, append-nil}
use phu_audio_lib.Base.{
  ℕ, ◌/◌, ◌≤◌, ◌≡◌, refl, sym, ap, ◌∙◌, Bool, true, false, List, [], ◌∷◌, ◌++◌, length, drop,
  drop-append, drop-drop, length-append, tabulate, length-tabulate, for_below, for_below-keeps,
  get_or, if◌then◌else◌, arith,
}
use phu_audio_lib.Double.{Double}
use phu_audio_lib.Analog.Elements.{nought}
use phu_audio_lib.Audio.FftProcessor.{
  FftProcessor, mono, mix_in, fft_input, analyse, smooth_bin, count, take_in,
}
use phu_audio_lib.Audio.FftProcessor.Window.{oldest_first, window_of, RingIsValid, shifted}

if_holds {ℓ} :
    {A : Type ℓ} (P : A → Type 0) (b : Bool) (x y : A) → P x → P y → P (if b then x else y)
if_holds P true x y p q = p
if_holds P false x y p q = q

module _ (d : Double) where
  abbrev pub Transform : Type 0
  Transform = ℕ → List d.Carrier → List d.Carrier

  -- What was read in one call of `process`.
  pub record Block : Type 0 where
    pub left : List d.Carrier
    pub right : List d.Carrier
    pub size : ℕ

  -- Its samples, mixed.
  abbrev pub mixed_at : Block → ℕ → d.Carrier
  mixed_at b i = mono d (get_or b.left i (nought d)) (get_or b.right i (nought d))

  abbrev pub mixed : Block → List d.Carrier
  mixed b = tabulate b.size (mixed_at b)

  abbrev pub all_mixed : List Block → List d.Carrier
  all_mixed [] = []
  all_mixed (b ∷ blocks) = mixed b ++ all_mixed blocks

  unfoldable pub feed : Transform → List Block → FftProcessor d → FftProcessor d
  unfolding take_in
  feed transform [] p = p
  feed transform (b ∷ blocks) p =
      feed transform blocks (take_in d transform b.left b.right b.size p).0

  abbrev pub IsValid : FftProcessor d → Type 0
  IsValid p = RingIsValid d p.fft_size p.ring p.write_pos

  -- What the transform and the smoothing leave alone.
  abbrev pub SameRing : FftProcessor d → FftProcessor d → Type 0
  SameRing p q =
      (q.ring ≡ p.ring)
      × (q.write_pos ≡ p.write_pos)
      × (q.fft_size ≡ p.fft_size)
      × (q.window ≡ p.window)
      × (q.filled ≡ p.filled)
      × (q.accumulated ≡ p.accumulated)

  analyse-SameRing :
      (transform : Transform) (p : FftProcessor d) → SameRing p (analyse d transform p)
  unfolding analyse smooth_bin
  analyse-SameRing transform p =
      let spectrum = transform p.current_order (fft_input d p) in
      let n = p.fft_size / 2 in
      let same =
        for_below-keeps (SameRing p) (smooth_bin d spectrum) (λ i q h. h) n p
          (refl, refl, refl, refl, refl, refl) in
      if_holds (SameRing p) (d.lt (nought d) (for_below n (smooth_bin d spectrum) p).strength) _ _
        same same

  -- A block, up to the transform.
  abbrev pub counted : Block → FftProcessor d → FftProcessor d
  counted b p = count d b.size (mix_in d b.left b.right b.size p)

  pub take_in-SameRing :
      (transform : Transform) (b : Block) (p : FftProcessor d)
      → SameRing (counted b p) (take_in d transform b.left b.right b.size p).0
  unfolding take_in
  take_in-SameRing transform b p =
      if_holds (λ (r : FftProcessor d × Bool). SameRing (counted b p) r.0) (counted b p).filled _ _
        (analyse-SameRing transform (counted b p)) (refl, refl, refl, refl, refl, refl)

  -- A block: the ring slides by its samples.
  abbrev pub Slides : FftProcessor d → List d.Carrier → FftProcessor d → Type 0
  Slides p xs q =
      (window_of d q ≡ drop (length xs) (window_of d p ++ xs))
      × IsValid q
      × (q.fft_size ≡ p.fft_size)
      × (q.window ≡ p.window)

  mix_in-Slides :
      (b : Block) (p : FftProcessor d)
      → IsValid p
      → Slides p (mixed b) (mix_in d b.left b.right b.size p)
  unfolding mix_in
  mix_in-Slides b p h =
      let (slid, valid) = shifted d p.fft_size (mixed_at b) p.ring p.write_pos h b.size in
      let len : b.size ≡ length (mixed b) = sym (length-tabulate b.size (mixed_at b)) in
      (slid ∙ ap (λ n. drop n (window_of d p ++ mixed b)) len, valid, refl, refl)

  -- The count leaves the ring alone, whatever its test says.
  count-Slides :
      (b : Block) (p q : FftProcessor d)
      → Slides p (mixed b) q
      → Slides p (mixed b) (count d b.size q)
  unfolding count
  count-Slides b p q h = if_holds (λ (r : FftProcessor d). Slides p (mixed b) r) q.filled _ _ h h

  SameRing-Slides :
      (p q r : FftProcessor d) (xs : List d.Carrier) → SameRing q r → Slides p xs q → Slides p xs r
  SameRing-Slides p q r xs (ring, pos, size, window, full, num) (slid, valid, kept, kept') = (
    ap (λ k. oldest_first k r.write_pos) ring ∙ ap (oldest_first q.ring) pos ∙ slid,
    record {
      full = ap length ring ∙ valid.full ∙ sym size;
      inside = omega (arith, pos, size, valid.inside);
    },
    size ∙ kept,
    window ∙ kept',
  )

  pub take_in-Slides :
      (transform : Transform) (b : Block) (p : FftProcessor d)
      → IsValid p
      → Slides p (mixed b) (take_in d transform b.left b.right b.size p).0
  take_in-Slides transform b p h =
      SameRing-Slides p (counted b p) (take_in d transform b.left b.right b.size p).0 (mixed b)
        (take_in-SameRing transform b p)
        (count-Slides b p (mix_in d b.left b.right b.size p) (mix_in-Slides b p h))

  slide_twice :
      (w xs ys : List d.Carrier)
      → drop (length ys) (drop (length xs) (w ++ xs) ++ ys)
        ≡ drop (length (xs ++ ys)) (w ++ (xs ++ ys))
  slide_twice w xs ys =
      let long : length xs ≤ length (w ++ xs) = omega (arith, length-append w xs) in
      ap (drop (length ys)) (sym (drop-append (length xs) (w ++ xs) ys long))
      ∙ drop-drop (length ys) (length xs) ((w ++ xs) ++ ys)
      ∙ ap (λ n. drop n ((w ++ xs) ++ ys)) (sym (length-append xs ys))
      ∙ ap (drop (length (xs ++ ys))) (append_assoc w xs ys)

  -- Any history of blocks.
  pub feed-Slides :
      (transform : Transform) (blocks : List Block) (p : FftProcessor d)
      → IsValid p
      → Slides p (all_mixed blocks) (feed transform blocks p)
  unfolding feed
  feed-Slides transform [] p h = (sym (append-nil (window_of d p)), h, refl, refl)
  feed-Slides transform (b ∷ blocks) p h =
      let (slid, valid, size, window) = take_in-Slides transform b p h in
      let (slid', valid', size', window') =
        feed-Slides transform blocks (take_in d transform b.left b.right b.size p).0 valid in
      (
        slid'
            ∙ ap (λ w. drop (length (all_mixed blocks)) (w ++ all_mixed blocks)) slid
            ∙ slide_twice (window_of d p) (mixed b) (all_mixed blocks),
        valid',
        size' ∙ size,
        window' ∙ window,
      )
