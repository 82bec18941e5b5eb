-- ===== src/Audio/FftProcessor/Filled.antt =====
-- audio/FFTProcessor.h: what the first transforms of a processor are given.
use phu_audio_lib.Base.{
  ℕ, ◌+◌, ◌^◌, ◌≤◌, ◌<◌, ◌≡◌, ◌≢◌, refl, sym, ap, ◌∙◌, ℤ, pos, negsuc, true, false, if_cases,
  ==_iff, leb, ◌==◌, List, [], ◌∷◌, ◌++◌, length, drop, length-append, replicate, length-replicate,
  tabulate, tabulate_eq, length-tabulate, get_or, get_or-tabulate, arith,
}
use mathlib.Core.List.{append-nil}
use native.Mathlib.Nat.{one-le-pow}
use phu_audio_lib.Double.{Double}
use phu_audio_lib.Analog.Elements.{nought}
use phu_audio_lib.Audio.FftProcessor.{
  FftProcessor, limit_order, hann, mix_in, fft_input, count, take_in, set_fft_order,
}
use phu_audio_lib.Audio.FftProcessor.Window.{window_of, get_or-oldest_first}
use phu_audio_lib.Audio.FftProcessor.Sliding.{
  Transform, Block, mixed, mixed_at, all_mixed, feed, IsValid, take_in-SameRing, feed-Slides,
}

limit_order_bounds : (order : ℤ) → (10 ≤ limit_order order) × (limit_order order ≤ 15)
unfolding limit_order
limit_order_bounds (pos n) = ground arith
limit_order_bounds (negsuc n) = omega arith

leb-add : (size total n : ℕ) → leb size total ≡ true → leb size (total + n) ≡ true
leb-add size total n h = ground arith

module _ (d : Double) where
  -- The flag and the count of a processor that `total` samples were shifted into.
  abbrev IsCounted : ℕ → FftProcessor d → Type 0
  IsCounted total p = (p.filled ≡ leb p.fft_size total) × (p.filled ≡ false → p.accumulated ≡ total)

  -- The same, where a count that is not up to date does not show.
  abbrev MayCount : ℕ → FftProcessor d → Type 0
  MayCount total p =
      (p.filled ≡ true → leb p.fft_size total ≡ true) × (p.filled ≡ false → p.accumulated ≡ total)

  count-IsCounted :
      (total n : ℕ) (p : FftProcessor d) → MayCount total p → IsCounted (total + n) (count d n p)
  unfolding count
  count-IsCounted total n p (h, k) =
      if_cases (IsCounted (total + n)) p.filled _ _
        (λ full. (full ∙ sym (leb-add p.fft_size total n (h full)), λ e. cc))
        (λ part. (ap (λ a. leb p.fft_size (a + n)) (k part), λ e. ap (λ a. a + n) (k part)))

  mix_in-MayCount :
      (b : Block d) (total : ℕ) (p : FftProcessor d)
      → MayCount total p
      → MayCount total (mix_in d b.left b.right b.size p)
  unfolding mix_in
  mix_in-MayCount b total p h = h

  take_in-IsCounted :
      (transform : Transform d) (b : Block d) (total : ℕ) (p : FftProcessor d)
      → MayCount total p
      → IsCounted (total + b.size) (take_in d transform b.left b.right b.size p).0
  take_in-IsCounted transform b total p h =
      let (ring, write_pos, size, window, filled, accumulated) = take_in-SameRing d transform b p in
      let (flag, sum) =
        count-IsCounted total b.size (mix_in d b.left b.right b.size p)
          (mix_in-MayCount b total p h) in
      (
        filled ∙ flag ∙ ap (λ n. leb n (total + b.size)) (sym size),
        λ e. accumulated ∙ sum (sym filled ∙ e),
      )

  feed-IsCounted :
      (transform : Transform d) (blocks : List (Block d)) (total : ℕ) (p : FftProcessor d)
      → IsCounted total p
      → IsCounted (total + length (all_mixed d blocks)) (feed d transform blocks p)
  unfolding feed
  feed-IsCounted transform [] total p h = let e : total + 0 ≡ total = omega arith in rw e h
  feed-IsCounted transform (b ∷ blocks) total p h =
      let e : total + length (mixed d b ++ all_mixed d blocks)
          ≡ (total + b.size) + length (all_mixed d blocks) =
        omega (
          arith,
          length-append (mixed d b) (all_mixed d blocks),
          length-tabulate b.size (mixed_at d b),
        ) in
      rw e (
        feed-IsCounted transform blocks (total + b.size)
          (take_in d transform b.left b.right b.size p).0
          (take_in-IsCounted transform b total p (λ full. sym h.0 ∙ full, h.1)))

  -- The transform of a processor is given the window over the oldest to the newest of the ring.
  fft_input-window_of :
      (p : FftProcessor d)
      → IsValid d p
      → fft_input d p
        ≡ tabulate p.fft_size
            (λ i. d.mul (get_or (window_of d p) i (nought d)) (get_or p.window i (nought d)))
          ++ replicate p.fft_size (nought d)
  unfolding fft_input
  fft_input-window_of p h =
      ap (λ xs. xs ++ replicate p.fft_size (nought d))
        (tabulate_eq p.fft_size _ _ (λ i lt.
          ap (λ x. d.mul x (get_or p.window i (nought d)))
            (get_or-oldest_first d p.fft_size p.ring p.write_pos i h lt)))

  -- What a change of the order leaves.
  record IsFresh (order : ℤ) (accumulated : ℕ) (p : FftProcessor d) : Type 0 where
    size : p.fft_size ≡ 2 ^ limit_order order
    hann_window : p.window ≡ tabulate (2 ^ limit_order order) (hann d (2 ^ limit_order order))
    valid : IsValid d p
    silent : window_of d p ≡ replicate (2 ^ limit_order order) (nought d)
    empty : p.filled ≡ false
    kept : p.accumulated ≡ accumulated

  set_fft_order-IsFresh :
      (order : ℤ) (p : FftProcessor d)
      → limit_order order ≢ p.current_order
      → IsFresh order p.accumulated (set_fft_order d order p)
  unfolding set_fft_order
  set_fft_order-IsFresh order p other =
      let n = 2 ^ limit_order order in
      if_cases (IsFresh order p.accumulated) (limit_order order == p.current_order) _ _
        (λ same. absurd (other ((==_iff (limit_order order) p.current_order).0 same)))
        (λ differs. record {
          size = refl;
          hann_window = refl;
          valid = record {
            full = length-replicate n (nought d);
            inside = pow_pos (limit_order order);
          };
          silent = append-nil (replicate n (nought d));
          empty = refl;
          kept = refl;
        })
    where
      pow_pos : (k : ℕ) → 0 < 2 ^ k
      pow_pos k = one-le-pow k 2 (omega arith)

  weighted :
      (n m : ℕ) (xs ys w : List d.Carrier)
      → n ≡ m
      → xs ≡ ys
      → w ≡ tabulate m (hann d m)
      → tabulate n (λ i. d.mul (get_or xs i (nought d)) (get_or w i (nought d)))
          ++ replicate n (nought d)
        ≡ tabulate m (λ i. d.mul (get_or ys i (nought d)) (hann d m i)) ++ replicate m (nought d)
  weighted n m xs ys w e e' e'' =
      rw (e, e', e'')
        (ap (λ zs. zs ++ replicate m (nought d))
          (tabulate_eq m _ _ (λ i lt.
            ap (d.mul (get_or ys i (nought d))) (get_or-tabulate m (hann d m) i (nought d) lt))))

  -- After a change of the order, and any blocks, the transform is given the last samples of the blocks
  -- mixed to one channel, from the oldest to the newest and with silence before them, each times the
  -- Hann window, and then as many zeros.
  pub feed-fft_input :
      (transform : Transform d) (order : ℤ) (blocks : List (Block d)) (p : FftProcessor d)
      → limit_order order ≢ p.current_order
      → let size = 2 ^ limit_order order in
        let heard =
          drop (length (all_mixed d blocks)) (replicate size (nought d) ++ all_mixed d blocks) in
        fft_input d (feed d transform blocks (set_fft_order d order p))
        ≡ tabulate size (λ i. d.mul (get_or heard i (nought d)) (hann d size i))
          ++ replicate size (nought d)
  feed-fft_input transform order blocks p other =
      let fresh = set_fft_order-IsFresh order p other in
      let (slid, valid, size, window) =
        feed-Slides d transform blocks (set_fft_order d order p) fresh.valid in
      let samples = all_mixed d blocks in
      fft_input-window_of (feed d transform blocks (set_fft_order d order p)) valid
      ∙ weighted _ (2 ^ limit_order order) _ _ _ (size ∙ fresh.size)
          (slid ∙ ap (λ w. drop (length samples) (w ++ samples)) fresh.silent)
          (window ∙ fresh.hann_window)

  -- After a change of the order, and a block or more, the processor counts as filled exactly if the
  -- samples of the blocks, with those that it had counted before the change, are as many as the
  -- transform takes.
  pub feed-filled :
      (transform : Transform d) (order : ℤ) (b : Block d) (blocks : List (Block d))
      (p : FftProcessor d)
      → limit_order order ≢ p.current_order
      → (feed d transform (b ∷ blocks) (set_fft_order d order p)).filled
        ≡ leb (2 ^ limit_order order) (p.accumulated + length (all_mixed d (b ∷ blocks)))
  unfolding feed
  feed-filled transform order b blocks p other =
      let fresh = set_fft_order-IsFresh order p other in
      let start = set_fft_order d order p in
      let (slid, valid, size, window) = feed-Slides d transform (b ∷ blocks) start fresh.valid in
      let total : (p.accumulated + b.size) + length (all_mixed d blocks)
          ≡ p.accumulated + length (mixed d b ++ all_mixed d blocks) =
        omega (
          arith,
          length-append (mixed d b) (all_mixed d blocks),
          length-tabulate b.size (mixed_at d b),
        ) in
      (feed-IsCounted transform blocks (p.accumulated + b.size)
        (take_in d transform b.left b.right b.size start).0
        (take_in-IsCounted transform b p.accumulated start (λ full. cc, λ part. fresh.kept))).0
      ∙ ap (λ n. leb n ((p.accumulated + b.size) + length (all_mixed d blocks))) (size ∙ fresh.size)
      ∙ ap (leb (2 ^ limit_order order)) total
