-- ===== src/Audio/LinkwitzRiley/MultiBand/Channels.antt =====
-- audio/LinkwitzRileyFilter.h: a crossover of one channel, and two of them in one of two channels.
use phu_audio_lib.Base.{
  ℕ, suc, ◌+◌, ◌-◌, ◌≡◌, refl, ap, ◌∙◌, Option, none, some, ◌>>=◌, both, for_m, for_m-both, List,
  get_elem?,
}
use mathlib.Core.Path.{fun_ext}
use phu_audio_lib.Double.{Double}
use phu_audio_lib.Audio.LinkwitzRiley.{LinkwitzRileyFilter, write}
use phu_audio_lib.Audio.LinkwitzRiley.MultiBand.{Channel, MultiBandN}
use phu_audio_lib.Audio.LinkwitzRiley.MultiBand.Process.{
  Cascade, Row, advance, process_at, compensate_both, split_both, process_sample_multi,
}

both-none {ℓ κ} : {A : Type ℓ} {B : Type κ} (o : Option A) → none ≡ both {B = B} o none
both-none none = refl
both-none (some a) = refl

module _ (d : Double) where
  unfoldable pub compensate : ℕ → ℕ → Row d → Option (Row d)
  unfolding process_at
  compensate f k row = process_at d (suc f + k) row.1 row.0

  unfoldable pub split_one : ℕ → ℕ → Cascade d → Option (Cascade d)
  unfolding process_at compensate for_m
  split_one num_freqs f c = do
    low ← process_at d f c.input c.channel.lp_filters
    high ← process_at d f c.input c.channel.hp_filters
    row ← get_elem? c.channel.allpass f
    done ← for_m (num_freqs - suc f) (compensate f) (row, low.1)
    some (advance d f c low.0 high done)

  -- A sample through the crossover of one channel.
  unfoldable pub process_channel :
      ℕ → ℕ → d.Carrier → List d.Carrier → Channel d → Option (Channel d × List d.Carrier)
  unfolding split_one for_m
  process_channel num_freqs num_bands x bands channel = do
    c ←
        for_m num_freqs (split_one num_freqs)
          (record { channel = channel; input = x; bands = bands })
    some (c.channel, write c.bands (num_bands - 1) c.input)

  compensate_both-compensate :
      (f k : ℕ) (u : Row d × Row d)
      → compensate_both d f k u ≡ both (compensate f k u.0) (compensate f k u.1)
  unfolding compensate_both compensate
  compensate_both-compensate f k (l, r) =
      join (process_at d (suc f + k) l.1 l.0) (process_at d (suc f + k) r.1 r.0)
    where
      join : (a b : Option (Row d)) → (a >>= λ l'. b >>= λ r'. some (l', r')) ≡ both a b
      join none b = refl
      join (some a) none = refl
      join (some a) (some b) = refl

  compensate_loop :
      (f n : ℕ) (l r : Row d)
      → for_m n (compensate_both d f) (l, r)
        ≡ both (for_m n (compensate f) l) (for_m n (compensate f) r)
  compensate_loop f n l r =
      ap (λ body. for_m n body (l, r))
        (fun_ext (λ k. fun_ext (λ u. compensate_both-compensate f k u)))
      ∙ for_m-both (compensate f) (compensate f) n l r

  -- The steps of a round in the order of the code are those of the left channel and of the right.
  module _ (num_freqs f : ℕ) (l r : Cascade d) where
    merge :
        (low_l low_r high_l high_r : Option (Row d))
        → (row_l row_r : Option (List (LinkwitzRileyFilter d)))
        → Path
            (Option (Cascade d × Cascade d))
            (do
              low ← low_l
              low' ← low_r
              high ← high_l
              high' ← high_r
              row ← row_l
              row' ← row_r
              done ← for_m (num_freqs - suc f) (compensate_both d f) ((row, low.1), (row', low'.1))
              some (advance d f l low.0 high done.0, advance d f r low'.0 high' done.1))
            (both
              (do
                low ← low_l
                high ← high_l
                row ← row_l
                done ← for_m (num_freqs - suc f) (compensate f) (row, low.1)
                some (advance d f l low.0 high done))
              (do
                low ← low_r
                high ← high_r
                row ← row_r
                done ← for_m (num_freqs - suc f) (compensate f) (row, low.1)
                some (advance d f r low.0 high done)))
    merge none b c e p q = refl
    merge (some a) none c e p q = both-none _
    merge (some a) (some b) none e p q = refl
    merge (some a) (some b) (some c) none p q = both-none _
    merge (some a) (some b) (some c) (some e) none q = refl
    merge (some a) (some b) (some c) (some e) (some p) none = both-none _
    merge (some a) (some b) (some c) (some e) (some p) (some q) =
        rw (compensate_loop f (num_freqs - suc f) (p, a.1) (q, b.1)) (
          join (for_m (num_freqs - suc f) (compensate f) (p, a.1))
            (for_m (num_freqs - suc f) (compensate f) (q, b.1)))
      where
        join :
            (s t : Option (Row d))
            → (both s t >>= λ done. some (advance d f l a.0 c done.0, advance d f r b.0 e done.1))
              ≡ both
                  (s >>= λ done. some (advance d f l a.0 c done))
                  (t >>= λ done. some (advance d f r b.0 e done))
        join none t = refl
        join (some s) none = refl
        join (some s) (some t) = refl

  split_both-split_one :
      (num_freqs f : ℕ) (u : Cascade d × Cascade d)
      → split_both d num_freqs f u ≡ both (split_one num_freqs f u.0) (split_one num_freqs f u.1)
  unfolding split_both split_one
  split_both-split_one num_freqs f (l, r) =
      merge num_freqs f l r (process_at d f l.input l.channel.lp_filters)
        (process_at d f r.input r.channel.lp_filters) (process_at d f l.input l.channel.hp_filters)
        (process_at d f r.input r.channel.hp_filters) (get_elem? l.channel.allpass f)
        (get_elem? r.channel.allpass f)

  -- The two channels in the object, and the two arrays of outputs.
  abbrev pub rejoin :
      MultiBandN d
      → Channel d × List d.Carrier
      → Channel d × List d.Carrier
      → MultiBandN d × List d.Carrier × List d.Carrier
  rejoin m l r = (record m { left = l.0; right = r.0 }, l.1, r.1)

  -- A sample through a crossover of two channels is a sample through a crossover of one channel on the
  -- left and one on the right, neither of which reads the other; it faults exactly where one of them
  -- does.
  pub process_sample_multi-channels :
      (in_l in_r : d.Carrier) (bands_l bands_r : List d.Carrier) (m : MultiBandN d)
      → process_sample_multi d in_l in_r bands_l bands_r m ≡ (
          both
            (process_channel m.num_freqs m.num_bands in_l bands_l m.left)
            (process_channel m.num_freqs m.num_bands in_r bands_r m.right)
          >>= λ c. some (rejoin m c.0 c.1))
  unfolding process_sample_multi process_channel
  process_sample_multi-channels in_l in_r bands_l bands_r m =
      let l : Cascade d = record { channel = m.left; input = in_l; bands = bands_l } in
      let r : Cascade d = record { channel = m.right; input = in_r; bands = bands_r } in
      let n = m.num_freqs in
      let loop : for_m n (split_both d n) (l, r)
          ≡ both (for_m n (split_one n) l) (for_m n (split_one n) r) =
        ap (λ body. for_m n body (l, r)) (fun_ext (λ f. fun_ext (λ u. split_both-split_one n f u)))
        ∙ for_m-both (split_one n) (split_one n) n l r in
      rw loop (join (for_m n (split_one n) l) (for_m n (split_one n) r))
    where
      join :
          (s t : Option (Cascade d))
          → (both s t >>= λ u. some (
            record m { left = u.0.channel; right = u.1.channel },
            write u.0.bands (m.num_bands - 1) u.0.input,
            write u.1.bands (m.num_bands - 1) u.1.input,
          ))
            ≡ (both
                  (s >>= λ c. some (c.channel, write c.bands (m.num_bands - 1) c.input))
                  (t >>= λ c. some (c.channel, write c.bands (m.num_bands - 1) c.input))
                >>= λ c. some (rejoin m c.0 c.1))
      join none t = refl
      join (some s) none = refl
      join (some s) (some t) = refl
