-- ===== src/Audio/LinkwitzRiley/MultiBand/Safety.antt =====
-- audio/LinkwitzRileyFilter.h: the indices that a sample through a channel reads.
use phu_audio_lib.Base.{
  Returns-weaken, Returns-both, ℕ, suc, ◌+◌, ◌-◌, ◌<◌, ◌≤◌, ◌≡◌, refl, subst, Returns, Returns-bind,
  for_m, for_m-Returns, List, get_elem?, set, arith,
}
use phu_audio_lib.Double.{Double}
use phu_audio_lib.Audio.LinkwitzRiley.{LinkwitzRileyFilter, process_sample, reset}
use phu_audio_lib.Audio.LinkwitzRiley.Stages.{
  IsConfigured, process_sample-reset, reset-eq-IsConfigured,
}
use phu_audio_lib.Audio.LinkwitzRiley.MultiBand.{Channel}
use phu_audio_lib.Audio.LinkwitzRiley.MultiBand.Arrays.{
  Returns-set, Returns-set_at, Below, AnyFilter, RowIsReady, ChannelIsReady,
}
use phu_audio_lib.Audio.LinkwitzRiley.MultiBand.Process.{Cascade, Row, advance, process_at}
use phu_audio_lib.Audio.LinkwitzRiley.MultiBand.Channels.{compensate, split_one, process_channel}

module _ (d : Double) where
  -- A write of a configured filter.
  abbrev IsWritten : ℕ → List (LinkwitzRileyFilter d) → Row d → Type 0
  IsWritten i filters r = (g : LinkwitzRileyFilter d) × IsConfigured d g × (r.0 ≡ set filters i g)

  process_at-IsWritten :
      (i : ℕ) (x : d.Carrier) (filters : List (LinkwitzRileyFilter d))
      → Returns (get_elem? filters i) (IsConfigured d)
      → Returns (process_at d i x filters) (IsWritten i filters)
  unfolding process_at
  process_at-IsWritten i x filters h =
      Returns-bind (IsConfigured d) (IsWritten i filters) (get_elem? filters i) _ h (λ f c.
        Returns-bind (λ r. reset d r.0 ≡ reset d f) (IsWritten i filters) (process_sample d x f) _
          (process_sample-reset d x f c) (λ r e. (r.0, reset-eq-IsConfigured d f r.0 e c, refl)))

  -- What a write of a configured filter keeps.
  IsWritten-Below :
      (n i : ℕ) (filters : List (LinkwitzRileyFilter d)) (P : LinkwitzRileyFilter d → Type 0)
      (r : Row d)
      → ((g : LinkwitzRileyFilter d) → IsConfigured d g → P g)
      → IsWritten i filters r
      → Below n P filters
      → Below n P r.0
  IsWritten-Below n i filters P r holds (g, c, e) h j lt =
      rw e (Returns-set P filters i j g (holds g c) (h j lt))

  abbrev RowInv : ℕ → ℕ → List (LinkwitzRileyFilter d) → Type 0
  RowInv n f row = RowIsReady d n f row × Below 6 (AnyFilter d) row

  IsWritten-RowInv :
      (n f i : ℕ) (row : List (LinkwitzRileyFilter d)) (r : Row d)
      → IsWritten i row r
      → RowInv n f row
      → RowInv n f r.0
  IsWritten-RowInv n f i row r (g, c, e) (ready, sized) = (
    λ j low high. rw e (Returns-set (IsConfigured d) row i j g c (ready j low high)),
    IsWritten-Below 6 i row (AnyFilter d) r (λ g c. tt) (g, c, e) sized,
  )

  compensate-RowInv :
      (n f : ℕ) (row : Row d)
      → RowInv n f row.0
      → Returns (for_m (n - suc f) (compensate d f) row) (λ r. RowInv n f r.0)
  unfolding compensate
  compensate-RowInv n f =
      for_m-Returns (λ k r. RowInv n f r.0) (compensate d f) (n - suc f)
        (λ k r lt h.
          Returns-weaken (IsWritten (suc f + k) r.0) (λ r. RowInv n f r.0)
            (process_at d (suc f + k) r.1 r.0) (λ r' w. IsWritten-RowInv n f (suc f + k) r.0 r' w h)
            (process_at-IsWritten (suc f + k) r.1 r.0
              (h.0 (suc f + k) (omega arith) (omega arith))))

  advance-ChannelIsReady :
      (n f : ℕ) (c : Cascade d) (low high row : Row d)
      → ChannelIsReady d n c.channel
      → IsWritten f c.channel.lp_filters low
      → IsWritten f c.channel.hp_filters high
      → RowInv n f row.0
      → ChannelIsReady d n (advance d f c low.0 high row).channel
  advance-ChannelIsReady n f c low high row h l g r = record {
    sized = record {
      lps = IsWritten-Below 6 f c.channel.lp_filters (AnyFilter d) low (λ g c. tt) l h.sized.lps;
      hps = IsWritten-Below 6 f c.channel.hp_filters (AnyFilter d) high (λ g c. tt) g h.sized.hps;
      rows = λ b lt.
          Returns-set (Below 6 (AnyFilter d)) c.channel.allpass f b row.0 r.1 (h.sized.rows b lt);
    };
    lps = IsWritten-Below n f c.channel.lp_filters (IsConfigured d) low (λ g c. c) l h.lps;
    hps = IsWritten-Below n f c.channel.hp_filters (IsConfigured d) high (λ g c. c) g h.hps;
    rows = λ b lt.
        Returns-set_at (RowIsReady d n b) c.channel.allpass f b row.0
          (λ e. subst (λ k. RowIsReady d n k row.0) e r.0) (h.rows b lt);
  }

  split_one-ChannelIsReady :
      (n f : ℕ) (c : Cascade d)
      → n ≤ 6
      → f < n
      → ChannelIsReady d n c.channel
      → Returns (split_one d n f c) (λ c'. ChannelIsReady d n c'.channel)
  unfolding split_one
  split_one-ChannelIsReady n f c small lt h =
      let Q : Cascade d → Type 0 = λ c'. ChannelIsReady d n c'.channel in
      Returns-bind (IsWritten f c.channel.lp_filters) Q
        (process_at d f c.input c.channel.lp_filters) _
        (process_at-IsWritten f c.input c.channel.lp_filters (h.lps f lt))
        (λ low l.
          Returns-bind (IsWritten f c.channel.hp_filters) Q
            (process_at d f c.input c.channel.hp_filters) _
            (process_at-IsWritten f c.input c.channel.hp_filters (h.hps f lt))
            (λ high g.
              Returns-bind (RowInv n f) Q (get_elem? c.channel.allpass f) _
                (Returns-both (RowIsReady d n f) (Below 6 (AnyFilter d))
                  (get_elem? c.channel.allpass f) (h.rows f lt) (h.sized.rows f (omega arith)))
                (λ row r.
                  Returns-bind (λ done. RowInv n f done.0) Q
                    (for_m (n - suc f) (compensate d f) (row, low.1)) _
                    (compensate-RowInv n f (row, low.1) r)
                    (λ done r'. advance-ChannelIsReady n f c low high done h l g r'))))

  pub process_channel-ChannelIsReady :
      (n bands : ℕ) (x : d.Carrier) (out : List d.Carrier) (c : Channel d)
      → n ≤ 6
      → ChannelIsReady d n c
      → Returns (process_channel d n bands x out c) (λ r. ChannelIsReady d n r.0)
  unfolding process_channel
  process_channel-ChannelIsReady n bands x out c small h =
      Returns-bind (λ k. ChannelIsReady d n k.channel) (λ r. ChannelIsReady d n r.0)
        (for_m n (split_one d n) (record { channel = c; input = x; bands = out })) _
        (for_m-Returns (λ i k. ChannelIsReady d n k.channel) (split_one d n) n
          (λ f k lt r. split_one-ChannelIsReady n f k small lt r)
          (record { channel = c; input = x; bands = out }) h)
        (λ k r. r)
