-- ===== src/Audio/LinkwitzRiley/MultiBand/Reset.antt =====
-- audio/LinkwitzRileyFilter.h: the filters that a reset leaves.
use phu_audio_lib.Base.{
  ℕ, suc, ◌+◌, ◌-◌, ◌<◌, ◌≤◌, ◌≡◌, refl, for_below-counts, Returns-weaken, Returns-both, List,
  length, get_elem?, length-map, arith,
}
use phu_audio_lib.Double.{Double}
use phu_audio_lib.Audio.LinkwitzRiley.{LinkwitzRileyFilter, reset, reset_biquad}
use phu_audio_lib.Audio.LinkwitzRiley.Stages.{IsConfigured}
use phu_audio_lib.Audio.LinkwitzRiley.MultiBand.{
  Channel, MultiBandN, update, reset_pair, reset_allpass, reset_multi,
}
use phu_audio_lib.Audio.LinkwitzRiley.MultiBand.Arrays.{
  Returns-update, Returns-bounds, Below, AnyFilter, RowIsReady, ChannelIsReady, IsReady,
}

module _ (d : Double) where
  reset-IsConfigured : (f : LinkwitzRileyFilter d) → IsConfigured d f → IsConfigured d (reset d f)
  unfolding reset
  reset-IsConfigured f h = (omega (arith, length-map f.stages (reset_biquad d), h.0), h.1, h.2)

  update-Below :
      (n i : ℕ) (P : LinkwitzRileyFilter d → Type 0) (fs : List (LinkwitzRileyFilter d))
      → i < length fs
      → ((f : LinkwitzRileyFilter d) → P f → P (reset d f))
      → Below n P fs
      → Below n P (update i (reset d) fs)
  update-Below n i P fs inside keep h j lt = Returns-update P fs i j (reset d) inside keep (h j lt)

  -- An index of arrays of six.
  within_array :
      (i : ℕ) (fs : List (LinkwitzRileyFilter d)) → i < 6 → Below 6 (AnyFilter d) fs → i < length fs
  within_array i fs lt h = Returns-bounds (AnyFilter d) fs i (h i lt)

  reset_pair-ChannelIsReady :
      (n i : ℕ) (c : Channel d)
      → i < 6
      → ChannelIsReady d n c
      → ChannelIsReady d n (reset_pair d i c)
  unfolding reset_pair
  reset_pair-ChannelIsReady n i c lt h = record {
    sized = record {
      lps =
          update-Below 6 i (AnyFilter d) c.lp_filters (within_array i c.lp_filters lt h.sized.lps)
            (λ f u. tt) h.sized.lps;
      hps =
          update-Below 6 i (AnyFilter d) c.hp_filters (within_array i c.hp_filters lt h.sized.hps)
            (λ f u. tt) h.sized.hps;
      rows = h.sized.rows;
    };
    lps =
        update-Below n i (IsConfigured d) c.lp_filters (within_array i c.lp_filters lt h.sized.lps)
          reset-IsConfigured h.lps;
    hps =
        update-Below n i (IsConfigured d) c.hp_filters (within_array i c.hp_filters lt h.sized.hps)
          reset-IsConfigured h.hps;
    rows = h.rows;
  }

  -- A row whose filters for the frequencies above its band are configured.
  abbrev RowInv : ℕ → ℕ → List (LinkwitzRileyFilter d) → Type 0
  RowInv n b row = RowIsReady d n b row × Below 6 (AnyFilter d) row

  reset_row-RowInv :
      (n b f : ℕ) (row : List (LinkwitzRileyFilter d))
      → f < 6
      → RowInv n b row
      → RowInv n b (update f (reset d) row)
  reset_row-RowInv n b f row lt r =
      let inside = within_array f row lt r.1 in
      (
        λ g low high.
            Returns-update (IsConfigured d) row f g (reset d) inside reset-IsConfigured
              (r.0 g low high),
        update-Below 6 f (AnyFilter d) row inside (λ f u. tt) r.1,
      )

  reset_allpass-ChannelIsReady :
      (n band f : ℕ) (c : Channel d)
      → n ≤ 6
      → band < 6
      → f < 6
      → ChannelIsReady d n c
      → ChannelIsReady d n (reset_allpass d band f c)
  unfolding reset_allpass
  reset_allpass-ChannelIsReady n band f c small lt lt' h = record {
    sized = record {
      lps = h.sized.lps;
      hps = h.sized.hps;
      rows = λ b l.
          Returns-update (Below 6 (AnyFilter d)) c.allpass band b (update f (reset d))
            (Returns-bounds (Below 6 (AnyFilter d)) c.allpass band (h.sized.rows band lt))
            (λ row r. update-Below 6 f (AnyFilter d) row (within_array f row lt' r) (λ f u. tt) r)
            (h.sized.rows b l);
    };
    lps = h.lps;
    hps = h.hps;
    rows = λ b l.
        Returns-weaken (RowInv n b) (RowIsReady d n b) _ (λ row r. r.0)
          (Returns-update (RowInv n b) c.allpass band b (update f (reset d))
            (Returns-bounds (Below 6 (AnyFilter d)) c.allpass band (h.sized.rows band lt))
            (λ row. reset_row-RowInv n b f row lt')
            (Returns-both (RowIsReady d n b) (Below 6 (AnyFilter d)) (get_elem? c.allpass b)
              (h.rows b l) (h.sized.rows b (omega arith))));
  }

  -- A ready object for as many frequencies as `m`.
  abbrev ReadyAs : MultiBandN d → MultiBandN d → Type 0
  ReadyAs m s = IsReady d s × (s.num_freqs ≡ m.num_freqs)

  pub reset_multi-IsReady : (m : MultiBandN d) → IsReady d m → IsReady d (reset_multi d m)
  unfolding reset_multi
  reset_multi-IsReady m h =
      (for_below-counts (λ k. ReadyAs m) _ m.num_freqs
        (λ band s l r.
          for_below-counts (λ k. ReadyAs m) _ (m.num_freqs - suc band)
            (λ k t l' (q, e). (
              record {
                freqs = q.freqs;
                bands = q.bands;
                some_freqs = q.some_freqs;
                not_too_many = q.not_too_many;
                left =
                    reset_allpass-ChannelIsReady t.num_freqs band (suc band + k) t.left
                      q.not_too_many (omega (arith, h.not_too_many)) (omega (arith, h.not_too_many))
                      q.left;
                right =
                    reset_allpass-ChannelIsReady t.num_freqs band (suc band + k) t.right
                      q.not_too_many (omega (arith, h.not_too_many)) (omega (arith, h.not_too_many))
                      q.right;
              },
              e,
            ))
            s r)
        _
        (for_below-counts (λ k. ReadyAs m) _ m.num_freqs
          (λ i s l (r, e). (
            record {
              freqs = r.freqs;
              bands = r.bands;
              some_freqs = r.some_freqs;
              not_too_many = r.not_too_many;
              left =
                  reset_pair-ChannelIsReady s.num_freqs i s.left (omega (arith, h.not_too_many))
                    r.left;
              right =
                  reset_pair-ChannelIsReady s.num_freqs i s.right (omega (arith, h.not_too_many))
                    r.right;
            },
            e,
          ))
          m (h, refl))).0
