-- ===== src/Audio/LinkwitzRiley/MultiBand/Ready.antt =====
-- audio/LinkwitzRileyFilter.h: the filters that initialize and reset leave.
use phu_audio_lib.Base.{
  Returns-both, Returns-weaken, ℕ, suc, ◌+◌, ◌-◌, ◌<◌, ◌≤◌, refl, sym, subst, Returns, List, length,
  get_elem?, arith,
}
use native.Mathlib.Decide.{ℕ_discrete}
use phu_audio_lib.Double.{Double}
use phu_audio_lib.Audio.LinkwitzRiley.{Slope, FilterType, LinkwitzRileyFilter, set_params}
use phu_audio_lib.Audio.LinkwitzRiley.Stages.{IsConfigured, set_params-IsConfigured}
use phu_audio_lib.Audio.LinkwitzRiley.MultiBand.{Channel, update, set_pair, set_allpass}
use phu_audio_lib.Audio.LinkwitzRiley.MultiBand.Arrays.{
  Returns-update, Returns-update_at, Returns-bounds, Below, AnyFilter, IsSized, RowIsReady,
}

module _ (d : Double) where
  -- A method at any element keeps the sizes.
  update-AnyFilter :
      (i : ℕ) (f : LinkwitzRileyFilter d → LinkwitzRileyFilter d)
      (fs : List (LinkwitzRileyFilter d))
      → i < 6
      → Below 6 (AnyFilter d) fs
      → Below 6 (AnyFilter d) (update i f fs)
  update-AnyFilter i f fs inside h j lt =
      Returns-update (AnyFilter d) fs i j f (Returns-bounds (AnyFilter d) fs i (h i inside))
        (λ g u. tt) (h j lt)

  -- A setter of the filter at `i` configures it, and the others stay as they are.
  update-IsConfigured :
      (i j : ℕ) (f : LinkwitzRileyFilter d → LinkwitzRileyFilter d)
      (fs : List (LinkwitzRileyFilter d))
      → ((g : LinkwitzRileyFilter d) → IsConfigured d (f g))
      → j < suc i
      → i < 6
      → Below 6 (AnyFilter d) fs
      → (j < i → Returns (get_elem? fs j) (IsConfigured d))
      → Returns (get_elem? (update i f fs) j) (IsConfigured d)
  update-IsConfigured i j f fs sets low lt sized rest =
      Returns-update_at (AnyFilter d) (IsConfigured d) fs i j f
        (Returns-bounds (AnyFilter d) fs i (sized i lt)) (λ e g u. sets g)
        (λ ne. rest (omega (arith, ne))) (sized j (omega arith))

  -- The invariants of the loops of initialize, for a channel.
  pub record PairsAreSet (k : ℕ) (c : Channel d) : Type 0 where
    pub sized : IsSized d c
    pub lps : Below k (IsConfigured d) c.lp_filters
    pub hps : Below k (IsConfigured d) c.hp_filters

  -- The row of a band up to the `k`th frequency above it.
  abbrev pub RowIsSet : ℕ → ℕ → List (LinkwitzRileyFilter d) → Type 0
  RowIsSet band k row =
      (f : ℕ) → band < f → f < suc band + k → Returns (get_elem? row f) (IsConfigured d)

  pub record RowsAreSet (n k : ℕ) (c : Channel d) : Type 0 where
    pub pairs : PairsAreSet n c
    pub rows : (b : ℕ) → b < k → Returns (get_elem? c.allpass b) (RowIsReady d n b)

  pub record BandIsSet (n band k : ℕ) (c : Channel d) : Type 0 where
    pub before : RowsAreSet n band c
    pub row : Returns (get_elem? c.allpass band) (RowIsSet band k)

  -- Before the loop of a band, its row has no frequency to set.
  pub RowsAreSet-BandIsSet :
      (n band : ℕ) (c : Channel d) → band < 6 → RowsAreSet n band c → BandIsSet n band 0 c
  RowsAreSet-BandIsSet n band c lt h = record {
    before = h;
    row =
        Returns-weaken (Below 6 (AnyFilter d)) (RowIsSet band 0) (get_elem? c.allpass band)
          (λ row s f low high. absurd (omega arith)) (h.pairs.sized.rows band lt);
  }

  -- After it, the rows of one band more are ready.
  pub BandIsSet-RowsAreSet :
      (n band : ℕ) (c : Channel d) → BandIsSet n band (n - suc band) c → RowsAreSet n (suc band) c
  BandIsSet-RowsAreSet n band c h = record {
    pairs = h.before.pairs;
    rows = λ b lt. elim (ℕ_discrete b band) [
      | yes e ↦
          subst (λ k. Returns (get_elem? c.allpass k) (RowIsReady d n k)) (sym e)
            (Returns-weaken (RowIsSet band (n - suc band)) (RowIsReady d n band)
              (get_elem? c.allpass band) (λ row r f low high. r f low (omega arith)) h.row)
      | no ne ↦ h.before.rows b (omega (arith, ne))
    ];
  }

  module _ (slope : Slope) (freq rate : d.Carrier) where
    pub set_pair-PairsAreSet :
        (k : ℕ) (c : Channel d)
        → k < 6
        → PairsAreSet k c
        → PairsAreSet (suc k) (set_pair d slope freq rate k c)
    unfolding set_pair
    set_pair-PairsAreSet k c lt h =
        let low = set_params d FilterType.low_pass slope freq rate in
        let high = set_params d FilterType.high_pass slope freq rate in
        record {
          sized = record {
            lps = update-AnyFilter k low c.lp_filters lt h.sized.lps;
            hps = update-AnyFilter k high c.hp_filters lt h.sized.hps;
            rows = h.sized.rows;
          };
          lps = λ j l.
              update-IsConfigured k j low c.lp_filters
                (set_params-IsConfigured d FilterType.low_pass slope freq rate) l lt h.sized.lps
                (h.lps j);
          hps = λ j l.
              update-IsConfigured k j high c.hp_filters
                (set_params-IsConfigured d FilterType.high_pass slope freq rate) l lt h.sized.hps
                (h.hps j);
        }

    pub set_allpass-BandIsSet :
        (n band k : ℕ) (c : Channel d)
        → n ≤ 6
        → k < n - suc band
        → BandIsSet n band k c
        → BandIsSet n band (suc k) (set_allpass d slope freq rate band (suc band + k) c)
    unfolding set_allpass
    set_allpass-BandIsSet n band k c small lt h =
        let set_all = set_params d FilterType.all_pass slope freq rate in
        let f = suc band + k in
        let sized = h.before.pairs.sized in
        let inside : band < length c.allpass =
          Returns-bounds (Below 6 (AnyFilter d)) c.allpass band (sized.rows band (omega arith)) in
        record {
          before = record {
            pairs = record {
              sized = record {
                lps = sized.lps;
                hps = sized.hps;
                rows = λ b l.
                    Returns-update (Below 6 (AnyFilter d)) c.allpass band b (update f set_all)
                      inside (λ row. update-AnyFilter f set_all row (omega arith)) (sized.rows b l);
              };
              lps = h.before.pairs.lps;
              hps = h.before.pairs.hps;
            };
            rows = λ b l.
                Returns-update_at (RowIsReady d n b) (RowIsReady d n b) c.allpass band b
                  (update f set_all) inside (λ e. absurd (omega (arith, e)))
                  (λ ne. h.before.rows b l) (h.before.rows b l);
          };
          row =
              Returns-update_at (λ row. Below 6 (AnyFilter d) row × RowIsSet band k row)
                (RowIsSet band (suc k)) c.allpass band band (update f set_all) inside
                (λ e row r g low high.
                  update-IsConfigured f g set_all row
                    (set_params-IsConfigured d FilterType.all_pass slope freq rate) (omega arith)
                    (omega arith) r.0 (r.1 g low))
                (λ ne. absurd (ne refl))
                (Returns-both (Below 6 (AnyFilter d)) (RowIsSet band k) (get_elem? c.allpass band)
                  (sized.rows band (omega arith)) h.row);
        }
