-- ===== src/Events/SyncGlobals/Rates.antt =====
-- The derived rates of SyncGlobals.
use phu_audio_lib.Base.{
  ◌≡◌, ◌⊎◌, if◌then◌else◌, ℤ, pos, negsuc, false, Option, none, some, List, [], ◌∷◌, ◌&&◌, not,
}
use phu_audio_lib.Double.{Double}
use phu_audio_lib.Events.SyncGlobals.{
  SyncGlobals, PositionInfo, finish_run, set_ppq_end_of_block, update_sample_rate,
  update_daw_globals,
}

-- The calls of the processor.
pub data Call (d : Double) : Type 0 where
  finishes : ℤ → Call d
  publishes_ppq : d.Carrier → Call d
  changes_rate : d.Carrier → Call d
  starts_block : ℤ → Option (PositionInfo d) → Call d

module _ (d : Double) where
  -- The samples per millisecond are a thousandth of the sample rate; at the start both are -1.
  abbrev pub RateFits : SyncGlobals d → Type 0
  RateFits s =
      ((s.sample_rate ≡ d.lit (negsuc 0) 1) × (s.sample_rate_by_msec ≡ d.lit (negsuc 0) 1))
      ⊎ (s.sample_rate_by_msec ≡ d.div s.sample_rate (d.lit (pos 1000) 1))

  -- Where there is a positive number of beats per minute, the two lengths of a beat belong to it and to the
  -- sample rate.
  abbrev pub BeatFits : SyncGlobals d → Type 0
  BeatFits s =
      (d.lt (d.lit (pos 0) 1) s.values.bpm ≡ false)
      ⊎ ((s.values.msec_per_beat ≡ d.div (d.lit (pos 60000) 1) s.values.bpm)
          × (s.values.samples_per_beat ≡ d.mul s.values.msec_per_beat s.sample_rate_by_msec))

  -- The sample rate and the tempo that calls have announced, from those before them. A tempo counts if it is
  -- positive; what compares equal to the value before does not replace it.
  abbrev pub tempo_stated : Option (PositionInfo d) → d.Carrier → d.Carrier
  tempo_stated none bpm = bpm
  tempo_stated (some info) bpm = elim info.bpm [
    | none ↦ bpm
    | some new ↦ if not (d.eq new bpm) && d.lt (d.lit (pos 0) 1) new then new else bpm
  ]

  abbrev pub rate_after : List (Call d) → d.Carrier → d.Carrier
  rate_after [] rate = rate
  rate_after (changes_rate new ∷ cs) rate = rate_after cs (if d.eq new rate then rate else new)
  rate_after (finishes n ∷ cs) rate = rate_after cs rate
  rate_after (publishes_ppq ppq ∷ cs) rate = rate_after cs rate
  rate_after (starts_block n info ∷ cs) rate = rate_after cs rate

  abbrev pub tempo_after : List (Call d) → d.Carrier → d.Carrier
  tempo_after [] bpm = bpm
  tempo_after (starts_block n info ∷ cs) bpm = tempo_after cs (tempo_stated info bpm)
  tempo_after (finishes n ∷ cs) bpm = tempo_after cs bpm
  tempo_after (publishes_ppq ppq ∷ cs) bpm = tempo_after cs bpm
  tempo_after (changes_rate rate ∷ cs) bpm = tempo_after cs bpm

  -- `s` has the rate and the tempo, with the values derived from them.
  pub record IsConsistent (rate bpm : d.Carrier) (s : SyncGlobals d) : Type 0 where
    pub current_rate : s.sample_rate ≡ rate
    pub current_bpm : s.values.bpm ≡ bpm
    pub rate_fits : RateFits s
    pub beat_fits : BeatFits s

  pub step : Call d → SyncGlobals d → SyncGlobals d
  step (finishes n) s = finish_run d n s
  step (publishes_ppq ppq) s = set_ppq_end_of_block d ppq s
  step (changes_rate rate) s = (update_sample_rate d rate s).0
  step (starts_block n info) s = (update_daw_globals d n info s).0

  pub process : List (Call d) → SyncGlobals d → SyncGlobals d
  unfolding step
  process [] s = s
  process (c ∷ cs) s = process cs (step c s)
