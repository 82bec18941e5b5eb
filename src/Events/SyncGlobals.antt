-- ===== src/Events/SyncGlobals.antt =====
-- events/EventSource.h and events/SyncGlobals.h. A listener is known by its address, and does not change the list while it is
-- called. What a method returns beside the state are the calls to the listeners, in order. Of the
-- context, the number of samples and the epoch are kept; the rest are pointers to the arguments.
-- The counters are exact, since C++ leaves their overflow undefined.
pub mod Rates
mod Tests
use phu_audio_lib.Base.{
  ℕ, ◌+◌, ℤ, pos, negsuc, ◌+ℤ◌, to_int32, eqb_ℤ, ◌==◌, Bool, true, false, Option, none, some, List,
  [], ◌∷◌, ◌++◌, ◌&&◌, ◌||◌, not, map, if◌then◌else◌,
}
use phu_audio_lib.Double.{Double}

is_registered : ℕ → List ℕ → Bool
is_registered l [] = false
is_registered l (k ∷ ks) = k == l || is_registered l ks

-- A null pointer is `none`.
pub add_event_listener : Option ℕ → List ℕ → List ℕ
unfolding is_registered
add_event_listener none listeners = listeners
add_event_listener (some l) listeners =
    if is_registered l listeners then listeners else listeners ++ l ∷ []

-- `erase` of the first that is found, and whether one is.
pub remove_event_listener : ℕ → List ℕ → List ℕ × Bool
remove_event_listener l [] = ([], false)
remove_event_listener l (k ∷ ks) =
    let rest = remove_event_listener l ks in if k == l then (ks, true) else (k ∷ rest.0, rest.1)

pub record Context : Type 0 where
  pub number_of_samples_in_frame : ℤ
  pub epoch : ℤ

module _ (d : Double) where
  pub record BpmValues : Type 0 where
    pub bpm : d.Carrier
    pub msec_per_beat : d.Carrier
    pub samples_per_beat : d.Carrier

  pub data GlobalsEvent : Type 0 where
    bpm_changed : Context → BpmValues → BpmValues → GlobalsEvent
    is_playing_changed : Context → Bool → Bool → GlobalsEvent
    sample_rate_changed : d.Carrier → d.Carrier → GlobalsEvent

  pub record SyncGlobals : Type 0 where
    pub listeners : List ℕ
    pub runs : ℕ
    pub samples_count : ℤ
    pub sample_rate : d.Carrier
    pub sample_rate_by_msec : d.Carrier
    pub is_playing : Bool
    pub values : BpmValues
    pub block_start_ppq : d.Carrier
    pub ppq_end_of_block : d.Carrier

  -- What the host may state of its position.
  pub record PositionInfo : Type 0 where
    pub bpm : Option d.Carrier
    pub ppq_position : Option d.Carrier
    pub is_playing : Bool

  pub new_globals : SyncGlobals
  new_globals = record {
    listeners = [];
    runs = 0;
    samples_count = pos 0;
    sample_rate = d.lit (negsuc 0) 1;
    sample_rate_by_msec = d.lit (negsuc 0) 1;
    is_playing = false;
    values = record {
      bpm = d.lit (pos 0) 1;
      msec_per_beat = d.lit (pos 0) 1;
      samples_per_beat = d.lit (pos 0) 1;
    };
    block_start_ppq = d.lit (pos 0) 1;
    ppq_end_of_block = d.lit (pos 0) 1;
  }

  -- The loops of the three `fire` methods.
  fire : GlobalsEvent → List ℕ → List (ℕ × GlobalsEvent)
  fire event [] = []
  fire event (l ∷ ls) = (l, event) ∷ fire event ls

  pub finish_run : ℤ → SyncGlobals → SyncGlobals
  unfolding ◌+ℤ◌
  finish_run num_samples s = record s {
    runs = s.runs + 1;
    samples_count = s.samples_count +ℤ num_samples;
  }

  pub set_ppq_end_of_block : d.Carrier → SyncGlobals → SyncGlobals
  set_ppq_end_of_block ppq s = record s { ppq_end_of_block = ppq }

  pub update_sample_rate : d.Carrier → SyncGlobals → SyncGlobals × List (ℕ × GlobalsEvent)
  unfolding fire
  update_sample_rate new_rate s =
      let by_msec = d.div new_rate (d.lit (pos 1000) 1) in
      let values =
        if d.lt (d.lit (pos 0) 1) s.values.bpm
        then record s.values { samples_per_beat = d.mul s.values.msec_per_beat by_msec }
        else s.values in
      if d.eq new_rate s.sample_rate then (s, []) else (
        record s { sample_rate = new_rate; sample_rate_by_msec = by_msec; values = values },
        fire (sample_rate_changed s.sample_rate new_rate) s.listeners,
      )

  -- The three parts of `updateDAWGlobals` for a position that the host states.
  update_bpm : Context → Option d.Carrier → SyncGlobals → SyncGlobals × List (ℕ × GlobalsEvent)
  unfolding fire
  update_bpm ctx none s = (s, [])
  update_bpm ctx (some new_bpm) s =
      let msec = d.div (d.lit (pos 60000) 1) new_bpm in
      let values : BpmValues = record {
        bpm = new_bpm;
        msec_per_beat = msec;
        samples_per_beat = d.mul msec s.sample_rate_by_msec;
      } in
      if not (d.eq new_bpm s.values.bpm) && d.lt (d.lit (pos 0) 1) new_bpm
      then (record s { values = values }, fire (bpm_changed ctx s.values values) s.listeners)
      else (s, [])

  update_ppq : Option d.Carrier → SyncGlobals → SyncGlobals
  update_ppq none s = s
  update_ppq (some ppq) s = record s { block_start_ppq = ppq }

  update_playing : Context → Bool → SyncGlobals → SyncGlobals × List (ℕ × GlobalsEvent)
  unfolding fire
  update_playing ctx true s =
      if s.is_playing
      then (s, [])
      else (record s { is_playing = true }, fire (is_playing_changed ctx false true) s.listeners)
  update_playing ctx false s =
      if s.is_playing
      then (record s { is_playing = false }, fire (is_playing_changed ctx true false) s.listeners)
      else (s, [])

  -- `n` is the number of the samples in the buffer.
  pub update_daw_globals :
      ℤ → Option PositionInfo → SyncGlobals → SyncGlobals × List (ℕ × GlobalsEvent) × Context
  unfolding update_bpm update_ppq update_playing
  update_daw_globals n none s =
      (s, [], record { number_of_samples_in_frame = n; epoch = to_int32 (pos s.runs) })
  update_daw_globals n (some info) s =
      let ctx : Context = record {
        number_of_samples_in_frame = n;
        epoch = to_int32 (pos s.runs);
      } in
      let (s1, calls1) = update_bpm ctx info.bpm s in
      let (s2, calls2) = update_playing ctx info.is_playing (update_ppq info.ppq_position s1) in
      (s2, calls1 ++ calls2, ctx)
