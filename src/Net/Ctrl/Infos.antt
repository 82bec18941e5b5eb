-- ===== src/Net/Ctrl/Infos.antt =====
-- What an instance knows of the others by their announcements.
use phu_audio_lib.Base.{
  ℕ, ◌-◌, ◌≡◌, ◌≢◌, refl, ap, ◌∙◌, ◌==◌, true, false, Option, none, some, List, [], ◌∷◌, set, take,
  replicate, if◌then◌else◌, Bool-cases, inl, inr, arith,
}
use phu_audio_lib.Net.Lifecycle.{Multicast}
use phu_audio_lib.Net.States.{StateMap, find}
use phu_audio_lib.Net.States.Laws.{
  Rising, find-store, get_remote_states_lem, keep_live, store-Rising,
}
use phu_audio_lib.Net.Text.{string_of, NoZero, string_of-safe_strncpy, set-safe_strncpy}
use phu_audio_lib.Net.Ctrl.{
  CtrlPacket, RemoteInstanceInfo, CtrlState, CtrlArguments, colour_field, goodbye, packet_size,
  text_field, packet_of, send_ctrl, is_gone, get_remote_infos, is_accepted, upserted, set_offline,
  receive,
}

-- No argument text has a zero byte.
abbrev pub IsText : Option (List ℕ) → Type 0
IsText none = Unit {0}
IsText (some text) = NoZero text

-- The text of an argument, cut to fit into `size` bytes with the terminating zero.
abbrev pub cut_text : ℕ → Option (List ℕ) → List ℕ
cut_text size none = []
cut_text size (some text) = take (size - 1) text

-- The four bytes of the colour, zero where no colour is given.
abbrev pub sent_colour : Option (List ℕ) → List ℕ
sent_colour none = 0 ∷ 0 ∷ 0 ∷ 0 ∷ []
sent_colour (some colour) = colour

colour-sent : (c : Option (List ℕ)) → colour_field c ≡ sent_colour c
unfolding colour_field
colour-sent none = refl
colour-sent (some colour) = refl

label-received :
    (a : Option (List ℕ)) → IsText a → string_of (set (text_field 32 a) 31 0) ≡ cut_text 32 a
unfolding text_field string_of
label-received none h = refl
label-received (some text) h =
    ap string_of (set-safe_strncpy (replicate 32 0) text 32 (omega arith))
    ∙ string_of-safe_strncpy (replicate 32 0) text 32 (omega arith) (omega arith) h

type-received :
    (a : Option (List ℕ)) → IsText a → string_of (set (text_field 16 a) 15 0) ≡ cut_text 16 a
unfolding text_field string_of
type-received none h = refl
type-received (some text) h =
    ap string_of (set-safe_strncpy (replicate 16 0) text 16 (omega arith))
    ∙ string_of-safe_strncpy (replicate 16 0) text 16 (omega arith) (omega arith) h

module _ {D F : Type 0} where
  -- What the receiver at `now` knows of the sender `m` of an announcement with the arguments `a`.
  pub record IsKnown (m : Multicast) (a : CtrlArguments D F) (now : ℕ)
      (info : RemoteInstanceInfo D F) : Type 0 where
    pub id : info.instance_id ≡ m.instance_id
    pub index : info.instance_index ≡ m.instance_index
    pub seen : info.last_seen_ms ≡ now
    pub online : info.is_online ≡ true
    pub rate : info.sample_rate ≡ a.sample_rate
    pub buffer : info.max_buffer_size ≡ a.max_buffer_size
    pub range : info.display_range_beats ≡ a.display_range_beats
    pub beat : info.bpm ≡ a.bpm
    pub colour : info.colour_rgba ≡ sent_colour a.colour_rgba
    pub label : string_of info.channel_label ≡ cut_text 32 a.label
    pub family : string_of info.plugin_type ≡ cut_text 16 a.plugin_type
    pub version : info.plugin_version ≡ a.plugin_version

  upserted-IsKnown :
      (m : Multicast) (seq_num : ℕ) (a : CtrlArguments D F) (now : ℕ)
      → IsText a.label
      → IsText a.plugin_type
      → IsKnown m a now (upserted now (packet_of m seq_num a))
  unfolding upserted packet_of
  upserted-IsKnown m seq_num a now h g = record {
    id = refl;
    index = refl;
    seen = refl;
    online = refl;
    rate = refl;
    buffer = refl;
    range = refl;
    beat = refl;
    colour = colour-sent a.colour_rgba;
    label = label-received a.label h;
    family = type-received a.plugin_type g;
    version = refl;
  }

  find-receive :
      (m : Multicast) (now bytes : ℕ) (p : CtrlPacket D F) (s : CtrlState D F) (k : ℕ)
      → s.receive_enabled ≡ true
      → is_accepted m bytes p ≡ true
      → p.event_type ≢ goodbye
      → find k (receive m now bytes p s).remote_infos
        ≡ (if k == p.instance_id then some (upserted now p) else find k s.remote_infos)
  unfolding receive
  find-receive m now bytes p s k on ok ne =
      ground (arith, find-store p.instance_id k (upserted now p) s.remote_infos)

  accepted-sent :
      (a b : Multicast) (seq_num : ℕ) (args : CtrlArguments D F)
      → a.instance_id ≢ b.instance_id
      → is_accepted b packet_size (packet_of a seq_num args) ≡ true
  unfolding is_accepted packet_of
  accepted-sent a b seq_num args ne = ground arith

  -- An announcement, that is any event but a goodbye, arrives at every other instance that receives: afterwards it
  -- knows the sender by each value that was sent, the colour included, is sure that it is online, and has its label and
  -- its plug-in family cut to 31 and 15 bytes.
  pub receive-send_ctrl :
      (a b : Multicast) (s t : CtrlState D F) (args : CtrlArguments D F) (p : CtrlPacket D F)
      (now : ℕ)
      → a.instance_id ≢ b.instance_id
      → (send_ctrl a args s).0 ≡ some p
      → t.receive_enabled ≡ true
      → args.event_type ≢ goodbye
      → IsText args.label
      → IsText args.plugin_type
      → (info : RemoteInstanceInfo D F) × (find a.instance_id
            (receive b now packet_size p t).remote_infos
          ≡ some info)
        × IsKnown a args now info
  unfolding send_ctrl packet_of
  receive-send_ctrl a b s t args p now ne e on event h g =
      let same : p ≡ packet_of a s.sequence_number args = ground arith in
      (
        upserted now (packet_of a s.sequence_number args),
        rw same (
            ground (
              arith,
              find-receive b now packet_size (packet_of a s.sequence_number args) t a.instance_id on
                  (accepted-sent a b s.sequence_number args ne) event,
            )),
        upserted-IsKnown a s.sequence_number args now h g,
      )

  abbrev offline : Option (RemoteInstanceInfo D F) → Option (RemoteInstanceInfo D F)
  offline none = none
  offline (some info) = some (record info { is_online = false })

  find-set_offline :
      (id k : ℕ) (o : Option (RemoteInstanceInfo D F)) (infos : StateMap (RemoteInstanceInfo D F))
      → o ≡ find id infos
      → find k (set_offline id o infos) ≡ (if k == id then offline o else find k infos)
  unfolding set_offline
  find-set_offline id k none infos e = elim (Bool-cases (k == id)) [
    | inl same ↦ let eq_k : k ≡ id = ground arith in rw (eq_k, ← e) (ground arith)
    | inr other ↦ rw other refl
  ]
  find-set_offline id k (some info) infos e =
      find-store id k (record info { is_online = false }) infos

  set_offline-Rising :
      (id : ℕ) (o : Option (RemoteInstanceInfo D F)) (infos : StateMap (RemoteInstanceInfo D F))
      → Rising 0 infos
      → Rising 0 (set_offline id o infos)
  unfolding set_offline
  set_offline-Rising id none infos r = r
  set_offline-Rising id (some info) infos r =
      store-Rising id 0 (record info { is_online = false }) infos (omega arith) r

  live-offline :
      (now : ℕ) (o : Option (RemoteInstanceInfo D F)) → keep_live (is_gone now) (offline o) ≡ none
  unfolding is_gone
  live-offline now none = refl
  live-offline now (some info) = ground arith

  find-get_remote_infos :
      (later : ℕ) (s : CtrlState D F) (k : ℕ)
      → Rising 0 s.remote_infos
      → find k (get_remote_infos later s).1.remote_infos
        ≡ keep_live (is_gone later) (find k s.remote_infos)
  unfolding get_remote_infos
  find-get_remote_infos later s k r = (get_remote_states_lem (is_gone later) s.remote_infos k r).0

  receive-goodbye :
      (m : Multicast) (now bytes : ℕ) (p : CtrlPacket D F) (s : CtrlState D F)
      → s.receive_enabled ≡ true
      → is_accepted m bytes p ≡ true
      → p.event_type ≡ goodbye
      → receive m now bytes p s ≡ record s {
        remote_infos = set_offline p.instance_id (find p.instance_id s.remote_infos) s.remote_infos;
      }
  unfolding receive
  receive-goodbye m now bytes p s on ok event = rw (on, ok, event) refl

  -- Behind a goodbye, the next `getRemoteInfos`, at whatever time, no longer has the sender, and it has the others as it would
  -- have had them without the goodbye.
  pub goodbye-gone :
      (m : Multicast) (now bytes later : ℕ) (p : CtrlPacket D F) (s : CtrlState D F) (k : ℕ)
      → Rising 0 s.remote_infos
      → s.receive_enabled ≡ true
      → is_accepted m bytes p ≡ true
      → p.event_type ≡ goodbye
      → find k (get_remote_infos later (receive m now bytes p s)).1.remote_infos
        ≡ (if k == p.instance_id then none else find k (get_remote_infos later s).1.remote_infos)
  goodbye-gone m now bytes later p s k r on ok event =
      let o = find p.instance_id s.remote_infos in
      let now_infos = set_offline p.instance_id o s.remote_infos in
      rw
        (
          receive-goodbye m now bytes p s on ok event,
          find-get_remote_infos later s k r,
          find-get_remote_infos later (record s { remote_infos = now_infos }) k
              (set_offline-Rising p.instance_id o s.remote_infos r),
          find-set_offline p.instance_id k o s.remote_infos refl,
        )
        (ground (arith, live-offline later o))
