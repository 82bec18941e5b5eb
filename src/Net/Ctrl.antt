-- ===== src/Net/Ctrl.antt =====
-- network/CtrlBroadcaster.{h,cpp}: the announcements of the instances. The state is that of the base
-- class and the record `CtrlState`. `D` is `double` and `F` is `float`, which are only copied. Log messages
-- are left out.
pub mod Infos
pub mod Inbound
mod Tests
use phu_audio_lib.Base.{
  ℕ, ◌+◌, ◌%◌, ◌^◌, ltb, leb, ◌==◌, Bool, true, false, Option, none, some, List, [], ◌∷◌, ◌&&◌,
  ◌||◌, not, set, replicate, if◌then◌else◌,
}
use phu_audio_lib.Net.Lifecycle.{Multicast, has_socket}
use phu_audio_lib.Net.States.{StateMap, find, store, clear_remote_states, get_remote_states}
use phu_audio_lib.Net.Text.{safe_strncpy}

abbrev pub ctrl_magic : ℕ
ctrl_magic = 0x4354524C

abbrev pub protocol_version : ℕ
protocol_version = 3

abbrev pub stale_timeout_ms : ℕ
stale_timeout_ms = 30000

-- `CtrlEventType`, whose values stand in one byte of the packet.
abbrev pub announce : ℕ
announce = 1

abbrev pub label_change : ℕ
label_change = 2

abbrev pub range_change : ℕ
range_change = 3

abbrev pub goodbye : ℕ
goodbye = 4

abbrev pub peers_broadcast_only : ℕ
peers_broadcast_only = 5

-- The size of the packed `CtrlPacket`.
abbrev pub packet_size : ℕ
packet_size = 4 + 4 + 4 + 4 + 1 + 1 + 2 + 8 + 4 + 4 + 4 + 32 + 4 + 16 + 4

pub record CtrlPacket (D F : Type 0) : Type 0 where
  pub magic : ℕ
  pub version : ℕ
  pub instance_id : ℕ
  pub sequence_number : ℕ
  pub event_type : ℕ
  pub instance_index : ℕ
  pub sample_rate : D
  pub max_buffer_size : ℕ
  pub display_range_beats : F
  pub bpm : F
  pub channel_label : List ℕ
  pub colour_rgba : List ℕ
  pub plugin_type : List ℕ
  pub plugin_version : ℕ

pub record RemoteInstanceInfo (D F : Type 0) : Type 0 where
  pub instance_id : ℕ
  pub instance_index : ℕ
  pub last_seen_ms : ℕ
  pub is_online : Bool
  pub sample_rate : D
  pub max_buffer_size : ℕ
  pub display_range_beats : F
  pub bpm : F
  pub channel_label : List ℕ
  pub colour_rgba : List ℕ
  pub plugin_type : List ℕ
  pub plugin_version : ℕ

pub record CtrlState (D F : Type 0) : Type 0 where
  pub remote_infos : StateMap (RemoteInstanceInfo D F)
  pub sequence_number : ℕ
  pub receive_enabled : Bool
  pub inbound_ctrl_packets : ℕ
  pub received_peers_broadcast_only : Bool

-- The arguments of `sendCtrl`; a null pointer is `none`.
pub record CtrlArguments (D F : Type 0) : Type 0 where
  pub event_type : ℕ
  pub label : Option (List ℕ)
  pub display_range_beats : F
  pub bpm : F
  pub sample_rate : D
  pub max_buffer_size : ℕ
  pub colour_rgba : Option (List ℕ)
  pub plugin_type : Option (List ℕ)
  pub plugin_version : ℕ

-- A text field of the zeroed packet.
pub text_field : ℕ → Option (List ℕ) → List ℕ
unfolding safe_strncpy
text_field size none = replicate size 0
text_field size (some text) = safe_strncpy (replicate size 0) text size

colour_field : Option (List ℕ) → List ℕ
colour_field none = replicate 4 0
colour_field (some colour) = colour

module _ {D F : Type 0} where
  pub on_shutdown : CtrlState D F → CtrlState D F
  unfolding clear_remote_states
  on_shutdown s = record s { remote_infos = clear_remote_states s.remote_infos }

  pub set_receive_enabled : Bool → CtrlState D F → CtrlState D F
  set_receive_enabled enabled s = record s { receive_enabled = enabled }

  pub consume_inbound_count : CtrlState D F → ℕ × CtrlState D F
  consume_inbound_count s = (s.inbound_ctrl_packets, record s { inbound_ctrl_packets = 0 })

  pub consume_peers_broadcast_only_command : CtrlState D F → Bool × CtrlState D F
  consume_peers_broadcast_only_command s =
      (s.received_peers_broadcast_only, record s { received_peers_broadcast_only = false })

  pub packet_of : Multicast → ℕ → CtrlArguments D F → CtrlPacket D F
  unfolding text_field colour_field
  packet_of m seq_num a = record {
    magic = ctrl_magic;
    version = protocol_version;
    instance_id = m.instance_id;
    sequence_number = seq_num;
    event_type = a.event_type;
    instance_index = m.instance_index;
    sample_rate = a.sample_rate;
    max_buffer_size = a.max_buffer_size;
    display_range_beats = a.display_range_beats;
    bpm = a.bpm;
    channel_label = text_field 32 a.label;
    colour_rgba = colour_field a.colour_rgba;
    plugin_type = text_field 16 a.plugin_type;
    plugin_version = a.plugin_version;
  }

  -- The packet handed to `sendto`, with `packet_size` bytes, or `none` where it is not called.
  pub send_ctrl :
      Multicast → CtrlArguments D F → CtrlState D F → Option (CtrlPacket D F) × CtrlState D F
  unfolding packet_of
  send_ctrl m a s =
      if not m.network_initialized || not (has_socket m.send_socket) then (none, s) else (
        some (packet_of m s.sequence_number a),
        record s { sequence_number = (s.sequence_number + 1) % 2 ^ 32 },
      )

  -- What `getRemoteInfos` removes: an entry not seen for longer than the timeout, or offline.
  pub is_gone : ℕ → RemoteInstanceInfo D F → Bool
  is_gone now info = ltb (info.last_seen_ms + stale_timeout_ms) now || not info.is_online

  pub get_remote_infos : ℕ → CtrlState D F → List (RemoteInstanceInfo D F) × CtrlState D F
  unfolding get_remote_states is_gone
  get_remote_infos now s =
      let (out, left) = get_remote_states (is_gone now) s.remote_infos in
      (out, record s { remote_infos = left })

  pub is_accepted : Multicast → ℕ → CtrlPacket D F → Bool
  is_accepted m bytes p =
      leb packet_size bytes
      && p.magic == ctrl_magic
      && p.version == protocol_version
      && not (p.instance_id == m.instance_id)

  -- The entry behind an upsert, which sets every field.
  pub upserted : ℕ → CtrlPacket D F → RemoteInstanceInfo D F
  upserted now p = record {
    instance_id = p.instance_id;
    instance_index = p.instance_index;
    last_seen_ms = now;
    is_online = true;
    sample_rate = p.sample_rate;
    max_buffer_size = p.max_buffer_size;
    display_range_beats = p.display_range_beats;
    bpm = p.bpm;
    channel_label = set p.channel_label 31 0;
    colour_rgba = p.colour_rgba;
    plugin_type = set p.plugin_type 15 0;
    plugin_version = p.plugin_version;
  }

  pub set_offline :
      ℕ
      → Option (RemoteInstanceInfo D F)
      → StateMap (RemoteInstanceInfo D F)
      → StateMap (RemoteInstanceInfo D F)
  set_offline id none infos = infos
  set_offline id (some info) infos = store id (record info { is_online = false }) infos

  -- One turn of the loop of `receiverThreadRun`, in which `recvfrom` has given `bytes` bytes (0 where it
  -- timed out) with the fields `p` at the time `now`.
  pub receive : Multicast → ℕ → ℕ → CtrlPacket D F → CtrlState D F → CtrlState D F
  unfolding is_accepted upserted set_offline
  receive m now bytes p s =
      if not s.receive_enabled
      then s
      else if not (is_accepted m bytes p)
      then s
      else if p.event_type == goodbye
      then record s {
        remote_infos = set_offline p.instance_id (find p.instance_id s.remote_infos) s.remote_infos;
      }
      else record s {
        remote_infos = store p.instance_id (upserted now p) s.remote_infos;
        received_peers_broadcast_only =
            if p.event_type == peers_broadcast_only then true else s.received_peers_broadcast_only;
        inbound_ctrl_packets = (s.inbound_ctrl_packets + 1) % 2 ^ 32;
      }
