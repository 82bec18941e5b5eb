-- ===== src/Net/Sample.antt =====
-- network/SampleBroadcaster.{h,cpp}: raw samples of remote instances. The state is that of the base
-- class and the record `SampleState`. Floating-point numbers are only copied, so their types are
-- parameters. A debug build is modelled, which keeps the last sequence numbers too.
pub mod Packets
pub mod Latest
mod Tests
use phu_audio_lib.Base.{
  ℕ, ◌+◌, ◌-◌, ◌*◌, ◌%◌, ◌^◌, ℤ, pos, pos_part, ltb, leb, ltb_ℤ, leb_ℤ, ◌==◌, Bool, true, false,
  Option, none, some, List, [], ◌∷◌, ◌&&◌, ◌||◌, not, length, take, if◌then◌else◌,
}
use phu_audio_lib.Net.Lifecycle.{Multicast, has_socket}
use phu_audio_lib.Net.States.{
  StateMap, find, store, clear_remote_states, get_remote_states, get_num_remote_states,
}

abbrev pub protocol_magic : ℕ
protocol_magic = 0x534D504C

abbrev pub protocol_version : ℕ
protocol_version = 4

abbrev pub broadcast_chunk_samples : ℕ
broadcast_chunk_samples = 6350

abbrev pub stale_timeout_ms : ℕ
stale_timeout_ms = 3000

-- The offset of `samples` in the packed `RawSamplesPacket`.
abbrev pub raw_packet_header_size : ℕ
raw_packet_header_size = 4 + 4 + 4 + 1 + 3 + 4 + 8 + 8 + 4 + 2

-- `D` is `double`, `F` is `float`. The fields of a packet on the wire; `samples` holds those of its
-- samples that are sent.
pub record RawSamplesPacket (D F : Type 0) : Type 0 where
  pub magic : ℕ
  pub version : ℕ
  pub instance_id : ℕ
  pub instance_index : ℕ
  pub sequence_number : ℕ
  pub ppq_of_first_sample : D
  pub bpm : D
  pub display_range_beats : F
  pub num_samples : ℕ
  pub samples : List F

pub record RemoteRawPacket (D F : Type 0) : Type 0 where
  pub instance_id : ℕ
  pub instance_index : ℕ
  pub timestamp : ℕ
  pub sequence_number : ℕ
  pub ppq_of_first_sample : D
  pub bpm : D
  pub display_range_beats : F
  pub num_samples : ℕ
  pub samples : List F

pub record SampleState (D F : Type 0) : Type 0 where
  pub broadcast_enabled : Bool
  pub receive_enabled : Bool
  pub latest_packets : StateMap (RemoteRawPacket D F)
  pub last_seq_nums : StateMap ℕ

-- The result of `a - b` on `uint32_t`, read as an `int32_t`, is positive.
pub is_newer : ℕ → ℕ → Bool
is_newer a b = let d = (a + (2 ^ 32 - b)) % 2 ^ 32 in ltb 0 d && ltb d (2 ^ 31)

module _ {D F : Type 0} where
  pub on_shutdown : SampleState D F → SampleState D F
  unfolding clear_remote_states
  on_shutdown s = record s {
    latest_packets = clear_remote_states s.latest_packets;
    last_seq_nums = clear_remote_states s.last_seq_nums;
  }

  pub set_broadcast_enabled : Bool → SampleState D F → SampleState D F
  set_broadcast_enabled enabled s = record s { broadcast_enabled = enabled }

  pub set_receive_enabled : Bool → SampleState D F → SampleState D F
  set_receive_enabled enabled s = record s { receive_enabled = enabled }

  -- The packet that `broadcastRawSamples` fills; `samples` is the array that it copies from.
  pub packet_of : Multicast → List F → ℕ → D → D → F → ℕ → RawSamplesPacket D F
  packet_of m samples n ppq bpm range seq_num = record {
    magic = protocol_magic;
    version = protocol_version;
    instance_id = m.instance_id;
    instance_index = m.instance_index;
    sequence_number = seq_num;
    ppq_of_first_sample = ppq;
    bpm = bpm;
    display_range_beats = range;
    num_samples = n % 2 ^ 16;
    samples = take n samples;
  }

  -- The packet handed to `sendto` and the number of its bytes, or `none` where it is not called. The
  -- result of the call is that `sendto` reports a positive number of bytes.
  pub broadcast_raw_samples :
      Multicast → SampleState D F → List F → ℤ → D → D → F → ℕ → Option (RawSamplesPacket D F × ℕ)
  unfolding has_socket packet_of
  broadcast_raw_samples m s samples num_samples ppq bpm range seq_num =
      let n = pos_part num_samples in
      if not m.network_initialized || not s.broadcast_enabled || not (has_socket m.send_socket)
      then none
      else if leb_ℤ num_samples (pos 0) || ltb_ℤ (pos broadcast_chunk_samples) num_samples
      then none
      else some (packet_of m samples n ppq bpm range seq_num, raw_packet_header_size + 4 * n)

  -- `now - timestamp > STALE_TIMEOUT_MS`
  pub is_stale : ℕ → RemoteRawPacket D F → Bool
  is_stale now p = ltb (p.timestamp + stale_timeout_ms) now

  pub get_received_packets : ℕ → SampleState D F → List (RemoteRawPacket D F) × SampleState D F
  unfolding get_remote_states is_stale
  get_received_packets now s =
      let (out, kept) = get_remote_states (is_stale now) s.latest_packets in
      (out, record s { latest_packets = kept })

  pub get_num_remote_instances : SampleState D F → ℕ
  unfolding get_num_remote_states
  get_num_remote_instances s = get_num_remote_states s.latest_packets

  -- The checks of the receiver on a datagram of `bytes` bytes with the fields `p`.
  pub is_accepted : Multicast → ℕ → RawSamplesPacket D F → Bool
  is_accepted m bytes p =
      leb raw_packet_header_size bytes
      && p.magic == protocol_magic
      && p.version == protocol_version
      && not (p.instance_id == m.instance_id)
      && not (p.num_samples == 0)
      && leb p.num_samples broadcast_chunk_samples
      && leb (raw_packet_header_size + 4 * p.num_samples) bytes

  pub received : ℕ → RawSamplesPacket D F → RemoteRawPacket D F
  received now p = record {
    instance_id = p.instance_id;
    instance_index = p.instance_index;
    timestamp = now;
    sequence_number = p.sequence_number;
    ppq_of_first_sample = p.ppq_of_first_sample;
    bpm = p.bpm;
    display_range_beats = p.display_range_beats;
    num_samples = p.num_samples;
    samples = take p.num_samples p.samples;
  }

  pub is_fresh : ℕ → Option (RemoteRawPacket D F) → Bool
  unfolding is_newer
  is_fresh seq_num none = true
  is_fresh seq_num (some old) = is_newer seq_num old.sequence_number

  pub store_latest :
      RemoteRawPacket D F → StateMap (RemoteRawPacket D F) → StateMap (RemoteRawPacket D F)
  unfolding is_fresh
  store_latest fresh packets =
      if is_fresh fresh.sequence_number (find fresh.instance_id packets)
      then store fresh.instance_id fresh packets
      else packets

  -- One turn of the loop of `receiverThreadRun`, in which `recvfrom` has given `bytes` bytes (0 where it
  -- timed out) with the fields `p` at the time `now`.
  pub receive : Multicast → ℕ → ℕ → RawSamplesPacket D F → SampleState D F → SampleState D F
  unfolding is_accepted received store_latest
  receive m now bytes p s =
      if not s.receive_enabled then s else if not (is_accepted m bytes p) then s else record s {
        last_seq_nums = store p.instance_id p.sequence_number s.last_seq_nums;
        latest_packets = store_latest (received now p) s.latest_packets;
      }
