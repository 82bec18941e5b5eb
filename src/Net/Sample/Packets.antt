-- ===== src/Net/Sample/Packets.antt =====
-- Packets from the sender to the receiver.
use phu_audio_lib.Base.{
  ℕ, ◌+◌, ◌*◌, ◌%◌, ◌^◌, ◌≤◌, ◌<◌, ◌≡◌, ◌≢◌, refl, ℤ, pos, negsuc, pos_part, ◌==◌, true, some, List,
  ◌&&◌, take, take-take, if◌then◌else◌, arith,
}
use phu_audio_lib.Net.Lifecycle.{Multicast}
use phu_audio_lib.Net.States.{find}
use phu_audio_lib.Net.States.Laws.{find-store}
use phu_audio_lib.Net.Sample.{
  SampleState, RawSamplesPacket, RemoteRawPacket, broadcast_chunk_samples, raw_packet_header_size,
  packet_of, broadcast_raw_samples, is_accepted, received, is_fresh, store_latest, receive,
}

module _ {D F : Type 0} where
  -- What one turn of the receiver leaves of the latest packet of every instance.
  pub find-receive :
      (m : Multicast) (now bytes : ℕ) (p : RawSamplesPacket D F) (s : SampleState D F) (k : ℕ)
      → find k (receive m now bytes p s).latest_packets ≡ (
          if s.receive_enabled
            && is_accepted m bytes p
            && k == p.instance_id
            && is_fresh p.sequence_number (find p.instance_id s.latest_packets)
          then some (received now p)
          else find k s.latest_packets)
  unfolding receive store_latest received
  find-receive m now bytes p s k =
      ground (arith, find-store p.instance_id k (received now p) s.latest_packets)

  -- A packet is accepted by every other instance as it was sent.
  accepted-sent :
      (a b : Multicast) (samples : List F) (n : ℕ) (ppq bpm : D) (range : F) (seq_num : ℕ)
      → (a.instance_id ≢ b.instance_id)
      → 0 < n
      → n ≤ broadcast_chunk_samples
      → is_accepted b (raw_packet_header_size + 4 * n) (packet_of a samples n ppq bpm range seq_num)
        ≡ true
  unfolding is_accepted packet_of
  accepted-sent a b samples n ppq bpm range seq_num ne h g =
      let same : n % 2 ^ 16 ≡ n = omega arith in ground (arith, same)

  -- What is sent, where anything is.
  abbrev IsSent :
      (m : Multicast) (samples : List F) (num_samples : ℤ) (ppq bpm : D) (range : F) (seq_num : ℕ)
      → RawSamplesPacket D F × ℕ
      → Type 0
  IsSent m samples num_samples ppq bpm range seq_num sent =
      (0 < pos_part num_samples)
      × (pos_part num_samples ≤ broadcast_chunk_samples)
      × (sent ≡ (
        packet_of m samples (pos_part num_samples) ppq bpm range seq_num,
        raw_packet_header_size + 4 * pos_part num_samples,
      ))

  broadcast_raw_samples-IsSent :
      (m : Multicast) (s : SampleState D F) (samples : List F) (num_samples : ℤ) (ppq bpm : D)
      (range : F) (seq_num : ℕ) (sent : RawSamplesPacket D F × ℕ)
      → broadcast_raw_samples m s samples num_samples ppq bpm range seq_num ≡ some sent
      → IsSent m samples num_samples ppq bpm range seq_num sent
  unfolding broadcast_raw_samples
  broadcast_raw_samples-IsSent m s samples (pos n) ppq bpm range seq_num sent e = ground arith
  broadcast_raw_samples-IsSent m s samples (negsuc n) ppq bpm range seq_num sent e = ground arith

  -- What a receiver keeps of a packet of `m`.
  abbrev pub kept : Multicast → List F → ℕ → D → D → F → ℕ → ℕ → RemoteRawPacket D F
  kept m samples n ppq bpm range seq_num now = record {
    instance_id = m.instance_id;
    instance_index = m.instance_index;
    timestamp = now;
    sequence_number = seq_num;
    ppq_of_first_sample = ppq;
    bpm = bpm;
    display_range_beats = range;
    num_samples = n;
    samples = take n samples;
  }

  received-sent :
      (m : Multicast) (samples : List F) (n : ℕ) (ppq bpm : D) (range : F) (seq_num now : ℕ)
      → n ≤ broadcast_chunk_samples
      → received now (packet_of m samples n ppq bpm range seq_num)
        ≡ kept m samples n ppq bpm range seq_num now
  unfolding received packet_of
  received-sent m samples n ppq bpm range seq_num now h =
      let same : n % 2 ^ 16 ≡ n = omega arith in rw (same, take-take n samples) refl

  -- A packet that one instance sends arrives at every other instance that receives as it was sent: where the receiver has
  -- nothing of the sender yet, or something older, it keeps the sender's data and samples afterwards.
  pub receive-broadcast :
      (a b : Multicast) (s t : SampleState D F) (samples : List F) (num_samples : ℤ) (ppq bpm : D)
      (range : F) (seq_num now : ℕ) (sent : RawSamplesPacket D F × ℕ)
      → a.instance_id ≢ b.instance_id
      → broadcast_raw_samples a s samples num_samples ppq bpm range seq_num ≡ some sent
      → t.receive_enabled ≡ true
      → is_fresh seq_num (find a.instance_id t.latest_packets) ≡ true
      → find a.instance_id (receive b now sent.1 sent.0 t).latest_packets
        ≡ some (kept a samples (pos_part num_samples) ppq bpm range seq_num now)
  unfolding packet_of
  receive-broadcast a b s t samples num_samples ppq bpm range seq_num now sent ne e on fresh =
      let (more, less, same) =
        broadcast_raw_samples-IsSent a s samples num_samples ppq bpm range seq_num sent e in
      let ok =
        accepted-sent a b samples (pos_part num_samples) ppq bpm range seq_num ne more less in
      rw
        (
          same,
          find-receive b now (raw_packet_header_size + 4 * pos_part num_samples)
              (packet_of a samples (pos_part num_samples) ppq bpm range seq_num) t a.instance_id,
          on,
          ok,
        )
        (ground
          (arith, received-sent a samples (pos_part num_samples) ppq bpm range seq_num now less))
