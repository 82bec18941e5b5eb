-- ===== src/Net/Sample/Tests.antt =====
-- Packets of samples between two instances, with numbers in place of floats.
use phu_audio_lib.Base.{ℕ, ◌≡◌, ◌-◌, ◌^◌, refl, pos, true, some, List, [], ◌∷◌, arith}
use phu_audio_lib.Net.Lifecycle.{Multicast, has_socket}
use phu_audio_lib.Net.States.{find}
use phu_audio_lib.Net.Sample.{
  SampleState, RawSamplesPacket, broadcast_raw_samples, packet_of, received, receive, is_accepted,
  is_newer, is_fresh,
}
use phu_audio_lib.Net.Sample.Packets.{kept, receive-broadcast}
use phu_audio_lib.Net.Sample.Latest.{
  IsValid, receive-reorder, receives, reads, serve, serve-IsValid,
}

abbrev instance_named : ℕ → Multicast
instance_named id = record {
  send_socket = some 5;
  recv_socket = some 6;
  network_initialized = true;
  instance_id = id;
  instance_index = 2;
  running = true;
  receiver_thread = true;
}

abbrev fresh_state : SampleState ℕ ℕ
fresh_state = record {
  broadcast_enabled = true;
  receive_enabled = true;
  latest_packets = [];
  last_seq_nums = [];
}

abbrev chunk : List ℕ
chunk = 10 ∷ 20 ∷ 30 ∷ []

abbrev first_packet : RawSamplesPacket ℕ ℕ
first_packet = packet_of (instance_named 1) chunk 3 96 120 4 (2 ^ 32 - 1)

-- The sequence number behind `2 ^ 32 - 1` is 0.
abbrev next_packet : RawSamplesPacket ℕ ℕ
next_packet = packet_of (instance_named 1) chunk 2 99 120 4 0

sends_chunk :
    broadcast_raw_samples (instance_named 1) fresh_state chunk (pos 3) 96 120 4 (2 ^ 32 - 1)
    ≡ some (first_packet, 54)
unfolding broadcast_raw_samples has_socket
sends_chunk = refl

receive-broadcast_example :
    find 1 (receive (instance_named 2) 1000 54 first_packet fresh_state).latest_packets
    ≡ some (kept (instance_named 1) chunk 3 96 120 4 (2 ^ 32 - 1) 1000)
unfolding is_fresh find
receive-broadcast_example =
    receive-broadcast (instance_named 1) (instance_named 2) fresh_state fresh_state chunk (pos 3) 96
      120 4 (2 ^ 32 - 1) 1000 (first_packet, 54) (λ e. omega (arith, e)) sends_chunk refl refl

receive-reorder_example :
    (find 1
        (receive
          (instance_named 2)
          1100
          50
          next_packet
          (receive (instance_named 2) 1000 54 first_packet fresh_state)).latest_packets
      ≡ some (received 1100 next_packet))
    × (find 1
          (receive
            (instance_named 2)
            1100
            54
            first_packet
            (receive (instance_named 2) 1000 50 next_packet fresh_state)).latest_packets
        ≡ some (received 1000 next_packet))
unfolding packet_of is_accepted is_newer find
receive-reorder_example =
    receive-reorder (instance_named 2) 1000 1100 54 50 first_packet next_packet fresh_state refl
      refl refl refl refl (omega arith) (omega arith) refl

serve-IsValid_example :
    IsValid 2
      (serve
        (instance_named 2)
        (receives 1000 54 first_packet ∷ reads 1500 ∷ receives 1600 50 next_packet ∷ [])
        fresh_state).latest_packets
serve-IsValid_example =
    serve-IsValid (instance_named 2)
      (receives 1000 54 first_packet ∷ reads 1500 ∷ receives 1600 50 next_packet ∷ []) fresh_state
      (record { rising = tt; foreign = tt })
