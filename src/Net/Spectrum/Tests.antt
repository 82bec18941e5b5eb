-- ===== src/Net/Spectrum/Tests.antt =====
-- A spectrum of two magnitudes, with integers in place of floats.
use phu_audio_lib.Base.{
  ℕ, ◌≡◌, refl, ℤ, pos, ◌-ℤ◌, true, some, List, [], ◌∷◌, length, get_elem?, replicate, arith,
}
use phu_audio_lib.Double.Integers.{integers}
use phu_audio_lib.Net.Lifecycle.{Multicast, has_socket}
use phu_audio_lib.Net.States.{find}
use phu_audio_lib.Net.Spectrum.{
  SpectrumPacket, SpectrumState, packet_of, broadcast_spectrum, RemoteSpectrum, restore, receive,
}
use phu_audio_lib.Net.Spectrum.Bins.{receive-broadcast_spectrum}
use phu_audio_lib.Net.Spectrum.Bytes.{bin_byte}

abbrev instance_named : ℕ → Multicast
instance_named id = record {
  send_socket = some 5;
  recv_socket = some 6;
  network_initialized = true;
  instance_id = id;
  instance_index = 2;
  running = true;
  receiver_thread = true;
}

abbrev fresh_state : SpectrumState ℤ
fresh_state = record {
  broadcast_enabled = true;
  receive_enabled = true;
  min_broadcast_interval_ms = pos 33;
  last_broadcast_time = 0;
  latest_spectrums = [];
}

abbrev same : ℤ → ℤ
same x = x

abbrev first : ℤ → ℤ → ℤ
first x y = x

abbrev two_magnitudes : List ℤ
two_magnitudes = pos 3 ∷ pos 1 ∷ []

abbrev spectrum_packet : SpectrumPacket ℤ
spectrum_packet = packet_of integers same (instance_named 1) 50 two_magnitudes (pos 2) (pos 48000)

abbrev empty_buffer : SpectrumPacket ℤ
empty_buffer = record {
  magic = 0;
  version = 0;
  instance_id = 0;
  timestamp = 0;
  num_bins = 0;
  sample_rate = pos 0;
  magnitudes = replicate 512 0;
}

sends_spectrum :
    (broadcast_spectrum integers same
      (instance_named 1)
      50
      two_magnitudes
      (pos 2)
      (pos 48000)
      fresh_state).0
    ≡ some spectrum_packet
unfolding broadcast_spectrum has_socket ◌-ℤ◌
sends_spectrum = refl

receive-broadcast_spectrum_example :
    (info : RemoteSpectrum ℤ) × (find 1
        (receive integers first
          (instance_named 2)
          60
          538
          spectrum_packet
          fresh_state
          empty_buffer).0.latest_spectrums
      ≡ some info)
    × (info.instance_id ≡ 1)
    × (info.timestamp ≡ 60)
    × (info.sample_rate ≡ pos 48000)
    × (length info.magnitudes ≡ 2)
    × (get_elem? info.magnitudes 1
        ≡ some (restore integers first (bin_byte integers same two_magnitudes 2 1)))
receive-broadcast_spectrum_example =
    receive-broadcast_spectrum integers same first (instance_named 1) (instance_named 2) 50 60 2
      two_magnitudes (pos 48000) fresh_state fresh_state spectrum_packet empty_buffer 1
      (λ e. omega (arith, e)) sends_spectrum (omega arith) refl refl
