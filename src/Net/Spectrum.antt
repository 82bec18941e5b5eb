-- ===== src/Net/Spectrum.antt =====
-- network/SpectrumBroadcaster.{h,cpp}: spectra of remote instances. `F` has the operations of `float`; `log10` and
-- `pow` are those of <cmath>. As in `Net.Command`, the receiver's packet buffer is part of the state.
pub mod Bins
pub mod Bytes
mod Tests
use phu_audio_lib.Base.{
  ℕ, zero, suc, ◌+◌, ◌-◌, ◌%◌, ◌^◌, ℤ, pos, negsuc, pos_part, ◌-ℤ◌, ltb_ℤ, leb_ℤ, min_ℤ, ltb, leb,
  ◌==◌, Bool, true, false, Option, none, some, List, [], ◌∷◌, ◌++◌, ◌&&◌, ◌||◌, not, get_or, take,
  blit, replicate, if◌then◌else◌,
}
use phu_audio_lib.Double.{Double}
use phu_audio_lib.Net.Lifecycle.{Multicast, has_socket}
use phu_audio_lib.Net.States.{
  StateMap, store, clear_remote_states, get_remote_states, get_num_remote_states,
}

abbrev pub protocol_magic : ℕ
protocol_magic = 0x53504543

abbrev pub protocol_version : ℕ
protocol_version = 2

abbrev pub max_spectrum_bins : ℕ
max_spectrum_bins = 512

abbrev pub stale_timeout_ms : ℕ
stale_timeout_ms = 3000

-- The size of the packed `SpectrumPacket` without its magnitudes.
abbrev pub header_size : ℕ
header_size = 4 + 4 + 4 + 8 + 2 + 4

-- The cast of an `int` to `uint16_t`.
abbrev uint16_of : ℤ → ℕ
uint16_of (pos n) = n % 2 ^ 16
uint16_of (negsuc n) = 2 ^ 16 - 1 - n % 2 ^ 16

pub record SpectrumPacket (C : Type 0) : Type 0 where
  pub magic : ℕ
  pub version : ℕ
  pub instance_id : ℕ
  pub timestamp : ℕ
  pub num_bins : ℕ
  pub sample_rate : C
  pub magnitudes : List ℕ

pub record RemoteSpectrum (C : Type 0) : Type 0 where
  pub instance_id : ℕ
  pub timestamp : ℕ
  pub sample_rate : C
  pub magnitudes : List C

-- The interval is an `int` and the last time is compared with it as a signed number.
pub record SpectrumState (C : Type 0) : Type 0 where
  pub broadcast_enabled : Bool
  pub receive_enabled : Bool
  pub min_broadcast_interval_ms : ℤ
  pub last_broadcast_time : ℕ
  pub latest_spectrums : StateMap (RemoteSpectrum C)

module _ (F : Double) (log10 : F.Carrier → F.Carrier) where
  -- `std::max` and `std::min`.
  max_f : F.Carrier → F.Carrier → F.Carrier
  max_f a b = if F.lt a b then b else a

  min_f : F.Carrier → F.Carrier → F.Carrier
  min_f a b = if F.lt b a then b else a

  db_range : F.Carrier
  db_range = F.sub (F.lit (pos 0) 1) (F.lit (negsuc 79) 1)

  -- From a magnitude to its byte.
  pub quantize : F.Carrier → ℕ
  unfolding max_f min_f db_range
  quantize magnitude =
      let db = F.mul (F.lit (pos 20) 1) (log10 (max_f magnitude (F.lit (pos 1) 1000000000))) in
      let normalized = F.div (F.sub db (F.lit (negsuc 79) 1)) db_range in
      let clamped = max_f (F.lit (pos 0) 1) (min_f (F.lit (pos 1) 1) normalized) in
      pos_part (F.to_int (F.mul clamped (F.lit (pos 255) 1))) % 2 ^ 8

  -- The loop without downsampling, from `i` on with `k` rounds left.
  quantize_from : ℕ → ℕ → List F.Carrier → List ℕ
  unfolding quantize
  quantize_from i zero input = []
  quantize_from i (suc k) input =
      quantize (get_or input i (F.of_int (pos 0))) ∷ quantize_from (i + 1) k input

  -- The sum of `k` magnitudes from `j` on.
  sum_from : F.Carrier → ℕ → ℕ → List F.Carrier → F.Carrier
  sum_from sum j zero input = sum
  sum_from sum j (suc k) input =
      sum_from (F.add sum (get_or input j (F.of_int (pos 0)))) (j + 1) k input

  -- The byte of the output bin `i` where the input is downsampled.
  pub average_bin : ℤ → F.Carrier → List F.Carrier → ℕ → ℕ
  unfolding quantize sum_from ◌-ℤ◌
  average_bin input_bins bin_ratio input i =
      let start_bin = F.to_int (F.mul (F.of_int (pos i)) bin_ratio) in
      let end_of_bin = F.mul (F.of_int (pos (i + 1))) bin_ratio in
      let end_bin = min_ℤ (F.to_int (F.ceil end_of_bin)) input_bins in
      let count = pos_part (end_bin -ℤ start_bin) in
      let sum = sum_from (F.lit (pos 0) 1) (pos_part start_bin) count input in
      quantize (if ltb 0 count then F.div sum (F.of_int (pos count)) else F.lit (pos 1) 1000000000)

  average_from : ℤ → F.Carrier → List F.Carrier → ℕ → ℕ → List ℕ
  unfolding average_bin
  average_from input_bins bin_ratio input i zero = []
  average_from input_bins bin_ratio input i (suc k) =
      average_bin input_bins bin_ratio input i ∷ average_from input_bins bin_ratio input (i + 1) k

  pub compress_spectrum : List F.Carrier → ℤ → List ℕ → ℤ → List ℕ
  unfolding quantize_from average_from ◌-ℤ◌
  compress_spectrum input input_bins output output_bins =
      let bin_ratio = F.div (F.of_int input_bins) (F.of_int output_bins) in
      if leb_ℤ input_bins output_bins
      then blit output 0 (
          quantize_from 0 (pos_part input_bins) input
          ++ replicate (pos_part (output_bins -ℤ input_bins)) 0)
      else blit output 0 (average_from input_bins bin_ratio input 0 (pos_part output_bins))

  pub packet_of : Multicast → ℕ → List F.Carrier → ℤ → F.Carrier → SpectrumPacket F.Carrier
  unfolding compress_spectrum
  packet_of m now magnitudes num_bins sample_rate =
      let output_bins = min_ℤ num_bins (pos max_spectrum_bins) in
      record {
        magic = protocol_magic;
        version = protocol_version;
        instance_id = m.instance_id;
        timestamp = now;
        num_bins = uint16_of output_bins;
        sample_rate = sample_rate;
        magnitudes =
            compress_spectrum magnitudes num_bins (replicate max_spectrum_bins 0) output_bins;
      }

  -- The packet handed to `sendto`, whole, or `none` where it is not called, and the new state.
  pub broadcast_spectrum :
      Multicast
      → ℕ
      → List F.Carrier
      → ℤ
      → F.Carrier
      → SpectrumState F.Carrier
      → Option (SpectrumPacket F.Carrier) × SpectrumState F.Carrier
  unfolding packet_of ◌-ℤ◌
  broadcast_spectrum m now magnitudes num_bins sample_rate s =
      if not m.network_initialized || not s.broadcast_enabled || not (has_socket m.send_socket)
      then (none, s)
      else if ltb_ℤ (pos now -ℤ pos s.last_broadcast_time) s.min_broadcast_interval_ms
      then (none, s)
      else (
        some (packet_of m now magnitudes num_bins sample_rate),
        record s { last_broadcast_time = now },
      )

module _ {C : Type 0} where
  pub set_broadcast_enabled : Bool → SpectrumState C → SpectrumState C
  set_broadcast_enabled enabled s = record s { broadcast_enabled = enabled }

  pub set_receive_enabled : Bool → SpectrumState C → SpectrumState C
  set_receive_enabled enabled s = record s { receive_enabled = enabled }

  pub set_broadcast_interval : ℤ → SpectrumState C → SpectrumState C
  set_broadcast_interval interval_ms s = record s { min_broadcast_interval_ms = interval_ms }

  pub on_shutdown : SpectrumState C → SpectrumState C
  unfolding clear_remote_states
  on_shutdown s = record s { latest_spectrums = clear_remote_states s.latest_spectrums }

  pub is_stale : ℕ → RemoteSpectrum C → Bool
  is_stale now spectrum = ltb (spectrum.timestamp + stale_timeout_ms) now

  pub get_received_spectrums : ℕ → SpectrumState C → List (RemoteSpectrum C) × SpectrumState C
  unfolding get_remote_states is_stale
  get_received_spectrums now s =
      let (out, left) = get_remote_states (is_stale now) s.latest_spectrums in
      (out, record s { latest_spectrums = left })

  pub get_num_remote_instances : SpectrumState C → ℕ
  unfolding get_num_remote_states
  get_num_remote_instances s = get_num_remote_states s.latest_spectrums

  -- The checks of the receiver behind that of the size; the version is not among them.
  pub is_accepted : Multicast → SpectrumPacket C → Bool
  is_accepted m p =
      p.magic == protocol_magic
      && not (p.instance_id == m.instance_id)
      && not (p.num_bins == 0)
      && leb p.num_bins max_spectrum_bins

  -- The packet buffer behind a `recvfrom` of `bytes` bytes, at least a header, of the packet `p`.
  fill_packet : ℕ → SpectrumPacket C → SpectrumPacket C → SpectrumPacket C
  fill_packet bytes p buffer = record p {
    magnitudes = blit buffer.magnitudes 0 (take (bytes - header_size) p.magnitudes);
  }

module _ (F : Double) (pow : F.Carrier → F.Carrier → F.Carrier) where
  -- From a byte to a magnitude.
  pub restore : ℕ → F.Carrier
  restore byte =
      let normalized = F.div (F.of_int (pos byte)) (F.lit (pos 255) 1) in
      let range = F.sub (F.lit (pos 0) 1) (F.lit (negsuc 79) 1) in
      let db = F.add (F.mul normalized range) (F.lit (negsuc 79) 1) in
      pow (F.lit (pos 10) 1) (F.div db (F.lit (pos 20) 1))

  pub decompress_spectrum : List ℕ → ℕ → List F.Carrier
  unfolding restore
  decompress_spectrum input zero = []
  decompress_spectrum [] (suc n) = []
  decompress_spectrum (byte ∷ input) (suc n) = restore byte ∷ decompress_spectrum input n

  pub received : ℕ → SpectrumPacket F.Carrier → RemoteSpectrum F.Carrier
  unfolding decompress_spectrum
  received now p = record {
    instance_id = p.instance_id;
    timestamp = now;
    sample_rate = p.sample_rate;
    magnitudes = decompress_spectrum p.magnitudes p.num_bins;
  }

  -- One turn of the loop of `receiverThreadRun`, as in `Net.Command`.
  pub receive :
      Multicast
      → ℕ
      → ℕ
      → SpectrumPacket F.Carrier
      → SpectrumState F.Carrier
      → SpectrumPacket F.Carrier
      → SpectrumState F.Carrier × SpectrumPacket F.Carrier
  unfolding is_accepted fill_packet received
  receive m now bytes p s buffer =
      let got = fill_packet bytes p buffer in
      if not s.receive_enabled || ltb bytes header_size
      then (s, buffer)
      else if not (is_accepted m got)
      then (s, got)
      else (
        record s { latest_spectrums = store got.instance_id (received now got) s.latest_spectrums },
        got,
      )
