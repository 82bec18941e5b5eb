-- ===== src/Net/Spectrum/Bins.antt =====
-- A spectrum from the sender to the receiver.
use phu_audio_lib.Base.{
  ℕ, ◌+◌, ◌%◌, ◌^◌, ◌≤◌, ◌<◌, min, ◌≡◌, ◌≢◌, refl, sym, ap, ◌∙◌, pos, ltb, ◌==◌, true, false, some,
  List, length, get_elem?, take, take-length, blit, blit-all, replicate, if◌then◌else◌, arith,
}
use phu_audio_lib.Double.{Double}
use phu_audio_lib.Net.Lifecycle.{Multicast}
use phu_audio_lib.Net.States.{find, store}
use phu_audio_lib.Net.States.Laws.{find-store}
use phu_audio_lib.Net.Spectrum.{
  SpectrumPacket, RemoteSpectrum, SpectrumState, restore, max_spectrum_bins, header_size, packet_of,
  broadcast_spectrum, decompress_spectrum, is_accepted, fill_packet, received, receive,
}
use phu_audio_lib.Net.Spectrum.Bytes.{
  bytes_of, bin_byte, output_bins, length-compress_spectrum, length-bytes_of, get_elem?-bytes_of,
  length-decompress_spectrum, get_elem?-decompress_spectrum,
}

module _ (F : Double) (log10 : F.Carrier → F.Carrier)
    (pow : F.Carrier → F.Carrier → F.Carrier) where
  -- The packet, with the number of bins written out.
  sent_packet : Multicast → ℕ → List F.Carrier → ℕ → F.Carrier → SpectrumPacket F.Carrier
  sent_packet m now magnitudes n rate = record (packet_of F log10 m now magnitudes (pos n) rate) {
    num_bins = min n max_spectrum_bins;
    magnitudes = bytes_of F log10 magnitudes n;
  }

  packet_of-min :
      (m : Multicast) (now : ℕ) (magnitudes : List F.Carrier) (n : ℕ) (rate : F.Carrier)
      → packet_of F log10 m now magnitudes (pos n) rate ≡ sent_packet m now magnitudes n rate
  unfolding packet_of sent_packet
  packet_of-min m now magnitudes n rate =
      let small : min n max_spectrum_bins % 2 ^ 16 ≡ min n max_spectrum_bins = omega arith in
      rw (output_bins n, small) refl

  fill_packet-whole :
      (p buffer : SpectrumPacket F.Carrier)
      → length p.magnitudes ≡ max_spectrum_bins
      → length buffer.magnitudes ≡ max_spectrum_bins
      → fill_packet (header_size + max_spectrum_bins) p buffer ≡ p
  unfolding fill_packet
  fill_packet-whole p buffer h g =
      let all : take 512 p.magnitudes ≡ p.magnitudes =
        ap (λ n. take n p.magnitudes) (sym h) ∙ take-length p.magnitudes in
      ap (λ x. record p { magnitudes = x })
        (ap (λ x. blit buffer.magnitudes 0 x) all
          ∙ blit-all buffer.magnitudes p.magnitudes (h ∙ sym g))

  receive-filled :
      (m : Multicast) (now bytes : ℕ) (p : SpectrumPacket F.Carrier) (s : SpectrumState F.Carrier)
      (buffer : SpectrumPacket F.Carrier)
      → s.receive_enabled ≡ true
      → header_size ≤ bytes
      → is_accepted m (fill_packet bytes p buffer) ≡ true
      → (receive F pow m now bytes p s buffer).0.latest_spectrums
        ≡ store
            (fill_packet bytes p buffer).instance_id
            (received F pow now (fill_packet bytes p buffer))
            s.latest_spectrums
  unfolding receive
  receive-filled m now bytes p s buffer on h ok =
      let whole : ltb bytes header_size ≡ false = ground arith in rw (on, whole, ok) refl

  sent-length :
      (m : Multicast) (now : ℕ) (magnitudes : List F.Carrier) (n : ℕ) (rate : F.Carrier)
      → length (sent_packet m now magnitudes n rate).magnitudes ≡ max_spectrum_bins
  unfolding sent_packet
  sent-length m now magnitudes n rate =
      length-compress_spectrum F log10 magnitudes n (min n max_spectrum_bins)
        (replicate max_spectrum_bins 0)

  accepted-sent :
      (a b : Multicast) (now : ℕ) (magnitudes : List F.Carrier) (n : ℕ) (rate : F.Carrier)
      → a.instance_id ≢ b.instance_id
      → 0 < n
      → is_accepted b (sent_packet a now magnitudes n rate) ≡ true
  unfolding is_accepted sent_packet packet_of
  accepted-sent a b now magnitudes n rate ne h = ground arith

  stored-sent :
      (m : Multicast) (now later : ℕ) (magnitudes : List F.Carrier) (n : ℕ) (rate : F.Carrier)
      (t : SpectrumState F.Carrier)
      → let sent = sent_packet m now magnitudes n rate in
        find m.instance_id (store sent.instance_id (received F pow later sent) t.latest_spectrums)
        ≡ some (record {
          instance_id = m.instance_id;
          timestamp = later;
          sample_rate = rate;
          magnitudes =
              decompress_spectrum F pow (bytes_of F log10 magnitudes n) (min n max_spectrum_bins);
        })
  unfolding received sent_packet packet_of
  stored-sent m now later magnitudes n rate t =
      let sent = sent_packet m now magnitudes n rate in
      let self : (m.instance_id == m.instance_id) ≡ true = ground arith in
      find-store m.instance_id m.instance_id (received F pow later sent) t.latest_spectrums
      ∙ ap
          (λ x.
            if x then some (received F pow later sent) else find m.instance_id t.latest_spectrums)
          self

  arrived-sent :
      (m : Multicast) (now later : ℕ) (magnitudes : List F.Carrier) (n : ℕ) (rate : F.Carrier)
      (t : SpectrumState F.Carrier) (i : ℕ)
      → i < min n max_spectrum_bins
      → (info : RemoteSpectrum F.Carrier) × (find m.instance_id (
            store
              (sent_packet m now magnitudes n rate).instance_id
              (received F pow later (sent_packet m now magnitudes n rate))
              t.latest_spectrums)
          ≡ some info)
        × (info.instance_id ≡ m.instance_id)
        × (info.timestamp ≡ later)
        × (info.sample_rate ≡ rate)
        × (length info.magnitudes ≡ min n max_spectrum_bins)
        × (get_elem? info.magnitudes i ≡ some (restore F pow (bin_byte F log10 magnitudes n i)))
  arrived-sent m now later magnitudes n rate t i h = (
    record {
      instance_id = m.instance_id;
      timestamp = later;
      sample_rate = rate;
      magnitudes =
          decompress_spectrum F pow (bytes_of F log10 magnitudes n) (min n max_spectrum_bins);
    },
    stored-sent m now later magnitudes n rate t,
    refl,
    refl,
    refl,
    length-decompress_spectrum F pow (bytes_of F log10 magnitudes n) (min n max_spectrum_bins)
        (omega (arith, length-bytes_of F log10 magnitudes n)),
    get_elem?-decompress_spectrum F pow (bytes_of F log10 magnitudes n) (min n max_spectrum_bins) i
        _ h (get_elem?-bytes_of F log10 magnitudes n i h),
  )

  -- A spectrum of `n` magnitudes, at least one, that one instance sends arrives at every other instance that receives: it
  -- then has for the sender the sample rate, its own time and min(n, 512) magnitudes. The one at `i` is restored from one byte:
  -- that of the sender's magnitude at `i` where there are at most 512, else that of the average over the `i`th of 512 parts.
  pub receive-broadcast_spectrum :
      (a b : Multicast) (now later n : ℕ) (magnitudes : List F.Carrier) (rate : F.Carrier)
      (s t : SpectrumState F.Carrier) (p buffer : SpectrumPacket F.Carrier) (i : ℕ)
      → a.instance_id ≢ b.instance_id
      → (broadcast_spectrum F log10 a now magnitudes (pos n) rate s).0 ≡ some p
      → i < min n max_spectrum_bins
      → t.receive_enabled ≡ true
      → length buffer.magnitudes ≡ max_spectrum_bins
      → (info : RemoteSpectrum F.Carrier) × (find a.instance_id
            (receive F pow b later (header_size + max_spectrum_bins) p t buffer).0.latest_spectrums
          ≡ some info)
        × (info.instance_id ≡ a.instance_id)
        × (info.timestamp ≡ later)
        × (info.sample_rate ≡ rate)
        × (length info.magnitudes ≡ min n max_spectrum_bins)
        × (get_elem? info.magnitudes i ≡ some (restore F pow (bin_byte F log10 magnitudes n i)))
  unfolding broadcast_spectrum
  receive-broadcast_spectrum a b now later n magnitudes rate s t p buffer i ne e h on full =
      let same : p ≡ packet_of F log10 a now magnitudes (pos n) rate = ground arith in
      let sent = sent_packet a now magnitudes n rate in
      let is_sent : p ≡ sent = same ∙ packet_of-min a now magnitudes n rate in
      let filled : fill_packet (header_size + max_spectrum_bins) p buffer ≡ sent =
        ap (λ x. fill_packet (header_size + max_spectrum_bins) x buffer) is_sent
        ∙ fill_packet-whole sent buffer (sent-length a now magnitudes n rate) full in
      let ok : is_accepted b (fill_packet (header_size + max_spectrum_bins) p buffer) ≡ true =
        ap (λ x. is_accepted b x) filled
        ∙ accepted-sent a b now magnitudes n rate ne (omega arith) in
      let stored : (receive F pow b later (header_size + max_spectrum_bins) p t
            buffer).0.latest_spectrums
          ≡ store sent.instance_id (received F pow later sent) t.latest_spectrums =
        receive-filled b later (header_size + max_spectrum_bins) p t buffer on (omega arith) ok
        ∙ ap (λ x. store x.instance_id (received F pow later x) t.latest_spectrums) filled in
      rw stored (arrived-sent a now later magnitudes n rate t i h)
