-- ===== src/Net/Sample/Latest.antt =====
-- The map of the latest packets over time: what it holds, and packets that come out of order.
use phu_audio_lib.Base.{
  ℕ, ◌^◌, ◌≤◌, ◌<◌, ◌≡◌, ◌≢◌, ◌∙◌, Bool, true, false, none, some, List, [], ◌∷◌, if◌then◌else◌,
  Bool-cases, inl, inr, arith,
}
use phu_audio_lib.Net.Lifecycle.{Multicast}
use phu_audio_lib.Net.States.{StateMap, find, clear_remote_states, get_remote_states}
use phu_audio_lib.Net.States.Laws.{
  Rising, AllStates, store-Rising, store-AllStates, prune_loop-Rising, prune_loop-AllStates,
}
use phu_audio_lib.Net.Sample.{
  SampleState, RawSamplesPacket, RemoteRawPacket, broadcast_chunk_samples, on_shutdown,
  set_receive_enabled, set_broadcast_enabled, is_newer, is_accepted, received, is_fresh,
  store_latest, receive, get_received_packets, is_stale,
}
use phu_audio_lib.Net.Sample.Packets.{find-receive}

is_newer-asym : (a b : ℕ) → a < 2 ^ 32 → b < 2 ^ 32 → is_newer a b ≡ true → is_newer b a ≡ false
unfolding is_newer
is_newer-asym a b h g e = ground arith

module _ {D F : Type 0} where
  enabled-receive :
      (m : Multicast) (now bytes : ℕ) (p : RawSamplesPacket D F) (s : SampleState D F)
      → (receive m now bytes p s).receive_enabled ≡ s.receive_enabled
  unfolding receive
  enabled-receive m now bytes p s = ground arith

  find-accepted :
      (m : Multicast) (now bytes : ℕ) (p : RawSamplesPacket D F) (s : SampleState D F)
      → s.receive_enabled ≡ true
      → is_accepted m bytes p ≡ true
      → find p.instance_id (receive m now bytes p s).latest_packets ≡ (
          if is_fresh p.sequence_number (find p.instance_id s.latest_packets)
          then some (received now p)
          else find p.instance_id s.latest_packets)
  find-accepted m now bytes p s on ok = ground (arith, find-receive m now bytes p s p.instance_id)

  -- Of two accepted packets of one sender, the newer one is kept, whichever of them comes first.
  pub receive-reorder :
      (m : Multicast) (now1 now2 bytes1 bytes2 : ℕ) (p q : RawSamplesPacket D F)
      (s : SampleState D F)
      → s.receive_enabled ≡ true
      → is_accepted m bytes1 p ≡ true
      → is_accepted m bytes2 q ≡ true
      → p.instance_id ≡ q.instance_id
      → find p.instance_id s.latest_packets ≡ none
      → p.sequence_number < 2 ^ 32
      → q.sequence_number < 2 ^ 32
      → is_newer q.sequence_number p.sequence_number ≡ true
      → (find q.instance_id (receive m now2 bytes2 q (receive m now1 bytes1 p s)).latest_packets
          ≡ some (received now2 q))
        × (find q.instance_id (receive m now2 bytes1 p (receive m now1 bytes2 q s)).latest_packets
            ≡ some (received now1 q))
  unfolding is_fresh received
  receive-reorder m now1 now2 bytes1 bytes2 p q s on ok1 ok2 same first h g newer =
      let older = is_newer-asym q.sequence_number p.sequence_number g h newer in
      let s1 = receive m now1 bytes1 p s in
      let s2 = receive m now1 bytes2 q s in
      let on1 = enabled-receive m now1 bytes1 p s ∙ on in
      let on2 = enabled-receive m now1 bytes2 q s ∙ on in
      (
        ground (
          arith,
          find-accepted m now2 bytes2 q s1 on1 ok2,
          find-accepted m now1 bytes1 p s on ok1,
        ),
        ground (
          arith,
          find-accepted m now2 bytes1 p s2 on2 ok1,
          find-accepted m now1 bytes2 q s on ok2,
        ),
      )

  -- What the map may hold under a key: a packet of that instance, which is not the own one, with a
  -- number of samples that fits.
  abbrev pub Foreign : ℕ → ℕ → RemoteRawPacket D F → Type 0
  Foreign own k p =
      (p.instance_id ≡ k)
      × (k ≢ own)
      × (0 < p.num_samples)
      × (p.num_samples ≤ broadcast_chunk_samples)

  -- One entry for each instance, in the order of the identifiers.
  pub record IsValid (own : ℕ) (packets : StateMap (RemoteRawPacket D F)) : Type 0 where
    pub rising : Rising 0 packets
    pub foreign : AllStates (Foreign own) packets

  accepted-Foreign :
      (m : Multicast) (now bytes : ℕ) (p : RawSamplesPacket D F)
      → is_accepted m bytes p ≡ true
      → Foreign m.instance_id p.instance_id (received now p)
  unfolding is_accepted received
  accepted-Foreign m now bytes p e = ground arith

  store_latest-IsValid :
      (own : ℕ) (p : RemoteRawPacket D F) (packets : StateMap (RemoteRawPacket D F))
      → IsValid own packets
      → Foreign own p.instance_id p
      → IsValid own (store_latest p packets)
  unfolding store_latest
  store_latest-IsValid own p packets v f =
      elim (Bool-cases (is_fresh p.sequence_number (find p.instance_id packets))) [
        | inl fresh ↦ rw fresh (record {
          rising = store-Rising p.instance_id 0 p packets (omega arith) v.rising;
          foreign = store-AllStates (Foreign own) p.instance_id p packets f v.foreign;
        })
        | inr old ↦ rw old v
      ]

  receive-IsValid :
      (m : Multicast) (now bytes : ℕ) (p : RawSamplesPacket D F) (s : SampleState D F)
      → IsValid m.instance_id s.latest_packets
      → IsValid m.instance_id (receive m now bytes p s).latest_packets
  unfolding receive
  receive-IsValid m now bytes p s v = elim (Bool-cases s.receive_enabled) [
    | inl on ↦ elim (Bool-cases (is_accepted m bytes p)) [
      | inl ok ↦
          rw (on, ok)
            (store_latest-IsValid m.instance_id (received now p) s.latest_packets v
              (accepted-Foreign m now bytes p ok))
      | inr bad ↦ rw (on, bad) v
    ]
    | inr off ↦ rw off v
  ]

  get_received_packets-IsValid :
      (own now : ℕ) (s : SampleState D F)
      → IsValid own s.latest_packets
      → IsValid own (get_received_packets now s).1.latest_packets
  unfolding get_received_packets get_remote_states
  get_received_packets-IsValid own now s v = record {
    rising = prune_loop-Rising (is_stale now) 0 s.latest_packets v.rising;
    foreign = prune_loop-AllStates (Foreign own) (is_stale now) s.latest_packets v.foreign;
  }

-- What happens to the state while the broadcaster runs and when it stops.
pub data Call (D F : Type 0) : Type 0 where
  receives : ℕ → ℕ → RawSamplesPacket D F → Call D F
  reads : ℕ → Call D F
  receive_enables : Bool → Call D F
  broadcast_enables : Bool → Call D F
  stops : Call D F

module _ {D F : Type 0} where
  pub step : Multicast → Call D F → SampleState D F → SampleState D F
  step m (receives now bytes p) s = receive m now bytes p s
  step m (reads now) s = (get_received_packets now s).1
  step m (receive_enables b) s = set_receive_enabled b s
  step m (broadcast_enables b) s = set_broadcast_enabled b s
  step m stops s = on_shutdown s

  pub serve : Multicast → List (Call D F) → SampleState D F → SampleState D F
  unfolding step
  serve m [] s = s
  serve m (c ∷ cs) s = serve m cs (step m c s)

  step-IsValid :
      (m : Multicast) (c : Call D F) (s : SampleState D F)
      → IsValid m.instance_id s.latest_packets
      → IsValid m.instance_id (step m c s).latest_packets
  unfolding step on_shutdown set_receive_enabled set_broadcast_enabled clear_remote_states
  step-IsValid m (receives now bytes p) s v = receive-IsValid m now bytes p s v
  step-IsValid m (reads now) s v = get_received_packets-IsValid m.instance_id now s v
  step-IsValid m (receive_enables b) s v = v
  step-IsValid m (broadcast_enables b) s v = v
  step-IsValid m stops s v = record { rising = tt; foreign = tt }

  -- Whatever datagrams arrive, and in whatever order with the other calls, the map of the latest packets holds at most one
  -- packet of each instance, none of the own instance, and each with 1 to 6350 samples.
  pub serve-IsValid :
      (m : Multicast) (cs : List (Call D F)) (s : SampleState D F)
      → IsValid m.instance_id s.latest_packets
      → IsValid m.instance_id (serve m cs s).latest_packets
  unfolding serve
  serve-IsValid m [] s v = v
  serve-IsValid m (c ∷ cs) s v = serve-IsValid m cs (step m c s) (step-IsValid m c s v)
