-- ===== src/Net/Ctrl/Inbound.antt =====
-- What the receiver reports to the processor: the number of the announcements and the request to broadcast only.
use phu_audio_lib.Base.{
  ℕ, ◌+◌, ◌%◌, ◌^◌, ◌<◌, ◌≡◌, refl, ◌==◌, Bool, true, false, List, [], ◌∷◌, ◌&&◌, ◌||◌, not,
  if◌then◌else◌, Bool-cases, inl, inr, arith,
}
use phu_audio_lib.Net.Lifecycle.{Multicast}
use phu_audio_lib.Net.Ctrl.{
  CtrlPacket, CtrlState, goodbye, peers_broadcast_only, is_accepted, receive, consume_inbound_count,
  consume_peers_broadcast_only_command,
}

-- A datagram: the time, the number of bytes and the fields.
pub record Datagram (D F : Type 0) : Type 0 where
  pub now : ℕ
  pub bytes : ℕ
  pub packet : CtrlPacket D F

module _ {D F : Type 0} where
  pub receive_all : Multicast → List (Datagram D F) → CtrlState D F → CtrlState D F
  receive_all m [] s = s
  receive_all m (d ∷ ds) s = receive_all m ds (receive m d.now d.bytes d.packet s)

  -- An accepted datagram other than a goodbye.
  unfoldable pub is_counted : Multicast → Datagram D F → Bool
  is_counted m d = is_accepted m d.bytes d.packet && not (d.packet.event_type == goodbye)

  unfoldable pub count : Multicast → List (Datagram D F) → ℕ
  unfolding is_counted
  count m [] = 0
  count m (d ∷ ds) = if is_counted m d then 1 + count m ds else count m ds

  unfoldable pub asks : Multicast → List (Datagram D F) → Bool
  unfolding is_counted
  asks m [] = false
  asks m (d ∷ ds) = (is_counted m d && d.packet.event_type == peers_broadcast_only) || asks m ds

  one-received :
      (m : Multicast) (d : Datagram D F) (s : CtrlState D F)
      → s.receive_enabled ≡ true
      → let t = receive m d.now d.bytes d.packet s in
        (t.receive_enabled ≡ true)
        × (t.inbound_ctrl_packets ≡ (
            if is_counted m d
            then (s.inbound_ctrl_packets + 1) % 2 ^ 32
            else s.inbound_ctrl_packets))
        × (t.received_peers_broadcast_only ≡ (
            (is_counted m d && d.packet.event_type == peers_broadcast_only)
            || s.received_peers_broadcast_only))
  unfolding receive is_counted
  one-received m d s on = elim (Bool-cases (is_accepted m d.bytes d.packet)) [
    | inl ok ↦ elim (Bool-cases (d.packet.event_type == goodbye)) [
      | inl bye ↦ rw (on, ok, bye) (refl, refl, refl)
      | inr other ↦ rw (on, ok, other) (refl, refl, ground arith)
    ]
    | inr bad ↦ rw (on, bad) (refl, refl, refl)
  ]

  -- Since the two values were last consumed, the counter has risen by the number of accepted datagrams that
  -- are no goodbyes, modulo 2 ^ 32, and the flag is set if one of them was a request to broadcast only.
  pub consume-receive_all :
      (m : Multicast) (ds : List (Datagram D F)) (s : CtrlState D F)
      → s.receive_enabled ≡ true
      → s.inbound_ctrl_packets < 2 ^ 32
      → ((consume_inbound_count (receive_all m ds s)).0
          ≡ (s.inbound_ctrl_packets + count m ds) % 2 ^ 32)
        × ((consume_peers_broadcast_only_command (receive_all m ds s)).0
            ≡ (asks m ds || s.received_peers_broadcast_only))
  unfolding receive_all count asks consume_inbound_count consume_peers_broadcast_only_command
  consume-receive_all m [] s on h = (omega arith, refl)
  consume-receive_all m (d ∷ ds) s on h =
      let (on', inbound, flag) = one-received m d s on in
      let small : (receive m d.now d.bytes d.packet s).inbound_ctrl_packets < 2 ^ 32 =
        ground arith in
      let (total, asked) =
        consume-receive_all m ds (receive m d.now d.bytes d.packet s) on' small in
      (ground arith, ground arith)
