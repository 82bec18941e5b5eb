-- ===== src/Net/Ctrl/Tests.antt =====
-- Announcements between two instances, with numbers in place of floats.
use phu_audio_lib.Base.{ℕ, ◌≡◌, refl, true, false, some, none, List, [], ◌∷◌, arith}
use phu_audio_lib.Net.Lifecycle.{Multicast, has_socket}
use phu_audio_lib.Net.States.{find, store}
use phu_audio_lib.Net.States.Laws.{Rising}
use phu_audio_lib.Net.Ctrl.{
  CtrlState, CtrlPacket, RemoteInstanceInfo, CtrlArguments, announce, peers_broadcast_only,
  packet_size, packet_of, send_ctrl, receive, is_accepted, goodbye, get_remote_infos,
}
use phu_audio_lib.Net.Ctrl.Infos.{IsKnown, goodbye-gone, receive-send_ctrl}
use phu_audio_lib.Net.Ctrl.Inbound.{Datagram}

abbrev instance_named : ℕ → Multicast
instance_named id = record {
  send_socket = some 5;
  recv_socket = some 6;
  network_initialized = true;
  instance_id = id;
  instance_index = 2;
  running = true;
  receiver_thread = true;
}

abbrev fresh_state : CtrlState ℕ ℕ
fresh_state = record {
  remote_infos = [];
  sequence_number = 9;
  receive_enabled = true;
  inbound_ctrl_packets = 4;
  received_peers_broadcast_only = false;
}

abbrev arguments_of : ℕ → CtrlArguments ℕ ℕ
arguments_of event = record {
  event_type = event;
  label = some (b'B' ∷ b'a' ∷ b's' ∷ b's' ∷ []);
  display_range_beats = 4;
  bpm = 120;
  sample_rate = 48000;
  max_buffer_size = 512;
  colour_rgba = some (255 ∷ 128 ∷ 0 ∷ 255 ∷ []);
  plugin_type = none;
  plugin_version = 3;
}

abbrev packet_named : ℕ → CtrlPacket ℕ ℕ
packet_named event = packet_of (instance_named 1) 9 (arguments_of event)

sends_announce :
    (send_ctrl (instance_named 1) (arguments_of announce) fresh_state).0
    ≡ some (packet_named announce)
unfolding send_ctrl has_socket
sends_announce = refl

receive-send_ctrl_example :
    (info : RemoteInstanceInfo ℕ ℕ) × (find 1
        (receive
          (instance_named 2)
          1000
          packet_size
          (packet_named announce)
          fresh_state).remote_infos
      ≡ some info)
    × IsKnown (instance_named 1) (arguments_of announce) 1000 info
receive-send_ctrl_example =
    receive-send_ctrl (instance_named 1) (instance_named 2) fresh_state fresh_state
      (arguments_of announce) (packet_named announce) 1000 (λ e. omega (arith, e)) sends_announce
      refl (λ e. omega (arith, e))
      (
        λ e. omega (arith, e),
        (λ e. omega (arith, e), (λ e. omega (arith, e), (λ e. omega (arith, e), tt))),
      )
      tt

abbrev knows_1 : CtrlState ℕ ℕ
knows_1 = receive (instance_named 2) 1000 packet_size (packet_named announce) fresh_state

knows_1-Rising : Rising 0 knows_1.remote_infos
unfolding receive is_accepted packet_of store
knows_1-Rising = (omega arith, tt)

knows_1-enabled : knows_1.receive_enabled ≡ true
unfolding receive is_accepted packet_of
knows_1-enabled = refl

abbrev three_datagrams : List (Datagram ℕ ℕ)
three_datagrams =
    record { now = 1000; bytes = packet_size; packet = packet_named announce }
    ∷ record { now = 1100; bytes = 7; packet = packet_named announce }
    ∷ record { now = 1200; bytes = packet_size; packet = packet_named peers_broadcast_only }
    ∷ []

goodbye-accepted : is_accepted (instance_named 2) packet_size (packet_named goodbye) ≡ true
unfolding is_accepted packet_of
goodbye-accepted = refl

goodbye-gone_example :
    find 1
      (get_remote_infos 1500
        (receive (instance_named 2) 1200 packet_size (packet_named goodbye) knows_1)).1.remote_infos
    ≡ none
unfolding packet_of
goodbye-gone_example =
    goodbye-gone (instance_named 2) 1200 packet_size 1500 (packet_named goodbye) knows_1 1
      knows_1-Rising knows_1-enabled goodbye-accepted refl
