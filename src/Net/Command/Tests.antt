-- ===== src/Net/Command/Tests.antt =====
-- Commands between two instances.
use phu_audio_lib.Base.{ℕ, zero, suc, ◌≡◌, ◌+◌, refl, true, some, List, [], ◌∷◌, replicate, arith}
use phu_audio_lib.Net.Lifecycle.{Multicast, has_socket}
use phu_audio_lib.Net.Text.{NoZero}
use phu_audio_lib.Net.Command.{
  CommandPacket, CommandState, Received, solo, cmd_target_all, max_command_payload, min_header_size,
  packet_of, solo_mute_payload, send_command, should_accept_for_group, same_text, receive,
}
use phu_audio_lib.Net.Command.Delivery.{IsSentCall, receive-send_command}

abbrev instance_named : ℕ → Multicast
instance_named id = record {
  send_socket = some 5;
  recv_socket = some 6;
  network_initialized = true;
  instance_id = id;
  instance_index = 2;
  running = true;
  receiver_thread = true;
}

abbrev two_listeners : CommandState
two_listeners = record { own_group = b'x' ∷ []; listeners = 40 ∷ 41 ∷ [] }

abbrev long_name : CommandState
long_name = record { own_group = replicate 40 b'x'; listeners = 40 ∷ [] }

abbrev solo_packet : List ℕ → CommandPacket
solo_packet group = packet_of (instance_named 1) 77 solo (some (solo_mute_payload 3 true)) 2 group

abbrev empty_buffer : CommandPacket
empty_buffer = record {
  magic = 0;
  version = 0;
  instance_id = 0;
  timestamp = 0;
  command_type = 0;
  target_group = replicate 32 0;
  payload_size = 0;
  payload = replicate max_command_payload 0;
}

sends_solo :
    (group : List ℕ)
    → send_command (instance_named 1) 77 solo (some (solo_mute_payload 3 true)) 2 group
      ≡ some (solo_packet group)
unfolding send_command has_socket
sends_solo group = refl

receive-send_command_example :
    (call : Received) × ((receive
        (instance_named 2)
        (min_header_size + max_command_payload)
        (solo_packet cmd_target_all)
        two_listeners
        empty_buffer).0
      ≡ (40, call) ∷ (41, call) ∷ [])
    × IsSentCall (instance_named 1) solo 2 (solo_mute_payload 3 true) call
    × (call.target_group ≡ cmd_target_all)
unfolding should_accept_for_group same_text
receive-send_command_example =
    receive-send_command (instance_named 1) (instance_named 2) 77 solo 2 (solo_mute_payload 3 true)
      cmd_target_all two_listeners (solo_packet cmd_target_all) empty_buffer (λ e. omega (arith, e))
      (sends_solo cmd_target_all) (omega arith)
      (λ e. omega (arith, e), (λ e. omega (arith, e), (λ e. omega (arith, e), tt))) (omega arith)
      refl refl

NoZero-x : (n : ℕ) → NoZero (replicate n b'x')
NoZero-x zero = tt
NoZero-x (suc n) = (λ e. omega (arith, e), NoZero-x n)

abbrev all_packet : CommandPacket
all_packet = record (solo_packet cmd_target_all) {
  target_group = b'a' ∷ b'l' ∷ b'l' ∷ replicate 29 0;
}
