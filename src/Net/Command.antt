-- ===== src/Net/Command.antt =====
-- network/CommandBroadcasterBase.h and network/CommandBroadcaster.{h,cpp}: commands to the listeners of other
-- instances. A listener is known by its address; what it is called with is a `Received`. The
-- receiver's packet buffer is part of the state, since each datagram overwrites only its first bytes.
pub mod Delivery
pub mod Listeners
mod Tests
use phu_audio_lib.Base.{
  ℕ, ◌+◌, ◌-◌, ◌^◌, ltb, leb, ◌==◌, Bool, true, false, Option, none, some, List, [], ◌∷◌, ◌&&◌,
  ◌||◌, not, map, set, take, blit, replicate, if◌then◌else◌,
}
use phu_audio_lib.Net.Lifecycle.{Multicast, has_socket}
use phu_audio_lib.Net.Text.{string_of, strncpy}

abbrev pub command_magic : ℕ
command_magic = 0x434D4E44

abbrev pub command_version : ℕ
command_version = 1

abbrev pub max_command_payload : ℕ
max_command_payload = 256

-- `CommandType`; other values are the user's.
abbrev pub solo : ℕ
solo = 1

abbrev pub mute : ℕ
mute = 2

-- `"all"`, the value of `CMD_TARGET_ALL`.
abbrev pub cmd_target_all : List ℕ
cmd_target_all = b'a' ∷ b'l' ∷ b'l' ∷ []

pub record CommandPacket : Type 0 where
  pub magic : ℕ
  pub version : ℕ
  pub instance_id : ℕ
  pub timestamp : ℕ
  pub command_type : ℕ
  pub target_group : List ℕ
  pub payload_size : ℕ
  pub payload : List ℕ

-- `minHeaderSize`: the size of the packed `CommandPacket` without its payload.
abbrev pub min_header_size : ℕ
min_header_size = 4 + 2 + 4 + 8 + 2 + 32 + 2

-- The arguments of `onCommandReceived`; `payload` is the array that the pointer points to.
pub record Received : Type 0 where
  pub command_type : ℕ
  pub sender_id : ℕ
  pub target_group : List ℕ
  pub payload : List ℕ
  pub payload_size : ℕ

pub record CommandState : Type 0 where
  pub own_group : List ℕ
  pub listeners : List ℕ

-- `==` of two strings.
pub same_text : List ℕ → List ℕ → Bool
same_text [] [] = true
same_text [] (d ∷ t) = false
same_text (c ∷ s) [] = false
same_text (c ∷ s) (d ∷ t) = let rest = same_text s t in if c == d then rest else false

unfoldable pub should_accept_from_peer : ℕ → ℕ → Bool
should_accept_from_peer sender_id local_id = not (sender_id == local_id)

pub should_accept_for_group : List ℕ → List ℕ → Bool
unfolding same_text
should_accept_for_group target_group own_group =
    same_text target_group cmd_target_all || same_text target_group own_group

pub has_listener : ℕ → List ℕ → Bool
has_listener l [] = false
has_listener l (k ∷ ks) = k == l || has_listener l ks

append_one : ℕ → List ℕ → List ℕ
append_one l [] = l ∷ []
append_one l (k ∷ ks) = k ∷ append_one l ks

-- `std::remove` with `erase`: every element equal to `l` goes.
remove_all : ℕ → List ℕ → List ℕ
remove_all l [] = []
remove_all l (k ∷ ks) = let rest = remove_all l ks in if k == l then rest else k ∷ rest

pub add_listener : ℕ → CommandState → CommandState
unfolding has_listener append_one
add_listener l s =
    if has_listener l s.listeners then s else record s { listeners = append_one l s.listeners }

pub remove_listener : ℕ → CommandState → CommandState
unfolding remove_all
remove_listener l s = record s { listeners = remove_all l s.listeners }

pub set_own_group : List ℕ → CommandState → CommandState
set_own_group group s = record s { own_group = group }

payload_field : Option (List ℕ) → ℕ → List ℕ
payload_field none n = replicate max_command_payload 0
payload_field (some bytes) n =
    if ltb 0 n
    then blit (replicate max_command_payload 0) 0 (take n bytes)
    else replicate max_command_payload 0

-- The packet that `sendCommand` fills.
pub packet_of : Multicast → ℕ → ℕ → Option (List ℕ) → ℕ → List ℕ → CommandPacket
unfolding payload_field
packet_of m now type payload payload_size target_group = record {
  magic = command_magic;
  version = command_version;
  instance_id = m.instance_id;
  timestamp = now;
  command_type = type;
  target_group = set (strncpy (replicate 32 0) target_group 31) 31 0;
  payload_size = payload_size;
  payload = payload_field payload payload_size;
}

-- The packet handed to `sendto`, whole, or `none` where it is not called.
pub send_command : Multicast → ℕ → ℕ → Option (List ℕ) → ℕ → List ℕ → Option CommandPacket
unfolding packet_of
send_command m now type payload payload_size target_group =
    if not m.network_initialized || not (has_socket m.send_socket)
    then none
    else if ltb max_command_payload payload_size
    then none
    else some (packet_of m now type payload payload_size target_group)

-- `SoloMutePayload`
abbrev pub solo_mute_payload : ℕ → Bool → List ℕ
solo_mute_payload band_index state = band_index ∷ (if state then 1 else 0) ∷ []

pub send_solo_command : Multicast → ℕ → ℕ → Bool → List ℕ → Option CommandPacket
unfolding send_command
send_solo_command m now band_index state target_group =
    send_command m now solo (some (solo_mute_payload band_index state)) 2 target_group

pub send_mute_command : Multicast → ℕ → ℕ → Bool → List ℕ → Option CommandPacket
unfolding send_command
send_mute_command m now band_index state target_group =
    send_command m now mute (some (solo_mute_payload band_index state)) 2 target_group

-- `dispatchToListeners`
dispatch_to_listeners : Received → List ℕ → List (ℕ × Received)
dispatch_to_listeners call [] = []
dispatch_to_listeners call (l ∷ ls) = (l, call) ∷ dispatch_to_listeners call ls

-- The packet buffer behind a `recvfrom` of `bytes` bytes, at least a header, of the packet `p`.
pub fill_packet : ℕ → CommandPacket → CommandPacket → CommandPacket
fill_packet bytes p buffer = record p {
  payload = blit buffer.payload 0 (take (bytes - min_header_size) p.payload);
}

pub is_accepted : Multicast → CommandPacket → Bool
unfolding should_accept_from_peer
is_accepted m p =
    p.magic == command_magic
    && should_accept_from_peer p.instance_id m.instance_id
    && p.version == command_version
    && leb p.payload_size max_command_payload

-- The arguments of the calls for an accepted packet, whose group is terminated by a zero first.
pub call_of : CommandPacket → Received
call_of p = record {
  command_type = p.command_type;
  sender_id = p.instance_id;
  target_group = string_of (set p.target_group 31 0);
  payload = p.payload;
  payload_size = p.payload_size;
}

-- One turn of the loop of `receiverThreadRun`, in which `recvfrom` has given `bytes` bytes (0 where it
-- timed out) of the packet `p`: the calls to the listeners, in order, and the packet buffer. Where
-- fewer bytes than a header have come, the buffer is taken to be as before, since every later
-- header overwrites it.
pub receive :
    Multicast
    → ℕ
    → CommandPacket
    → CommandState
    → CommandPacket
    → List (ℕ × Received) × CommandPacket
unfolding fill_packet is_accepted should_accept_for_group call_of dispatch_to_listeners
receive m bytes p s buffer =
    let got = fill_packet bytes p buffer in
    let ended = record got { target_group = set got.target_group 31 0 } in
    if ltb bytes min_header_size
    then ([], buffer)
    else if not (is_accepted m got)
    then ([], got)
    else if not (should_accept_for_group (call_of got).target_group s.own_group)
    then ([], ended)
    else (dispatch_to_listeners (call_of got) s.listeners, ended)
