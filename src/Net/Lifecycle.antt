-- ===== src/Net/Lifecycle.antt =====
-- network/MulticastBroadcasterBase.{h,cpp}: the life of a broadcaster, its sockets and its receiver
-- thread. The operating system is outside: `Outcomes` is what its calls return in one `initialize`,
-- and `System` is what it keeps of them, with the counter that all instances of a process share.
pub mod Balance
mod Tests
use phu_audio_lib.Base.{
  ℕ, ◌+◌, ◌-◌, ◌%◌, ◌^◌, ◌==◌, Bool, true, false, Option, none, some, List, [], ◌∷◌, ◌&&◌, not,
  if◌then◌else◌,
}

-- An invalid socket is `none`. The thread is there from its start to its join.
pub record Multicast : Type 0 where
  pub send_socket : Option ℕ
  pub recv_socket : Option ℕ
  pub network_initialized : Bool
  pub instance_id : ℕ
  pub instance_index : ℕ
  pub running : Bool
  pub receiver_thread : Bool

-- The constructor, with the random number that `generateInstanceID` draws.
unfoldable pub new_multicast : ℕ → Multicast
new_multicast id = record {
  send_socket = none;
  recv_socket = none;
  network_initialized = false;
  instance_id = id;
  instance_index = 1;
  running = false;
  receiver_thread = false;
}

pub set_instance_id : ℕ → Multicast → Multicast
set_instance_id id m = record m { instance_id = id }

pub set_instance_index : ℕ → Multicast → Multicast
set_instance_index index m = record m { instance_index = index }

-- `sendSocket != MCAST_INVALID_SOCKET`
unfoldable pub has_socket : Option ℕ → Bool
has_socket none = false
has_socket (some fd) = true

-- The open sockets of the process, and the two static members. The counter is an `int`, kept as its
-- residue modulo `2 ^ 32`.
pub record System : Type 0 where
  pub open_sockets : List ℕ
  pub wsa_initialized : Bool
  pub wsa_ref_count : ℕ

pub record Outcomes : Type 0 where
  pub wsa_started : Bool
  pub send_opened : Option ℕ
  pub recv_opened : Option ℕ
  pub bound : Bool
  pub joined : Bool

remove : ℕ → List ℕ → List ℕ
remove fd [] = []
remove fd (x ∷ xs) = if x == fd then xs else x ∷ remove fd xs

open_socket : ℕ → System → System
open_socket fd s = record s { open_sockets = fd ∷ s.open_sockets }

close_socket : ℕ → System → System
unfolding remove
close_socket fd s = record s { open_sockets = remove fd s.open_sockets }

initialize_wsa : Outcomes → System → System × Bool
initialize_wsa o s =
    let counted = record s {
      wsa_initialized = true;
      wsa_ref_count = (s.wsa_ref_count + 1) % 2 ^ 32;
    } in
    if s.wsa_initialized
    then (counted, true)
    else if o.wsa_started
    then (counted, true)
    else (s, false)

cleanup_wsa : System → System
cleanup_wsa s =
    let left = (s.wsa_ref_count + (2 ^ 32 - 1)) % 2 ^ 32 in
    if s.wsa_initialized
    then (if left == 0
        then record s { wsa_initialized = false; wsa_ref_count = left }
        else record s { wsa_ref_count = left })
    else s

-- `initializeSockets` behind the opening of the send socket `fd`: the receive socket, `bind`, and the
-- joining of the group.
initialize_receiver : Outcomes → ℕ → Option ℕ → Multicast → System → (Multicast × System) × Bool
unfolding open_socket close_socket
initialize_receiver o fd none m s =
    ((record m { send_socket = none; recv_socket = none }, close_socket fd s), false)
initialize_receiver o fd (some gd) m s =
    let opened = open_socket gd s in
    if o.bound && o.joined
    then ((record m { send_socket = some fd; recv_socket = some gd }, opened), true)
    else (
      (
        record m { send_socket = none; recv_socket = none },
        close_socket gd (close_socket fd opened),
      ),
      false,
    )

initialize_sender : Outcomes → Option ℕ → Multicast → System → (Multicast × System) × Bool
unfolding initialize_receiver open_socket
initialize_sender o none m s = ((record m { send_socket = none }, s), false)
initialize_sender o (some fd) m s = initialize_receiver o fd o.recv_opened m (open_socket fd s)

initialize_sockets : Outcomes → Multicast → System → (Multicast × System) × Bool
unfolding initialize_sender
initialize_sockets o m s = initialize_sender o o.send_opened m s

close_held : Option ℕ → System → System
unfolding close_socket
close_held none s = s
close_held (some fd) s = close_socket fd s

cleanup_sockets : Multicast → System → Multicast × System
unfolding close_held
cleanup_sockets m s = (
  record m { send_socket = none; recv_socket = none },
  close_held m.recv_socket (close_held m.send_socket s),
)

-- A broadcaster is the base with the state `S` of the derived class, which overrides `onShutdown`.
module _ (windows : Bool) {S : Type 0} (on_shutdown : S → S) where
  -- The join ends, since the receiver thread reads `running` at least every 100 ms.
  pub shutdown : (Multicast × S) × System → (Multicast × S) × System
  unfolding cleanup_sockets cleanup_wsa
  shutdown ((m, d), s) =
      let stopped = record m { running = false; receiver_thread = false } in
      let (closed, freed) = cleanup_sockets stopped s in
      let left = if windows then cleanup_wsa freed else freed in
      ((record closed { network_initialized = false }, on_shutdown d), left)

  -- `initialize` behind `initializeWSA`.
  initialize_network : Outcomes → (Multicast × S) × System → ((Multicast × S) × System) × Bool
  unfolding initialize_sockets shutdown
  initialize_network o ((m, d), s) =
      let ((n, t), ok) = initialize_sockets o m s in
      if ok
      then (
        ((record n { running = true; receiver_thread = true; network_initialized = true }, d), t),
        true,
      )
      else (shutdown ((n, d), t), false)

  pub initialize : Outcomes → (Multicast × S) × System → ((Multicast × S) × System) × Bool
  unfolding initialize_network initialize_wsa
  initialize o ((m, d), s) =
      let (t, started) = initialize_wsa o s in
      if m.network_initialized
      then (((m, d), s), true)
      else if not windows
      then initialize_network o ((m, d), s)
      else if started
      then initialize_network o ((m, d), t)
      else (((m, d), s), false)
