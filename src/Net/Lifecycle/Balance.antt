-- ===== src/Net/Lifecycle/Balance.antt =====
-- The sockets and the Winsock counter over the life of broadcasters.
use phu_audio_lib.Base.{
  ℕ, ◌+◌, ◌-◌, ◌%◌, ◌^◌, ◌<◌, ◌≡◌, ◌⊎◌, inl, inr, refl, sym, ap, Bool, true, false, Option, none,
  some, List, ◌∷◌, ◌&&◌, not, arith, Bool-cases, if◌then◌else◌,
}
use mathlib.Core.Path.{subst, subst₂}
use phu_audio_lib.Net.Lifecycle.{
  Multicast, System, Outcomes, new_multicast, remove, open_socket, close_socket, initialize_wsa,
  cleanup_wsa, initialize_receiver, initialize_sender, initialize_sockets, close_held,
  cleanup_sockets, shutdown, initialize_network, initialize,
}

remove-head : (fd : ℕ) (xs : List ℕ) → remove fd (fd ∷ xs) ≡ xs
unfolding remove
remove-head fd xs = ground arith

remove-both : (fd gd : ℕ) (xs : List ℕ) → remove gd (remove fd (gd ∷ fd ∷ xs)) ≡ xs
unfolding remove
remove-both fd gd xs = ground arith

-- An instance that is not initialized: no socket, no thread.
pub record IsDown (m : Multicast) : Type 0 where
  pub no_sender : m.send_socket ≡ none
  pub no_receiver : m.recv_socket ≡ none
  pub no_network : m.network_initialized ≡ false
  pub stopped : m.running ≡ false
  pub no_thread : m.receiver_thread ≡ false

-- Winsock is started exactly while instances count it.
pub record IsCounted (s : System) : Type 0 where
  pub in_range : s.wsa_ref_count < 2 ^ 31 - 1
  pub started :
      (s.wsa_initialized ≡ true) × (0 < s.wsa_ref_count)
      ⊎ (s.wsa_initialized ≡ false) × (s.wsa_ref_count ≡ 0)

wsa-balance : (o : Outcomes) (s : System) → IsCounted s → cleanup_wsa (initialize_wsa o s).0 ≡ s
unfolding cleanup_wsa initialize_wsa
wsa-balance o s c = elim c.started [
  | inl up ↦
      let there : ((s.wsa_ref_count + 1) % 2 ^ 32 + (2 ^ 32 - 1)) % 2 ^ 32 ≡ s.wsa_ref_count =
        omega (arith, c.in_range) in
      ground (arith, there)
  | inr down ↦
      let there : ((s.wsa_ref_count + 1) % 2 ^ 32 + (2 ^ 32 - 1)) % 2 ^ 32 ≡ s.wsa_ref_count =
        omega (arith, c.in_range) in
      ground (arith, there)
]

-- An instance that runs, with its sockets among the open ones.
pub record IsUp (fd gd : ℕ) (m : Multicast) : Type 0 where
  pub sender : m.send_socket ≡ some fd
  pub receiver : m.recv_socket ≡ some gd
  pub network : m.network_initialized ≡ true
  pub runs : m.running ≡ true
  pub thread : m.receiver_thread ≡ true

pub with_sockets : ℕ → ℕ → System → System
unfolding open_socket
with_sockets fd gd s = open_socket gd (open_socket fd s)

close-with : (fd gd : ℕ) (s : System) → close_socket gd (close_socket fd (with_sockets fd gd s)) ≡ s
unfolding with_sockets open_socket close_socket
close-with fd gd s = rw (remove-both fd gd s.open_sockets) refl

-- What `initializeSockets` leaves, in the two cases.
abbrev SocketsFailed : (Multicast × System) × Bool → Multicast → System → Type 0
SocketsFailed r m s =
    (r.1 ≡ false) × (r.0.0 ≡ record m { send_socket = none; recv_socket = none }) × (r.0.1 ≡ s)

abbrev SocketsOpened : (Multicast × System) × Bool → Multicast → System → Type 0
SocketsOpened r m s =
    (fd : ℕ) × (gd : ℕ) × (r.1 ≡ true)
    × (r.0.0 ≡ record m { send_socket = some fd; recv_socket = some gd })
    × (r.0.1 ≡ with_sockets fd gd s)

receiver-cases :
    (o : Outcomes) (fd : ℕ) (opened : Option ℕ) (m : Multicast) (s : System)
    → let r = initialize_receiver o fd opened m (open_socket fd s) in
      SocketsFailed r m s ⊎ SocketsOpened r m s
unfolding initialize_receiver with_sockets open_socket close_socket
receiver-cases o fd none m s = inl (refl, refl, rw (remove-head fd s.open_sockets) refl)
receiver-cases o fd (some gd) m s = elim (Bool-cases (o.bound && o.joined)) [
  | inl good ↦ rw good (inr (fd, gd, refl, refl, refl))
  | inr bad ↦ rw bad (inl (refl, refl, close-with fd gd s))
]

sender-cases :
    (o : Outcomes) (opened : Option ℕ) (m : Multicast) (s : System)
    → m.recv_socket ≡ none
    → let r = initialize_sender o opened m s in SocketsFailed r m s ⊎ SocketsOpened r m s
unfolding initialize_sender
sender-cases o none m s e = inl (refl, rw e refl, refl)
sender-cases o (some fd) m s e = receiver-cases o fd o.recv_opened m s

cleanup-with :
    (fd gd : ℕ) (m : Multicast) (s : System)
    → m.send_socket ≡ some fd
    → m.recv_socket ≡ some gd
    → (cleanup_sockets m (with_sockets fd gd s)).1 ≡ s
unfolding cleanup_sockets close_held
cleanup-with fd gd m s e f = rw (e, f) (close-with fd gd s)

cleanup-without :
    (m : Multicast) (s : System)
    → m.send_socket ≡ none
    → m.recv_socket ≡ none
    → (cleanup_sockets m s).1 ≡ s
unfolding cleanup_sockets close_held
cleanup-without m s e f = rw (e, f) refl

abbrev down_now :
    (m : Multicast)
    → IsDown (record m {
      send_socket = none;
      recv_socket = none;
      network_initialized = false;
      running = false;
      receiver_thread = false;
    })
down_now m = record {
  no_sender = refl;
  no_receiver = refl;
  no_network = refl;
  stopped = refl;
  no_thread = refl;
}

module _ (windows : Bool) {S : Type 0} (on_shutdown : S → S) where
  -- A `shutdown` where `initialize` has succeeded.
  unfoldable pub stop_if : ((Multicast × S) × System) × Bool → (Multicast × S) × System
  stop_if r = if r.1 then shutdown windows on_shutdown r.0 else r.0

  -- What an `initialize` returns and a stop then leaves, where the process was in the state `s`.
  pub record Restores (r : ((Multicast × S) × System) × Bool) (s : System) : Type 0 where
    pub process : (stop_if r).1 ≡ s
    pub down_again : IsDown (stop_if r).0.0
    pub runs_if : r.0.0.0.running ≡ r.1
    pub network_if : r.0.0.0.network_initialized ≡ r.1

  network-balance :
      (o : Outcomes) (m : Multicast) (d : S) (s : System)
      → IsDown m
      → Restores
          (initialize_network windows on_shutdown o ((m, d), s))
          (if windows then cleanup_wsa s else s)
  unfolding initialize_network initialize_sockets shutdown stop_if
  network-balance o m d s down = elim (sender-cases o o.send_opened m s down.no_receiver) [
    | inl failed ↦
        rw (failed.0, failed.1, failed.2)
          (record { process = refl; down_again = down_now m; runs_if = refl; network_if = refl })
    | inr opened ↦
        rw (opened.2, opened.3, opened.4)
          (record {
            process =
                ap (λ x. if windows then cleanup_wsa x else x) (close-with opened.0 opened.1 s);
            down_again = down_now m;
            runs_if = refl;
            network_if = refl;
          })
  ]

  initialize-run :
      (o : Outcomes) (m : Multicast) (d : S) (s : System)
      → m.network_initialized ≡ false
      → initialize windows on_shutdown o ((m, d), s) ≡ (
          if not windows
          then initialize_network windows on_shutdown o ((m, d), s)
          else if (initialize_wsa o s).1
          then initialize_network windows on_shutdown o ((m, d), (initialize_wsa o s).0)
          else (((m, d), s), false))
  unfolding initialize
  initialize-run o m d s e = ground arith

  -- A start of a broadcaster that is down either succeeds, so that it is initialized and running, or
  -- leaves it down; and a stop, in the first case, brings back what the process had before: the
  -- same sockets are open, and Winsock is started and counted as before.
  pub initialize-Restores :
      (o : Outcomes) (m : Multicast) (d : S) (s : System)
      → IsDown m
      → IsCounted s
      → Restores (initialize windows on_shutdown o ((m, d), s)) s
  unfolding stop_if
  initialize-Restores o m d s down counted = elim (Bool-cases windows) [
    | inl on ↦ elim (Bool-cases (initialize_wsa o s).1) [
      | inl done ↦
          let ran : initialize windows on_shutdown o ((m, d), s)
              ≡ initialize_network windows on_shutdown o ((m, d), (initialize_wsa o s).0) =
            ground (arith, initialize-run o m d s down.no_network) in
          let left : (if windows
                then cleanup_wsa (initialize_wsa o s).0
                else (initialize_wsa o s).0)
              ≡ s =
            ground (arith, wsa-balance o s counted) in
          subst₂ Restores (sym ran) left (network-balance o m d (initialize_wsa o s).0 down)
      | inr failed ↦
          let ran : initialize windows on_shutdown o ((m, d), s) ≡ (((m, d), s), false) =
            ground (arith, initialize-run o m d s down.no_network) in
          subst (λ r. Restores r s) (sym ran)
            (record {
              process = refl;
              down_again = down;
              runs_if = down.stopped;
              network_if = down.no_network;
            })
    ]
    | inr off ↦
        let ran : initialize windows on_shutdown o ((m, d), s)
            ≡ initialize_network windows on_shutdown o ((m, d), s) =
          ground (arith, initialize-run o m d s down.no_network) in
        let left : (if windows then cleanup_wsa s else s) ≡ s = rw off refl in
        subst₂ Restores (sym ran) left (network-balance o m d s down)
  ]

-- Where an instance that was never initialized is shut down on Windows while one other instance runs,
-- Winsock is shut down under that other instance.
pub shutdown-foreign :
    {S : Type 0} (on_shutdown : S → S) (id : ℕ) (d : S) (s : System)
    → s.wsa_initialized ≡ true
    → s.wsa_ref_count ≡ 1
    → (shutdown true on_shutdown ((new_multicast id, d), s)).1
      ≡ record s { wsa_initialized = false; wsa_ref_count = 0 }
unfolding shutdown new_multicast cleanup_wsa cleanup_sockets close_held
shutdown-foreign on_shutdown id d s e f = rw (e, f) refl
