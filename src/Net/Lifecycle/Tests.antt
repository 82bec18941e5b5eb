-- ===== src/Net/Lifecycle/Tests.antt =====
-- Broadcasters that start and stop.
use phu_audio_lib.Base.{ℕ, refl, true, some, List, [], ◌∷◌, inl, arith}
use phu_audio_lib.Net.Lifecycle.{System, Outcomes, new_multicast, initialize}
use phu_audio_lib.Net.Lifecycle.Balance.{IsDown, IsCounted, Restores, initialize-Restores}

abbrev shared : System
shared = record { open_sockets = 4 ∷ 3 ∷ []; wsa_initialized = true; wsa_ref_count = 1 }

abbrev all_good : Outcomes
all_good = record {
  wsa_started = true;
  send_opened = some 5;
  recv_opened = some 6;
  bound = true;
  joined = true;
}

abbrev forget : List ℕ → List ℕ
forget d = []

new_down : IsDown (new_multicast 7)
unfolding new_multicast
new_down = record {
  no_sender = refl;
  no_receiver = refl;
  no_network = refl;
  stopped = refl;
  no_thread = refl;
}

shared-IsCounted : IsCounted shared
shared-IsCounted = record { in_range = omega arith; started = inl (refl, omega arith) }

initialize-Restores_example :
    Restores true forget
      (initialize true forget all_good ((new_multicast 7, 1 ∷ []), shared))
      shared
initialize-Restores_example =
    initialize-Restores true forget all_good (new_multicast 7) (1 ∷ []) shared new_down
      shared-IsCounted
