-- ===== src/Net/Command/Delivery.antt =====
-- Commands from a sender to the listeners of a receiver.
use phu_audio_lib.Base.{
  ℕ, zero, suc, ◌+◌, ◌≤◌, ◌<◌, ◌≡◌, ◌≢◌, refl, sym, ap, ◌∙◌, ltb, true, false, Option, some, List,
  [], ◌∷◌, map, set, take, blit, replicate, length, length-take, take-length, length-blit,
  take-take, take-blit, blit-all, blit-none, set-set, Bool-cases, inl, inr, arith,
}
use phu_audio_lib.Net.Lifecycle.{Multicast}
use phu_audio_lib.Net.Text.{string_of, strncpy, safe_strncpy, NoZero, string_of-safe_strncpy}
use phu_audio_lib.Net.Command.{
  CommandPacket, CommandState, Received, cmd_target_all, max_command_payload, min_header_size,
  same_text, should_accept_from_peer, should_accept_for_group, payload_field, packet_of,
  send_command, dispatch_to_listeners, fill_packet, is_accepted, call_of, receive,
}

same_text-length : (s t : List ℕ) → same_text s t ≡ true → length s ≡ length t
unfolding same_text
same_text-length [] [] e = refl
same_text-length [] (d ∷ t) e = ground arith
same_text-length (c ∷ s) [] e = ground arith
same_text-length (c ∷ s) (d ∷ t) e = ground (arith, same_text-length s t)

dispatch-all :
    (call : Received) (ls : List ℕ) → dispatch_to_listeners call ls ≡ map (λ l. (l, call)) ls
unfolding dispatch_to_listeners
dispatch-all call [] = refl
dispatch-all call (l ∷ ls) = rw (dispatch-all call ls) refl

target-received :
    (group : List ℕ)
    → NoZero group
    → string_of (set (set (strncpy (replicate 32 0) group 31) 31 0) 31 0) ≡ take 31 group
unfolding safe_strncpy
target-received group z =
    ap string_of (set-set (strncpy (replicate 32 0) group 31) 31 0 0)
    ∙ string_of-safe_strncpy (replicate 32 0) group 32 (omega arith) (omega arith) z

payload-sent :
    (bytes : List ℕ) (n : ℕ)
    → n ≤ length bytes
    → n ≤ max_command_payload
    → (take n (payload_field (some bytes) n) ≡ take n bytes)
      × (length (payload_field (some bytes) n) ≡ max_command_payload)
unfolding payload_field
payload-sent bytes zero h g = (refl, refl)
payload-sent bytes (suc n) h g =
    let some_bytes : ltb 0 (suc n) ≡ true = ground arith in
    rw some_bytes (
      take-blit (suc n) (replicate max_command_payload 0) (take (suc n) bytes)
            (omega (arith, length-take (suc n) bytes)) g
          ∙ take-take (suc n) bytes,
      length-blit (replicate max_command_payload 0) 0 (take (suc n) bytes),
    )

-- What the listeners of a receiver are called with by a command of `m`.
abbrev pub IsSentCall : Multicast → ℕ → ℕ → List ℕ → Received → Type 0
IsSentCall m type n bytes call =
    (call.command_type ≡ type)
    × (call.sender_id ≡ m.instance_id)
    × (call.payload_size ≡ n)
    × (take n call.payload ≡ take n bytes)

receive-filled :
    (m : Multicast) (bytes : ℕ) (p : CommandPacket) (s : CommandState) (buffer : CommandPacket)
    → min_header_size ≤ bytes
    → is_accepted m (fill_packet bytes p buffer) ≡ true
    → should_accept_for_group (call_of (fill_packet bytes p buffer)).target_group s.own_group ≡ true
    → (receive m bytes p s buffer).0
      ≡ map (λ l. (l, call_of (fill_packet bytes p buffer))) s.listeners
unfolding receive
receive-filled m bytes p s buffer h ok group =
    let whole : ltb bytes min_header_size ≡ false = ground arith in
    rw (whole, ok, group) (dispatch-all (call_of (fill_packet bytes p buffer)) s.listeners)

receive-accepted :
    (m : Multicast) (bytes : ℕ) (p got : CommandPacket) (s : CommandState) (buffer : CommandPacket)
    → min_header_size ≤ bytes
    → fill_packet bytes p buffer ≡ got
    → is_accepted m got ≡ true
    → should_accept_for_group (call_of got).target_group s.own_group ≡ true
    → (receive m bytes p s buffer).0 ≡ map (λ l. (l, call_of got)) s.listeners
receive-accepted m bytes p got s buffer h e ok group =
    receive-filled m bytes p s buffer h (ap (λ g. is_accepted m g) e ∙ ok)
      (ap (λ g. should_accept_for_group (call_of g).target_group s.own_group) e ∙ group)
    ∙ ap (λ g. map (λ l. (l, call_of g)) s.listeners) e

fill_packet-whole :
    (p buffer : CommandPacket)
    → length p.payload ≡ max_command_payload
    → length buffer.payload ≡ max_command_payload
    → fill_packet (min_header_size + max_command_payload) p buffer ≡ p
unfolding fill_packet
fill_packet-whole p buffer h g =
    let all : take 256 p.payload ≡ p.payload =
      ap (λ n. take n p.payload) (sym h) ∙ take-length p.payload in
    ap (λ x. record p { payload = x })
      (ap (λ x. blit buffer.payload 0 x) all ∙ blit-all buffer.payload p.payload (h ∙ sym g))

accepted-sent :
    (a b : Multicast) (now type n : ℕ) (bytes group : List ℕ)
    → a.instance_id ≢ b.instance_id
    → n ≤ max_command_payload
    → is_accepted b (packet_of a now type (some bytes) n group) ≡ true
unfolding is_accepted should_accept_from_peer packet_of
accepted-sent a b now type n bytes group ne h = ground arith

take-short : (n : ℕ) (xs : List ℕ) → length xs ≤ n → take n xs ≡ xs
take-short zero [] h = refl
take-short zero (x ∷ xs) h = absurd (omega (arith, h))
take-short (suc n) [] h = refl
take-short (suc n) (x ∷ xs) h = rw (take-short n xs (omega arith))

-- A command with a payload that one instance sends to a group arrives at the other instances of which that is the
-- group, or at all where the group is `all`: each listener is called once, in the order of the listeners, with the
-- sender's command, its payload, and the group, where that is no longer than 31 bytes.
pub receive-send_command :
    (a b : Multicast) (now type n : ℕ) (bytes group : List ℕ) (s : CommandState)
    (p buffer : CommandPacket)
    → a.instance_id ≢ b.instance_id
    → send_command a now type (some bytes) n group ≡ some p
    → n ≤ length bytes
    → NoZero group
    → length group ≤ 31
    → should_accept_for_group group s.own_group ≡ true
    → length buffer.payload ≡ max_command_payload
    → (call : Received) × ((receive b (min_header_size + max_command_payload) p s buffer).0
        ≡ map (λ l. (l, call)) s.listeners)
      × IsSentCall a type n bytes call
      × (call.target_group ≡ group)
unfolding send_command packet_of call_of
receive-send_command a b now type n bytes group s p buffer ne e h z short accepts full =
    let same : p ≡ packet_of a now type (some bytes) n group = ground arith in
    let fits : n ≤ max_command_payload = ground arith in
    let (payload, size) = payload-sent bytes n h fits in
    let sent = packet_of a now type (some bytes) n group in
    let target : (call_of sent).target_group ≡ group =
      target-received group z ∙ take-short 31 group short in
    (
      call_of sent,
      rw same (
          receive-accepted b (min_header_size + max_command_payload) sent sent s buffer
            (omega arith) (fill_packet-whole sent buffer size full)
            (accepted-sent a b now type n bytes group ne fits)
            (ap (λ t. should_accept_for_group t s.own_group) target ∙ accepts)),
      (refl, refl, refl, payload),
      target,
    )

group-refused :
    (group : List ℕ) → 31 < length group → should_accept_for_group (take 31 group) group ≡ false
unfolding should_accept_for_group
group-refused group long =
    let cut : length (take 31 group) ≡ 31 = omega (arith, length-take 31 group) in
    ground (
      arith,
      same_text-length (take 31 group) cmd_target_all,
      same_text-length (take 31 group) group,
    )

receive-refused :
    (m : Multicast) (bytes : ℕ) (p : CommandPacket) (s : CommandState) (buffer : CommandPacket)
    → should_accept_for_group (string_of (set p.target_group 31 0)) s.own_group ≡ false
    → (receive m bytes p s buffer).0 ≡ []
unfolding receive call_of fill_packet
receive-refused m bytes p s buffer e = elim (Bool-cases (ltb bytes min_header_size)) [
  | inl cut ↦ rw cut refl
  | inr whole ↦ elim (Bool-cases (is_accepted m (fill_packet bytes p buffer))) [
    | inl ok ↦ rw (whole, ok, e) refl
    | inr bad ↦ rw (whole, bad) refl
  ]
]

-- An instance whose group has a name of more than 31 bytes gets no command that is sent to that group.
pub receive-long_group :
    (a b : Multicast) (now type n received_bytes : ℕ) (payload : Option (List ℕ)) (s : CommandState)
    (p buffer : CommandPacket)
    → send_command a now type payload n s.own_group ≡ some p
    → NoZero s.own_group
    → 31 < length s.own_group
    → (receive b received_bytes p s buffer).0 ≡ []
unfolding send_command receive packet_of
receive-long_group a b now type n received_bytes payload s p buffer e z long =
    let field : p.target_group ≡ set (strncpy (replicate 32 0) s.own_group 31) 31 0 =
      ground arith in
    let target : string_of (set p.target_group 31 0) ≡ take 31 s.own_group =
      ap (λ f. string_of (set f 31 0)) field ∙ target-received s.own_group z in
    receive-refused b received_bytes p s buffer
      (ap (λ t. should_accept_for_group t s.own_group) target ∙ group-refused s.own_group long)

-- A datagram that is only an accepted header makes the listeners read the payload of an earlier datagram: whatever
-- size the header states, up to 256, what is handed over is what stood in the packet buffer.
pub receive-header_only :
    (m : Multicast) (p : CommandPacket) (s : CommandState) (buffer : CommandPacket)
    → is_accepted m p ≡ true
    → should_accept_for_group (call_of p).target_group s.own_group ≡ true
    → (receive m min_header_size p s buffer).0
      ≡ map (λ l. (l, record (call_of p) { payload = buffer.payload })) s.listeners
unfolding is_accepted call_of fill_packet
receive-header_only m p s buffer ok group =
    receive-accepted m min_header_size p (record p { payload = buffer.payload }) s buffer
      (omega arith) (ap (λ x. record p { payload = x }) (blit-none buffer.payload)) ok group
