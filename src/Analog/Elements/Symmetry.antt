-- ===== src/Analog/Elements/Symmetry.antt =====
-- analog/circuit/elements/: what the stamps write at a row and a column of the matrix, and at the
-- mirror image of that entry.
use phu_audio_lib.Base.{
  ℕ, ◌+◌, ◌*◌, ◌<◌, ℤ, ◌≡◌, ◌≢◌, refl, sym, ap, ◌∙◌, arith, Bool, false, ◌&&◌, ◌==◌, Option, none,
  some, List, length, get_or, set, length-set, get_or-set,
}
use native.Mathlib.Decide.{ℕ_discrete}
use phu_audio_lib.Double.{Double}
use phu_audio_lib.Analog.Elements.{
  row_of, nought, one, add_at, sub_at, add_entry, sub_entry, stamp_conductance,
  stamp_mutual_conductance, stamp_voltage_source_kcl,
}
use phu_audio_lib.Analog.Elements.Swaps.{when, conductance-swap, source-swap, mutual-swap}

-- A row, where there is one, lies in the matrix.
abbrev pub IsInside : ℕ → Option ℕ → Type 0
IsInside size none = Unit
IsInside size (some p) = p < size

abbrev hits : Option ℕ → ℕ → Bool
hits none r = false
hits (some p) r = r == p

flat-lt : (size r c : ℕ) → r < size → c < size → r * size + c < size * size
flat-lt size r c h g = grind arith

flat-ne : (size r c p q : ℕ) → c < size → q < size → r < p → r * size + c ≢ p * size + q
flat-ne size r c p q h g lt = grind arith

flat-eq :
    (size r c p q : ℕ) → c < size → q < size → (r * size + c == p * size + q) ≡ (r == p && c == q)
flat-eq size r c p q h g = ground (
  arith,
  flat-ne size r c p q h g,
  λ (lt : p < r) (e : r * size + c ≡ p * size + q). flat-ne size p q r c g h lt (sym e),
)

hits-both : (p : Option ℕ) (r c : ℕ) → r ≢ c → (hits p r && hits p c) ≡ false
hits-both none r c h = refl
hits-both (some p) r c h = ground arith

module _ (d : Double) (size : ℕ) where
  abbrev pub entry : List d.Carrier → ℕ → ℕ → d.Carrier
  entry m r c = get_or m (r * size + c) (nought d)

  -- The matrix has its size and equals its transpose, bit for bit.
  pub record IsSymmetric (m : List d.Carrier) : Type 0 where
    pub sized : length m ≡ size * size
    pub mirrored : (r c : ℕ) → r < size → c < size → entry m r c ≡ entry m c r

  -- The matrix has its size, and `h` says what it holds.
  record Holds (m : List d.Carrier) (h : ℕ → ℕ → d.Carrier) : Type 0 where
    sized : length m ≡ size * size
    at : (r c : ℕ) → r < size → c < size → entry m r c ≡ h r c

  -- An entry is rewritten by `f`, where its row and its column are there.
  update : (d.Carrier → d.Carrier) → Option ℕ → Option ℕ → List d.Carrier → List d.Carrier
  update f (some p) (some q) m = set m (p * size + q) (f (entry m p q))
  update f (some p) none m = m
  update f none q m = m

  entry-update :
      (f : d.Carrier → d.Carrier) (p q : Option ℕ) (m : List d.Carrier) (r c : ℕ)
      → length m ≡ size * size
      → IsInside size p
      → IsInside size q
      → c < size
      → entry (update f p q m) r c ≡ when (hits p r && hits q c) f (entry m r c)
  unfolding update
  entry-update f none q m r c e hp hq hc = refl
  entry-update f (some p) none m r c e hp hq hc = ground arith
  entry-update f (some p) (some q) m r c e hp hq hc =
      let inside : p * size + q < length m = rw e (flat-lt size p q hp hq) in
      rw
        (
          get_or-set m (p * size + q) (r * size + c) (f (entry m p q)) (nought d) inside,
          flat-eq size r c p q hc hq,
        )
        (ground arith)

  length-update :
      (f : d.Carrier → d.Carrier) (p q : Option ℕ) (m : List d.Carrier)
      → length (update f p q m) ≡ length m
  unfolding update
  length-update f none q m = refl
  length-update f (some p) none m = refl
  length-update f (some p) (some q) m = length-set m (p * size + q) (f (entry m p q))

  update-Holds :
      (f : d.Carrier → d.Carrier) (p q : Option ℕ)
      → IsInside size p
      → IsInside size q
      → {m : List d.Carrier} {h : ℕ → ℕ → d.Carrier} → Holds m h
      → Holds (update f p q m) (λ r c. when (hits p r && hits q c) f (h r c))
  update-Holds f p q hp hq {m} holds = record {
    sized = length-update f p q m ∙ holds.sized;
    at = λ r c hr hc.
        entry-update f p q m r c holds.sized hp hq hc
        ∙ ap (when (hits p r && hits q c) f) (holds.at r c hr hc);
  }

  add_entry-eq-update :
      (g : d.Carrier) (p q : Option ℕ) (m : List d.Carrier)
      → add_entry d size g p q m ≡ update (λ x. d.add x g) p q m
  unfolding add_entry add_at update
  add_entry-eq-update g none q m = refl
  add_entry-eq-update g (some p) none m = refl
  add_entry-eq-update g (some p) (some q) m = refl

  sub_entry-eq-update :
      (g : d.Carrier) (p q : Option ℕ) (m : List d.Carrier)
      → sub_entry d size g p q m ≡ update (λ x. d.sub x g) p q m
  unfolding sub_entry sub_at update
  sub_entry-eq-update g none q m = refl
  sub_entry-eq-update g (some p) none m = refl
  sub_entry-eq-update g (some p) (some q) m = refl

  add_entry-Holds :
      (g : d.Carrier) (p q : Option ℕ)
      → IsInside size p
      → IsInside size q
      → {m : List d.Carrier} {h : ℕ → ℕ → d.Carrier} → Holds m h
      → Holds
          (add_entry d size g p q m)
          (λ r c. when (hits p r && hits q c) (λ x. d.add x g) (h r c))
  add_entry-Holds g p q hp hq {m} holds =
      rw (add_entry-eq-update g p q m) (update-Holds (λ x. d.add x g) p q hp hq holds)

  sub_entry-Holds :
      (g : d.Carrier) (p q : Option ℕ)
      → IsInside size p
      → IsInside size q
      → {m : List d.Carrier} {h : ℕ → ℕ → d.Carrier} → Holds m h
      → Holds
          (sub_entry d size g p q m)
          (λ r c. when (hits p r && hits q c) (λ x. d.sub x g) (h r c))
  sub_entry-Holds g p q hp hq {m} holds =
      rw (sub_entry-eq-update g p q m) (update-Holds (λ x. d.sub x g) p q hp hq holds)

  -- It is enough to compare two different places.
  Holds-IsSymmetric :
      {m : List d.Carrier} {h : ℕ → ℕ → d.Carrier}
      → Holds m h
      → ((r c : ℕ) → r < size → c < size → r ≢ c → h r c ≡ h c r)
      → IsSymmetric m
  Holds-IsSymmetric holds swap = record {
    sized = holds.sized;
    mirrored = λ r c hr hc. elim (ℕ_discrete r c) [
      | yes same ↦ rw same
      | no other ↦ holds.at r c hr hc ∙ swap r c hr hc other ∙ sym (holds.at c r hc hr)
    ];
  }

  pub stamp_conductance-IsSymmetric :
      (g : d.Carrier) (node_p node_n : ℤ) {m : List d.Carrier}
      → IsInside size (row_of node_p)
      → IsInside size (row_of node_n)
      → IsSymmetric m
      → IsSymmetric (stamp_conductance d size g node_p node_n m)
  unfolding stamp_conductance
  stamp_conductance-IsSymmetric g node_p node_n {m} hp hn sm =
      let p = row_of node_p in
      let n = row_of node_n in
      let start : Holds m (entry m) = record { sized = sm.sized; at = λ r c hr hc. refl } in
      Holds-IsSymmetric
        (sub_entry-Holds g n p hn hp (
          sub_entry-Holds g p n hp hn
            (add_entry-Holds g n n hn hn (add_entry-Holds g p p hp hp start))))
        (λ r c hr hc other. rw (sm.mirrored r c hr hc) (
          conductance-swap (λ x. d.add x g) (λ x. d.sub x g) (hits p r) (hits n r) (hits p c)
            (hits n c) (entry m c r)))

  pub stamp_voltage_source_kcl-IsSymmetric :
      (row : ℕ) (node_p node_n : ℤ) {m : List d.Carrier}
      → row < size
      → IsInside size (row_of node_p)
      → IsInside size (row_of node_n)
      → IsSymmetric m
      → IsSymmetric (stamp_voltage_source_kcl d size row node_p node_n m)
  unfolding stamp_voltage_source_kcl
  stamp_voltage_source_kcl-IsSymmetric row node_p node_n {m} hv hp hn sm =
      let p = row_of node_p in
      let n = row_of node_n in
      let v = some row in
      let g = one d in
      let start : Holds m (entry m) = record { sized = sm.sized; at = λ r c hr hc. refl } in
      Holds-IsSymmetric
        (sub_entry-Holds g n v hn hv (
          sub_entry-Holds g v n hv hn
            (add_entry-Holds g p v hp hv (add_entry-Holds g v p hv hp start))))
        (λ r c hr hc other. rw (sm.mirrored r c hr hc) (
          source-swap (λ x. d.add x g) (λ x. d.sub x g) (hits p r) (hits n r) (hits v r) (hits p c)
            (hits n c) (hits v c) (entry m c r) (hits-both p r c other) (hits-both n r c other)
            (hits-both v r c other)))

  pub stamp_mutual_conductance-IsSymmetric :
      (g : d.Carrier) (node_p1 node_n1 node_p2 node_n2 : ℤ) {m : List d.Carrier}
      → IsInside size (row_of node_p1)
      → IsInside size (row_of node_n1)
      → IsInside size (row_of node_p2)
      → IsInside size (row_of node_n2)
      → IsSymmetric m
      → IsSymmetric (stamp_mutual_conductance d size g node_p1 node_n1 node_p2 node_n2 m)
  unfolding stamp_mutual_conductance
  stamp_mutual_conductance-IsSymmetric g node_p1 node_n1 node_p2 node_n2 {m} hp1 hn1 hp2 hn2 sm =
      let p1 = row_of node_p1 in
      let n1 = row_of node_n1 in
      let p2 = row_of node_p2 in
      let n2 = row_of node_n2 in
      let start : Holds m (entry m) = record { sized = sm.sized; at = λ r c hr hc. refl } in
      let s1 = add_entry-Holds g p1 p2 hp1 hp2 start in
      let s3 = sub_entry-Holds g n1 p2 hn1 hp2 (sub_entry-Holds g p1 n2 hp1 hn2 s1) in
      let s5 = add_entry-Holds g p2 p1 hp2 hp1 (add_entry-Holds g n1 n2 hn1 hn2 s3) in
      let s7 = sub_entry-Holds g n2 p1 hn2 hp1 (sub_entry-Holds g p2 n1 hp2 hn1 s5) in
      Holds-IsSymmetric (add_entry-Holds g n2 n1 hn2 hn1 s7) (λ r c hr hc other.
        rw (sm.mirrored r c hr hc) (
          mutual-swap (λ x. d.add x g) (λ x. d.sub x g) (hits p1 r) (hits n1 r) (hits p2 r)
            (hits n2 r) (hits p1 c) (hits n1 c) (hits p2 c) (hits n2 c) (entry m c r)
            (hits-both p1 r c other) (hits-both n1 r c other) (hits-both p2 r c other)
            (hits-both n2 r c other)))
