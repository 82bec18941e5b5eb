-- ===== src/Analog/Circuit/Wiring.antt =====
-- analog/circuit/Circuit.cpp: the invariant of the matrix and the records, and the loops of `prepare`.
use phu_audio_lib.Base.{
  ℕ, zero, suc, ◌+◌, ◌*◌, ◌≤◌, ℤ, pos, ◌≡◌, refl, arith, List, [], ◌∷◌, get_or, replicate, All,
  length-replicate,
}
use phu_audio_lib.Double.{Double}
use phu_audio_lib.Analog.Elements.{row_of, nought, one}
use phu_audio_lib.Analog.Elements.Symmetry.{
  IsInside, IsSymmetric, stamp_conductance-IsSymmetric, stamp_mutual_conductance-IsSymmetric,
}
use phu_audio_lib.Analog.Circuit.{
  Circuit, CapRecord, IndRecord, CoupledRecord, size_of, new_circuit, restamp_cap, restamp_inductor,
  stamp_coupled, restamp_coupled, restamp_all, restamp,
}
use phu_audio_lib.Analog.Circuit.Calls.{IsNode}

get_or-replicate {ℓ} : {A : Type ℓ} (n : ℕ) (a : A) (i : ℕ) → get_or (replicate n a) i a ≡ a
get_or-replicate zero a i = refl
get_or-replicate (suc n) a zero = refl
get_or-replicate (suc n) a (suc i) = get_or-replicate n a i

IsNode-IsInside : (n v : ℕ) (node : ℤ) → IsNode n node → IsInside (n + v) (row_of node)
IsNode-IsInside n v node h = rw h.is_index (inside h.index (h.inside))
  where
    inside : (k : ℕ) → k ≤ n → IsInside (n + v) (row_of (pos k))
    inside zero g = tt
    inside (suc k) g = omega arith

module _ (d : Double) where
  abbrev pub CapIsInside : ℕ → CapRecord d → Type 0
  CapIsInside size r = IsInside size (row_of r.node_p) × IsInside size (row_of r.node_n)

  abbrev pub IndIsInside : ℕ → IndRecord d → Type 0
  IndIsInside size r = IsInside size (row_of r.node_p) × IsInside size (row_of r.node_n)

  abbrev pub CoupledIsInside : ℕ → CoupledRecord d → Type 0
  CoupledIsInside size r =
      IsInside size (row_of r.node_p1)
      × IsInside size (row_of r.node_n1)
      × IsInside size (row_of r.node_p2)
      × IsInside size (row_of r.node_n2)

  pub record Wiring (size : ℕ) (a : List d.Carrier) (caps : List (CapRecord d))
      (inductors : List (IndRecord d)) (coupled : List (CoupledRecord d)) : Type 0 where
    pub symmetric : IsSymmetric d size a
    pub caps_inside : All (CapIsInside size) caps
    pub inductors_inside : All (IndIsInside size) inductors
    pub coupled_inside : All (CoupledIsInside size) coupled

  -- The matrix is symmetric, and the records name its rows.
  abbrev pub IsWired : Circuit d → Type 0
  IsWired c = Wiring (size_of d c) c.a_base c.caps c.inductors c.coupled

  pub inside :
      (c : Circuit d) {node : ℤ} → IsNode c.nodes node → IsInside (size_of d c) (row_of node)
  inside c {node} h = IsNode-IsInside c.nodes c.sources node h

  pub new_circuit-IsWired : (n v : ℕ) → IsWired (new_circuit d n v)
  unfolding new_circuit
  new_circuit-IsWired n v = record {
    symmetric = record {
      sized = length-replicate ((n + v) * (n + v)) (nought d);
      mirrored = λ r k hr hk. rw (
        get_or-replicate ((n + v) * (n + v)) (nought d) (r * (n + v) + k),
        get_or-replicate ((n + v) * (n + v)) (nought d) (k * (n + v) + r),
      );
    };
    caps_inside = tt;
    inductors_inside = tt;
    coupled_inside = tt;
  }

  module _ (size : ℕ) (t : d.Carrier) where
    restamp_cap-IsSymmetric :
        (r : CapRecord d) (a : List d.Carrier)
        → CapIsInside size r
        → IsSymmetric d size a
        → IsSymmetric d size (restamp_cap d size t r a).0
          × CapIsInside size (restamp_cap d size t r a).1
    unfolding restamp_cap
    restamp_cap-IsSymmetric r a h sm = (
      stamp_conductance-IsSymmetric d size _ r.node_p r.node_n h.0 h.1
          (stamp_conductance-IsSymmetric d size _ r.node_p r.node_n h.0 h.1 sm),
      h,
    )

    restamp_inductor-IsSymmetric :
        (r : IndRecord d) (a : List d.Carrier)
        → IndIsInside size r
        → IsSymmetric d size a
        → IsSymmetric d size (restamp_inductor d size t r a).0
          × IndIsInside size (restamp_inductor d size t r a).1
    unfolding restamp_inductor
    restamp_inductor-IsSymmetric r a h sm = (
      stamp_conductance-IsSymmetric d size _ r.node_p r.node_n h.0 h.1
          (stamp_conductance-IsSymmetric d size _ r.node_p r.node_n h.0 h.1 sm),
      h,
    )

    stamp_coupled-IsSymmetric :
        (g11 g22 g12 : d.Carrier) (r : CoupledRecord d) {a : List d.Carrier}
        → CoupledIsInside size r
        → IsSymmetric d size a
        → IsSymmetric d size (stamp_coupled d size g11 g22 g12 r a)
    unfolding stamp_coupled
    stamp_coupled-IsSymmetric g11 g22 g12 r (p1, n1, p2, n2) sm =
        stamp_mutual_conductance-IsSymmetric d size g12 r.node_p1 r.node_n1 r.node_p2 r.node_n2 p1
          n1 p2 n2
          (stamp_conductance-IsSymmetric d size g22 r.node_p2 r.node_n2 p2 n2
            (stamp_conductance-IsSymmetric d size g11 r.node_p1 r.node_n1 p1 n1 sm))

    restamp_coupled-IsSymmetric :
        (r : CoupledRecord d) (a : List d.Carrier)
        → CoupledIsInside size r
        → IsSymmetric d size a
        → IsSymmetric d size (restamp_coupled d size t r a).0
          × CoupledIsInside size (restamp_coupled d size t r a).1
    unfolding restamp_coupled
    restamp_coupled-IsSymmetric r a h sm =
        (stamp_coupled-IsSymmetric _ _ _ r h (stamp_coupled-IsSymmetric _ _ _ r h sm), h)

    -- A loop of `prepare`, from what its body keeps.
    restamp_all-IsSymmetric :
        {R : Type 0} (f : R → List d.Carrier → List d.Carrier × R) (P : R → Type 0)
        → ((r : R) (a : List d.Carrier)
            → P r
            → IsSymmetric d size a
            → IsSymmetric d size (f r a).0 × P (f r a).1)
        → (rs : List R) (a : List d.Carrier) → All P rs
        → IsSymmetric d size a
        → IsSymmetric d size (restamp_all d f rs a).0 × All P (restamp_all d f rs a).1
    unfolding restamp_all
    restamp_all-IsSymmetric f P keep [] a h sm = (sm, tt)
    restamp_all-IsSymmetric f P keep (r ∷ rs) a h sm =
        let one = keep r a h.0 sm in
        let rest = restamp_all-IsSymmetric f P keep rs (f r a).0 h.1 one.0 in
        (rest.0, (one.1, rest.1))

  pub restamp-IsWired : (rate : d.Carrier) (c : Circuit d) → IsWired c → IsWired (restamp d rate c)
  unfolding restamp
  restamp-IsWired rate c w =
      let t = d.div (one d) rate in
      let size = size_of d c in
      let s1 =
        restamp_all-IsSymmetric size t (restamp_cap d size t) (CapIsInside size)
          (restamp_cap-IsSymmetric size t) c.caps c.a_base w.caps_inside w.symmetric in
      let s2 =
        restamp_all-IsSymmetric size t (restamp_inductor d size t) (IndIsInside size)
          (restamp_inductor-IsSymmetric size t) c.inductors _ w.inductors_inside s1.0 in
      let s3 =
        restamp_all-IsSymmetric size t (restamp_coupled d size t) (CoupledIsInside size)
          (restamp_coupled-IsSymmetric size t) c.coupled _ w.coupled_inside s2.0 in
      record {
        symmetric = s3.0;
        caps_inside = s1.1;
        inductors_inside = s2.1;
        coupled_inside = s3.1;
      }
