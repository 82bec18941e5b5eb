-- ===== src/Analog/Circuit.antt =====
-- analog/circuit/Circuit.h and .cpp. The dimensions are not negative, which the constructor asserts. The
-- other assertions are the caller's duty; an access out of bounds reads 0 or changes nothing here.
pub mod Calls
pub mod Wiring
pub mod Symmetry
pub mod Status
mod Tests
use phu_audio_lib.Base.{
  ℕ, zero, suc, ◌+◌, ◌-◌, ◌*◌, ℤ, pos, negsuc, Bool, true, false, Option, none, some, List, [], ◌∷◌,
  ◌++◌, length, get_or, set, fill, map, replicate, ltb, ◌||◌, leb_ℤ, ltb_ℤ, pos_part, if◌then◌else◌,
}
use phu_audio_lib.Double.{Double}
use phu_audio_lib.Analog.Elements.{
  row_of, nought, one, add_at, sub_at, stamp_conductance, stamp_mutual_conductance,
  stamp_voltage_source_kcl, CapacitorCompanion, InductorCompanion, CoupledInductorCompanion,
  prepare_capacitor, reset_capacitor, update_capacitor, prepare_inductor, reset_inductor,
  update_inductor, prepare_coupled_inductor, reset_coupled_inductor, update_coupled_inductor,
}
use phu_audio_lib.Analog.Lu.{lu_factor, lu_solve}

module _ (d : Double) where
  pub record CapRecord : Type 0 where
    pub node_p : ℤ
    pub node_n : ℤ
    pub companion : CapacitorCompanion d

  pub record IndRecord : Type 0 where
    pub node_p : ℤ
    pub node_n : ℤ
    pub companion : InductorCompanion d

  pub record CoupledRecord : Type 0 where
    pub node_p1 : ℤ
    pub node_n1 : ℤ
    pub node_p2 : ℤ
    pub node_n2 : ℤ
    pub companion : CoupledInductorCompanion d

  -- `nodes` is `n_`, `sources` is `v_`; `tmp_` is scratch space that each solve fills first.
  pub record Circuit : Type 0 where
    pub nodes : ℕ
    pub sources : ℕ
    pub period : d.Carrier
    pub a_base : List d.Carrier
    pub lu : List d.Carrier
    pub piv : List ℕ
    pub z : List d.Carrier
    pub x : List d.Carrier
    pub caps : List CapRecord
    pub inductors : List IndRecord
    pub coupled : List CoupledRecord
    pub factorized : Bool

  abbrev pub size_of : Circuit → ℕ
  size_of c = c.nodes + c.sources

  unfoldable pub new_circuit : ℕ → ℕ → Circuit
  new_circuit n v = record {
    nodes = n;
    sources = v;
    period = d.div (one d) (d.lit (pos 44100) 1);
    a_base = replicate ((n + v) * (n + v)) (nought d);
    lu = replicate ((n + v) * (n + v)) (nought d);
    piv = replicate (n + v) 0;
    z = replicate (n + v) (nought d);
    x = replicate (n + v) (nought d);
    caps = [];
    inductors = [];
    coupled = [];
    factorized = false;
  }

  pub stamp_resistor : d.Carrier → ℤ → ℤ → Circuit → Circuit
  stamp_resistor ohms node_p node_n c = record c {
    a_base = stamp_conductance d (size_of c) (d.div (one d) ohms) node_p node_n c.a_base;
    factorized = false;
  }

  pub stamp_capacitor : d.Carrier → ℤ → ℤ → Circuit → Circuit × ℕ
  stamp_capacitor farads node_p node_n c =
      let rec : CapRecord = record {
        node_p = node_p;
        node_n = node_n;
        companion = record { farads = farads; geq = nought d; ieq = nought d };
      } in
      (record c { caps = c.caps ++ rec ∷ []; factorized = false }, length c.caps)

  pub stamp_voltage_source : ℕ → ℤ → ℤ → Circuit → Circuit
  stamp_voltage_source vsrc_idx node_p node_n c = record c {
    a_base = stamp_voltage_source_kcl d (size_of c) (c.nodes + vsrc_idx) node_p node_n c.a_base;
    factorized = false;
  }

  pub stamp_inductor : d.Carrier → ℤ → ℤ → Circuit → Circuit × ℕ
  stamp_inductor henries node_p node_n c =
      let rec : IndRecord = record {
        node_p = node_p;
        node_n = node_n;
        companion = record { henries = henries; geq = nought d; ieq = nought d };
      } in
      (record c { inductors = c.inductors ++ rec ∷ []; factorized = false }, length c.inductors)

  pub stamp_coupled_inductors :
      d.Carrier → d.Carrier → d.Carrier → ℤ → ℤ → ℤ → ℤ → Circuit → Circuit × ℕ
  stamp_coupled_inductors l1 l2 m node_p1 node_n1 node_p2 node_n2 c =
      let o = nought d in
      let rec : CoupledRecord = record {
        node_p1 = node_p1;
        node_n1 = node_n1;
        node_p2 = node_p2;
        node_n2 = node_n2;
        companion = record {
          l1 = l1;
          l2 = l2;
          m = m;
          g11 = o;
          g22 = o;
          g12 = o;
          ieq1 = o;
          ieq2 = o;
        };
      } in
      (record c { coupled = c.coupled ++ rec ∷ []; factorized = false }, length c.coupled)

  -- The bodies of the three loops of `prepare`: the matrix and the record behind them.
  pub restamp_cap : ℕ → d.Carrier → CapRecord → List d.Carrier → List d.Carrier × CapRecord
  restamp_cap size t r a =
      let removed = stamp_conductance d size (d.neg r.companion.geq) r.node_p r.node_n a in
      let r' = record r { companion = prepare_capacitor d t r.companion } in
      (stamp_conductance d size r'.companion.geq r.node_p r.node_n removed, r')

  pub restamp_inductor : ℕ → d.Carrier → IndRecord → List d.Carrier → List d.Carrier × IndRecord
  restamp_inductor size t r a =
      let removed = stamp_conductance d size (d.neg r.companion.geq) r.node_p r.node_n a in
      let r' = record r { companion = prepare_inductor d t r.companion } in
      (stamp_conductance d size r'.companion.geq r.node_p r.node_n removed, r')

  stamp_coupled :
      ℕ → d.Carrier → d.Carrier → d.Carrier → CoupledRecord → List d.Carrier → List d.Carrier
  stamp_coupled size g11 g22 g12 r a =
      stamp_mutual_conductance d size g12 r.node_p1 r.node_n1 r.node_p2 r.node_n2 (
        stamp_conductance d size g22 r.node_p2 r.node_n2
          (stamp_conductance d size g11 r.node_p1 r.node_n1 a))

  pub restamp_coupled :
      ℕ → d.Carrier → CoupledRecord → List d.Carrier → List d.Carrier × CoupledRecord
  unfolding stamp_coupled
  restamp_coupled size t r a =
      let old = r.companion in
      let removed = stamp_coupled size (d.neg old.g11) (d.neg old.g22) (d.neg old.g12) r a in
      let new = prepare_coupled_inductor d t old in
      (stamp_coupled size new.g11 new.g22 new.g12 r removed, record r { companion = new })

  -- A loop over records that changes the matrix and each record.
  pub restamp_all :
      {R : Type 0}
      → (R → List d.Carrier → List d.Carrier × R)
      → List R
      → List d.Carrier
      → List d.Carrier × List R
  restamp_all f [] a = (a, [])
  restamp_all f (r ∷ rs) a =
      let (a1, r') = f r a in let (a2, rs') = restamp_all f rs a1 in (a2, r' ∷ rs')

  -- `prepare` without the factorisation at its end.
  pub restamp : d.Carrier → Circuit → Circuit
  unfolding restamp_cap restamp_inductor restamp_coupled restamp_all
  restamp sample_rate c =
      let t = d.div (one d) sample_rate in
      let (a1, caps) = restamp_all (restamp_cap (size_of c) t) c.caps c.a_base in
      let (a2, inductors) = restamp_all (restamp_inductor (size_of c) t) c.inductors a1 in
      let (a3, coupled) = restamp_all (restamp_coupled (size_of c) t) c.coupled a2 in
      record c { period = t; a_base = a3; caps = caps; inductors = inductors; coupled = coupled }

  pub prepare : d.Carrier → Circuit → Circuit
  unfolding restamp lu_factor
  prepare sample_rate c =
      let c1 = restamp sample_rate c in
      let (factors, ok) = lu_factor d (size_of c) c1.a_base in
      record c1 { lu = factors.0; piv = factors.1; factorized = ok }

  pub reset : Circuit → Circuit
  reset c = record c {
    caps = map (λ (r : CapRecord). record r { companion = reset_capacitor d r.companion }) c.caps;
    inductors =
        map (λ (r : IndRecord). record r { companion = reset_inductor d r.companion }) c.inductors;
    coupled =
        map (λ (r : CoupledRecord). record r { companion = reset_coupled_inductor d r.companion })
          c.coupled;
  }

  pub begin_step : Circuit → Circuit
  begin_step c = record c { z = fill (length c.z) (nought d) c.z }

  pub set_voltage_source_value : ℕ → d.Carrier → Circuit → Circuit
  set_voltage_source_value vsrc_idx volts c = record c { z = set c.z (c.nodes + vsrc_idx) volts }

  -- `z_[node - 1] += amps` and `-=` at a node that has a row.
  add_to_node : Option ℕ → d.Carrier → List d.Carrier → List d.Carrier
  unfolding add_at
  add_to_node none amps z = z
  add_to_node (some p) amps z = add_at d p amps z

  sub_from_node : Option ℕ → d.Carrier → List d.Carrier → List d.Carrier
  unfolding sub_at
  sub_from_node none amps z = z
  sub_from_node (some p) amps z = sub_at d p amps z

  pub inject_current : ℤ → d.Carrier → Circuit → Circuit
  unfolding add_to_node
  inject_current node amps c = record c { z = add_to_node (row_of node) amps c.z }

  -- The loops of `solve` that add the companion currents.
  add_caps : List CapRecord → List d.Carrier → List d.Carrier
  unfolding add_to_node sub_from_node
  add_caps [] z = z
  add_caps (r ∷ rs) z =
      let i = r.companion.ieq in
      add_caps rs (sub_from_node (row_of r.node_n) i (add_to_node (row_of r.node_p) i z))

  add_inductors : List IndRecord → List d.Carrier → List d.Carrier
  unfolding add_to_node sub_from_node
  add_inductors [] z = z
  add_inductors (r ∷ rs) z =
      let i = r.companion.ieq in
      add_inductors rs (add_to_node (row_of r.node_n) i (sub_from_node (row_of r.node_p) i z))

  add_coupled : List CoupledRecord → List d.Carrier → List d.Carrier
  unfolding add_to_node sub_from_node
  add_coupled [] z = z
  add_coupled (r ∷ rs) z =
      let i1 = r.companion.ieq1 in
      let i2 = r.companion.ieq2 in
      let z1 = add_to_node (row_of r.node_n1) i1 (sub_from_node (row_of r.node_p1) i1 z) in
      add_coupled rs (add_to_node (row_of r.node_n2) i2 (sub_from_node (row_of r.node_p2) i2 z1))

  -- The voltage between two nodes, from 0.0 on.
  plus_node : List d.Carrier → Option ℕ → d.Carrier → d.Carrier
  plus_node x none v = v
  plus_node x (some p) v = d.add v (get_or x p (nought d))

  minus_node : List d.Carrier → Option ℕ → d.Carrier → d.Carrier
  minus_node x none v = v
  minus_node x (some p) v = d.sub v (get_or x p (nought d))

  pub voltage : List d.Carrier → ℤ → ℤ → d.Carrier
  unfolding plus_node minus_node
  voltage x node_p node_n = minus_node x (row_of node_n) (plus_node x (row_of node_p) (nought d))

  pub update_cap : List d.Carrier → CapRecord → CapRecord
  unfolding voltage
  update_cap x r = record r {
    companion = update_capacitor d (voltage x r.node_p r.node_n) r.companion;
  }

  pub update_ind : List d.Carrier → IndRecord → IndRecord
  unfolding voltage
  update_ind x r = record r {
    companion = update_inductor d (voltage x r.node_p r.node_n) r.companion;
  }

  pub update_pair : List d.Carrier → CoupledRecord → CoupledRecord
  unfolding voltage
  update_pair x r = record r {
    companion =
        update_coupled_inductor d (voltage x r.node_p1 r.node_n1) (voltage x r.node_p2 r.node_n2)
          r.companion;
  }

  unfoldable pub solve : Circuit → Circuit × Bool
  unfolding add_caps add_inductors add_coupled update_cap update_ind update_pair lu_solve
  solve c =
      let z = add_coupled c.coupled (add_inductors c.inductors (add_caps c.caps c.z)) in
      let x = lu_solve d (size_of c) c.lu c.piv z in
      if c.factorized
      then (
        record c {
          z = z;
          x = x;
          caps = map (update_cap x) c.caps;
          inductors = map (update_ind x) c.inductors;
          coupled = map (update_pair x) c.coupled;
        },
        true,
      )
      else (c, false)

  unfoldable pub node_voltage : ℤ → Circuit → d.Carrier
  node_voltage node c =
      if leb_ℤ node (pos 0) || ltb_ℤ (pos c.nodes) node
      then nought d
      else get_or c.x (pos_part node - 1) (nought d)

  pub vsrc_current : ℕ → Circuit → d.Carrier
  vsrc_current vsrc_idx c = get_or c.x (c.nodes + vsrc_idx) (nought d)
