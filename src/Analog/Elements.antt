-- ===== src/Analog/Elements.antt =====
-- analog/circuit/elements/: companion models, and the stamps into the row-major matrix of the
-- nodal analysis. A node is an `int`; row `p` of the matrix belongs to the node `p + 1`, and a node that
-- is not positive has no row. A write out of bounds, undefined in C++, changes nothing here.
mod Swaps
pub mod Symmetry
use phu_audio_lib.Base.{
  ℕ, zero, suc, ◌+◌, ◌*◌, ℤ, pos, negsuc, Option, none, some, List, get_or, set,
}
use phu_audio_lib.Double.{Double}

abbrev pub row_of : ℤ → Option ℕ
row_of (pos (suc p)) = some p
row_of (pos zero) = none
row_of (negsuc n) = none

module _ (d : Double) where
  abbrev pub nought : d.Carrier
  nought = d.lit (pos 0) 1

  abbrev pub one : d.Carrier
  one = d.lit (pos 1) 1

  abbrev pub two : d.Carrier
  two = d.lit (pos 2) 1

  -- `m[i] += g` and `m[i] -= g`.
  unfoldable pub add_at : ℕ → d.Carrier → List d.Carrier → List d.Carrier
  add_at i g m = set m i (d.add (get_or m i nought) g)

  unfoldable pub sub_at : ℕ → d.Carrier → List d.Carrier → List d.Carrier
  sub_at i g m = set m i (d.sub (get_or m i nought) g)

  -- The same at a row and a column, where both are there.
  pub add_entry : ℕ → d.Carrier → Option ℕ → Option ℕ → List d.Carrier → List d.Carrier
  unfolding add_at
  add_entry size g (some r) (some c) m = add_at (r * size + c) g m
  add_entry size g (some r) none m = m
  add_entry size g none c m = m

  pub sub_entry : ℕ → d.Carrier → Option ℕ → Option ℕ → List d.Carrier → List d.Carrier
  unfolding sub_at
  sub_entry size g (some r) (some c) m = sub_at (r * size + c) g m
  sub_entry size g (some r) none m = m
  sub_entry size g none c m = m

  unfoldable pub stamp_conductance : ℕ → d.Carrier → ℤ → ℤ → List d.Carrier → List d.Carrier
  unfolding add_entry sub_entry
  stamp_conductance size g node_p node_n m =
      let p = row_of node_p in
      let n = row_of node_n in
      sub_entry size g n p (sub_entry size g p n (add_entry size g n n (add_entry size g p p m)))

  unfoldable pub stamp_mutual_conductance :
      ℕ → d.Carrier → ℤ → ℤ → ℤ → ℤ → List d.Carrier → List d.Carrier
  unfolding add_entry sub_entry
  stamp_mutual_conductance size g node_p1 node_n1 node_p2 node_n2 m =
      let p1 = row_of node_p1 in
      let n1 = row_of node_n1 in
      let p2 = row_of node_p2 in
      let n2 = row_of node_n2 in
      let m1 = sub_entry size g n1 p2 (sub_entry size g p1 n2 (add_entry size g p1 p2 m)) in
      let m2 = add_entry size g p2 p1 (add_entry size g n1 n2 m1) in
      add_entry size g n2 n1 (sub_entry size g n2 p1 (sub_entry size g p2 n1 m2))

  unfoldable pub stamp_voltage_source_kcl : ℕ → ℕ → ℤ → ℤ → List d.Carrier → List d.Carrier
  unfolding add_entry sub_entry
  stamp_voltage_source_kcl size row node_p node_n m =
      let p = row_of node_p in
      let n = row_of node_n in
      let v = some row in
      sub_entry size one n v
        (sub_entry size one v n (add_entry size one p v (add_entry size one v p m)))

  pub record CapacitorCompanion : Type 0 where
    pub farads : d.Carrier
    pub geq : d.Carrier
    pub ieq : d.Carrier

  pub record InductorCompanion : Type 0 where
    pub henries : d.Carrier
    pub geq : d.Carrier
    pub ieq : d.Carrier

  pub record CoupledInductorCompanion : Type 0 where
    pub l1 : d.Carrier
    pub l2 : d.Carrier
    pub m : d.Carrier
    pub g11 : d.Carrier
    pub g22 : d.Carrier
    pub g12 : d.Carrier
    pub ieq1 : d.Carrier
    pub ieq2 : d.Carrier

  unfoldable pub prepare_capacitor : d.Carrier → CapacitorCompanion → CapacitorCompanion
  prepare_capacitor t c = record c { geq = d.div (d.mul two c.farads) t }

  unfoldable pub reset_capacitor : CapacitorCompanion → CapacitorCompanion
  reset_capacitor c = record c { ieq = nought }

  unfoldable pub update_capacitor : d.Carrier → CapacitorCompanion → CapacitorCompanion
  update_capacitor vc c = record c { ieq = d.sub (d.mul (d.mul two c.geq) vc) c.ieq }

  unfoldable pub prepare_inductor : d.Carrier → InductorCompanion → InductorCompanion
  prepare_inductor t c = record c { geq = d.div t (d.mul two c.henries) }

  unfoldable pub reset_inductor : InductorCompanion → InductorCompanion
  reset_inductor c = record c { ieq = nought }

  unfoldable pub update_inductor : d.Carrier → InductorCompanion → InductorCompanion
  update_inductor vl c = record c { ieq = d.add (d.mul (d.mul two c.geq) vl) c.ieq }

  unfoldable pub prepare_coupled_inductor :
      d.Carrier → CoupledInductorCompanion → CoupledInductorCompanion
  prepare_coupled_inductor t c =
      let det = d.sub (d.mul c.l1 c.l2) (d.mul c.m c.m) in
      let scale = d.div t (d.mul two det) in
      record c { g11 = d.mul scale c.l2; g22 = d.mul scale c.l1; g12 = d.mul (d.neg scale) c.m }

  unfoldable pub reset_coupled_inductor : CoupledInductorCompanion → CoupledInductorCompanion
  reset_coupled_inductor c = record c { ieq1 = nought; ieq2 = nought }

  unfoldable pub update_coupled_inductor :
      d.Carrier → d.Carrier → CoupledInductorCompanion → CoupledInductorCompanion
  update_coupled_inductor vl1 vl2 c = record c {
    ieq1 = d.add (d.add (d.mul (d.mul two c.g11) vl1) (d.mul (d.mul two c.g12) vl2)) c.ieq1;
    ieq2 = d.add (d.add (d.mul (d.mul two c.g12) vl1) (d.mul (d.mul two c.g22) vl2)) c.ieq2;
  }
