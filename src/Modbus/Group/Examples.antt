-- ===== src/Modbus/Group/Examples.antt =====
-- Tests of the packing, and its theorems at concrete points.
use mathlib.Core.List.{Perm}
use go_scada.Base.{
  ℕ, false, ◌≡◌, refl, List, [], ◌∷◌, codes, All, text_eq, text_lt, sort_by, length, map, ◌≤◌, Any,
  inl, inr, arith,
}
use go_scada.Modbus.Config.{Register, coil, input, Encoding, bool, int16, float32, register_count}
use go_scada.Modbus.Config.Points.{point_of}
use go_scada.Modbus.Config.Examples.{descriptor, connection}
use go_scada.Modbus.Group.{
  PollPoint, PollGroup, group_points, max_quantity, point_end, register_name, merge_register_points,
}
use go_scada.Modbus.Group.Partition.{points_of}
use go_scada.Modbus.Group.Fewest.{Request, Covers, merge_register_points-fewest}
use go_scada.Modbus.Group.Registers.{IsRequest, group_points-perm, group_points-IsRequest}

abbrev at : Register → ℕ → Encoding → PollPoint
at r a e = record {
  subject = codes "p";
  point = point_of descriptor connection (record { register = r; address = a; encoding = e });
  publish_on_change = false;
}

-- Two registers, the second with a gap that one request cannot span.
abbrev points : List PollPoint
points =
    at input 300 int16
    ∷ at input 10 float32
    ∷ at coil 5 bool
    ∷ at input 0 int16
    ∷ at coil 1900 bool
    ∷ []

abbrev shape : PollGroup → Register × ℕ × ℕ × ℕ
shape g = (g.register, g.address, g.quantity, length g.points)

packed :
    map shape (group_points points)
    ≡ (coil, 5, 1896, 2) ∷ (input, 0, 12, 2) ∷ (input, 300, 1, 1) ∷ []
unfolding group_points merge_register_points sort_by text_lt text_eq register_name point_end
    register_count max_quantity
packed = refl

group_points-perm_example : Perm (points_of (group_points points)) points
group_points-perm_example = group_points-perm points

group_points-IsRequest_example : All IsRequest (group_points points)
group_points-IsRequest_example = group_points-IsRequest points

abbrev inputs : List PollPoint
inputs = at input 300 int16 ∷ at input 10 float32 ∷ at input 0 int16 ∷ []

limit_125 : 125 ≤ max_quantity input
unfolding max_quantity
limit_125 = omega arith

limit_20 : 20 ≤ max_quantity input
unfolding max_quantity
limit_20 = omega arith

abbrev requests : List (Request input)
requests =
    record { first = 0; size = 125; allowed = limit_125 }
    ∷ record { first = 290; size = 20; allowed = limit_20 }
    ∷ []

inputs_covered : All (λ p. Any (Covers input p) requests) inputs
unfolding point_end register_count
inputs_covered = (inr (inl (omega arith)), (inl (omega arith), (inl (omega arith), tt)))

-- Two requests cover the three points, and no fewer do.
merge_register_points-fewest_example : length (merge_register_points input inputs) ≤ length requests
merge_register_points-fewest_example =
    merge_register_points-fewest input inputs requests inputs_covered
