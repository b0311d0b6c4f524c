-- ===== src/Modbus/Group.antt =====
-- modbus/group.go: packing the points of one connection into few Modbus requests.
pub mod Merge
pub mod Partition
pub mod Registers
pub mod Kept
pub mod Fewest
mod Examples
use go_scada.Base.{
  ℕ, ◌+◌, ◌-◌, ◌%◌, ◌^◌, Text, Bool, true, false, ◌&&◌, ◌||◌, not, List, [], ◌∷◌, ◌++◌, map, codes,
  text_eq, text_lt, ltb, leb, ◌==◌, if◌then◌else◌, sort_by,
}
use go_scada.Modbus.Config.{
  Register, coil, discrete_input, input, holding, other_register, Point, register_count,
}

abbrev pub max_register_quantity : ℕ
max_register_quantity = 125

abbrev pub max_bit_quantity : ℕ
max_bit_quantity = 2000

pub record PollPoint : Type 0 where
  pub subject : Text
  pub point : Point
  pub publish_on_change : Bool

pub record PollGroup : Type 0 where
  pub register : Register
  pub address : ℕ  -- uint16
  pub quantity : ℕ  -- uint16
  pub points : List PollPoint

-- uint16(n)
abbrev pub u16 : ℕ → ℕ
u16 n = n % 2 ^ 16

-- The text of a register, by which Go orders and compares registers.
unfoldable pub register_name : Register → Text
register_name coil = codes "coil"
register_name discrete_input = codes "discrete_input"
register_name input = codes "input"
register_name holding = codes "holding"
register_name (other_register name) = name

-- `==` on registers.
same_register : Register → Register → Bool
same_register coil coil = true
same_register discrete_input discrete_input = true
same_register input input = true
same_register holding holding = true
same_register (other_register s) (other_register t) = text_eq s t
same_register _ _ = false

unfoldable pub point_end : Point → ℕ
point_end p = p.address + register_count p.encoding

unfoldable pub max_quantity : Register → ℕ
max_quantity coil = max_bit_quantity
max_quantity discrete_input = max_bit_quantity
max_quantity input = max_register_quantity
max_quantity holding = max_register_quantity
max_quantity (other_register _) = max_register_quantity

-- The `less` of mergeRegisterPoints.
pub point_less : PollPoint → PollPoint → Bool
point_less p q =
    if not (p.point.address == q.point.address)
    then ltb p.point.address q.point.address
    else if not (point_end p.point == point_end q.point)
    then ltb (point_end p.point) (point_end q.point)
    else text_lt p.subject q.subject

-- The group that one point opens.
pub open_group : Register → PollPoint → PollGroup
open_group register p = record {
  register = register;
  address = p.point.address;
  quantity = u16 (point_end p.point - p.point.address);
  points = p ∷ [];
}

abbrev pub no_points : List PollPoint → Bool
no_points [] = true
no_points (_ ∷ _) = false

-- The variables of the loop.
pub record Packing : Type 0 where
  pub current : PollGroup
  pub groups : List PollGroup

-- The larger of the two ends.
pub next_end : PollGroup → PollPoint → ℕ
next_end g p =
    let current_end = g.address + g.quantity in
    let end = point_end p.point in if ltb end current_end then current_end else end

-- `current` with the point, over `span` registers.
extend : PollGroup → PollPoint → ℕ → PollGroup
extend g p span = record g { quantity = u16 span; points = g.points ++ p ∷ [] }

-- The body of the loop over the points.
pub pack : Register → Packing → PollPoint → Packing
pack register s p =
    if no_points s.current.points
    then record s { current = open_group register p }
    else let span = next_end s.current p - s.current.address in
      if leb span (max_quantity register)
      then record s { current = extend s.current p span }
      else record { current = open_group register p; groups = s.groups ++ s.current ∷ [] }

pack_all : Register → Packing → List PollPoint → Packing
pack_all register s [] = s
pack_all register s (p ∷ ps) = pack_all register (pack register s p) ps

-- `var current pollGroup`, whose fields are zero.
abbrev empty_group : PollGroup
empty_group = record {
  register = other_register (codes "");
  address = 0;
  quantity = 0;
  points = [];
}

-- What is returned after the loop.
finish : Packing → List PollGroup
finish s = if no_points s.current.points then s.groups else s.groups ++ s.current ∷ []

unfoldable pub merge_register_points : Register → List PollPoint → List PollGroup
unfolding finish pack_all pack extend next_end open_group point_less
merge_register_points register points =
    finish (
      pack_all register (record { current = empty_group; groups = [] }) (sort_by point_less points))

abbrev ByRegister : Type 0
ByRegister = List (Register × List PollPoint)

-- byRegister[register] = append(byRegister[register], point)
add_point : PollPoint → ByRegister → ByRegister
add_point p [] = (p.point.register, p ∷ []) ∷ []
add_point p ((r, ps) ∷ m) =
    let rest = add_point p m in
    if same_register r p.point.register then (r, ps ++ p ∷ []) ∷ m else (r, ps) ∷ rest

by_register : ByRegister → List PollPoint → ByRegister
by_register m [] = m
by_register m (p ∷ ps) = by_register (add_point p m) ps

points_at : Register → ByRegister → List PollPoint
points_at r [] = []
points_at r ((s, ps) ∷ m) = if same_register s r then ps else points_at r m

registers_of : ByRegister → List Register
registers_of [] = []
registers_of ((r, _) ∷ m) = r ∷ registers_of m

register_less : Register → Register → Bool
register_less r s = text_lt (register_name r) (register_name s)

merge_all : ByRegister → List Register → List PollGroup
merge_all m [] = []
merge_all m (r ∷ rs) = merge_register_points r (points_at r m) ++ merge_all m rs

unfoldable pub group_points : List PollPoint → List PollGroup
unfolding merge_all register_less registers_of points_at by_register add_point same_register
group_points points =
    let m = by_register [] points in merge_all m (sort_by register_less (registers_of m))
