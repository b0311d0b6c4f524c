-- ===== src/Modbus/Reader/Examples.antt =====
-- Tests of the decoding and of reading, and their theorems at concrete inputs.
use go_scada.Base.{
  ℕ, ◌*◌, ◌%◌, false, ◌≡◌, refl, List, [], ◌∷◌, codes, arith, All, ok, err, ◌==◌, pos, inl, inr,
}
use go_scada.Value.{Value}
use go_scada.Float.{widen}
use go_scada.Modbus.Config.{
  Register, coil, input, holding, Encoding, bool, int16, float32, big, little, Point,
  register_count, value_type_for_encoding,
}
use go_scada.Modbus.Config.Points.{point_of, IsPollable}
use go_scada.Modbus.Config.Examples.{descriptor, connection}
use go_scada.Address.{ValueType}
use go_scada.Modbus.Group.{PollPoint, PollGroup, group_points, point_end, max_quantity}
use go_scada.Modbus.Group.Registers.{IsRequest}
use go_scada.Modbus.Reader.{
  DeviceReader, reorder, decode_registers, read_group, read_value, outside_block, big_endian,
  signed,
}
use go_scada.Modbus.Reader.Memory.{DeviceMemory, Answers, InRange, each, read_group-each}
use go_scada.Modbus.Reader.Memory.Window.{window}
use go_scada.Modbus.Reader.Polling.{Polled, group_points-Polled}

swapped : reorder (1 ∷ 2 ∷ 3 ∷ 4 ∷ []) little big ≡ 2 ∷ 1 ∷ 4 ∷ 3 ∷ []
unfolding reorder
swapped = refl

words_reversed :
    reorder (1 ∷ 2 ∷ 3 ∷ 4 ∷ 5 ∷ 6 ∷ 7 ∷ 8 ∷ []) big little ≡ 7 ∷ 8 ∷ 5 ∷ 6 ∷ 3 ∷ 4 ∷ 1 ∷ 2 ∷ []
unfolding reorder
words_reversed = refl

both_orders : reorder (1 ∷ 2 ∷ 3 ∷ 4 ∷ []) little little ≡ 4 ∷ 3 ∷ 2 ∷ 1 ∷ []
unfolding reorder
both_orders = refl

-- 1.5 as a float32 and as a float64, and the smallest subnormal float32.
widened : widen 0x3fc00000 ≡ 0x3ff8000000000000
unfolding widen
widened = refl

widened_subnormal : widen 1 ≡ 0x36a0000000000000
unfolding widen
widened_subnormal = refl

abbrev at : Register → ℕ → Encoding → ValueType → PollPoint
at r a e t = record {
  subject = codes "p";
  point =
      point_of (record descriptor { value_type = t }) connection
        (record { register = r; address = a; encoding = e });
  publish_on_change = false;
}

abbrev signed_point : Point
signed_point = (at holding 7 int16 ValueType.int64).point

abbrev pub memory : DeviceMemory
memory = record { coils = λ a. a % 2 == 0; discrete_inputs = λ a. false; bytes = λ t a. a % 256 }

abbrev pub reader : DeviceReader
reader = record {
  read_coils = λ a q. ok (window memory.coils a q);
  read_discrete_inputs = λ a q. ok (window memory.discrete_inputs a q);
  read_raw_bytes = λ a n t. ok (window (memory.bytes t) (a * 2) n);
}

pub answers : Answers reader memory
answers = record {
  coils_lem = λ a q h k l. refl;
  discrete_inputs_lem = λ a q h k l. refl;
  bytes_lem = λ a q t h k l. refl;
}

abbrev points : List PollPoint
points =
    at input 12 int16 ValueType.int64
    ∷ at input 10 float32 ValueType.float64
    ∷ at coil 4 bool ValueType.bool
    ∷ []

abbrev block : PollGroup
block = record {
  register = input;
  address = 10;
  quantity = 3;
  points = at input 10 float32 ValueType.float64 ∷ at input 12 int16 ValueType.int64 ∷ [];
}

-- Bytes 20 to 25 of the memory; the connection's words are little.
block_read :
    read_group reader block ≡ ok (Value.float64 (widen 0x16171415) ∷ Value.int64 (pos 0x1819) ∷ [])
unfolding read_group decode_registers register_count big_endian signed reorder
block_read = refl

abbrev outside : PollGroup
outside = record block { quantity = 2 }

outside_read : read_group reader outside ≡ err (outside_block (codes "p"))
unfolding read_group decode_registers register_count
outside_read = refl

block-IsRequest : IsRequest block
unfolding point_end register_count max_quantity
block-IsRequest = record {
  packed = record {
    non_empty = refl;
    same_register = refl;
    inside = omega arith;
    bounded = omega arith;
    starts = inl refl;
    ends = inr (inl refl);
  };
  registers = (refl, (refl, tt));
}

points-IsPollable : All (λ q. IsPollable q.point) points
unfolding register_count value_type_for_encoding
points-IsPollable = (
  record { fits = (λ e. cc, λ n e. cc); typed = refl; in_range = omega arith },
  (
    record { fits = (λ e. cc, λ n e. cc); typed = refl; in_range = omega arith },
    (record { fits = refl; typed = refl; in_range = omega arith }, tt),
  ),
)

block_low : All InRange block.points
unfolding point_end register_count
block_low = omega arith

read_group-each_example :
    read_group reader block ≡ each (λ q. read_value reader q.point) block.points
read_group-each_example = read_group-each reader memory answers block block-IsRequest block_low

group_points-Polled_example :
    All
      (λ g. (vs : List Value) × (read_group reader g ≡ ok vs) × Polled reader g.points vs)
      (group_points points)
group_points-Polled_example = group_points-Polled reader memory answers points points-IsPollable
