-- ===== src/Modbus/Reader.antt =====
-- modbus/reader.go: reading a group of points in one request, and decoding registers.
pub mod Order
pub mod Memory
pub mod Polling
pub mod Examples
use go_scada.Base.{
  ℕ, zero, suc, ◌+◌, ◌-◌, ◌*◌, ◌%◌, ◌^◌, Text, Bool, true, false, not, ◌&&◌, List, [], ◌∷◌, ◌++◌, ℤ,
  pos, negsuc, Option, none, some, Result, ok, err, ◌>>=◌, ◌>>◌, fail_if, codes, ltb, leb, ◌==◌,
  if◌then◌else◌, length, take, drop, get_elem?,
}
use go_scada.Float.{widen}
use go_scada.Value.{Value}
use go_scada.Modbus.Config.{
  Register, coil, discrete_input, input, holding, Encoding, bool, int16, uint16, int32, uint32,
  float32, float64, ByteOrder, little, Point, register_count,
}
use go_scada.Modbus.Group.{PollPoint, PollGroup, u16}

-- The two register tables of the Modbus library.
pub data RegType : Type 0 where
  holding_register input_register : RegType

-- The library's client, as what it answers to one request; an error is its message.
pub record DeviceReader : Type 0 where
  pub read_coils : ℕ → ℕ → Result Text (List Bool)
  pub read_discrete_inputs : ℕ → ℕ → Result Text (List Bool)
  pub read_raw_bytes : ℕ → ℕ → RegType → Result Text (List ℕ)

pub data ReadError : Type 0 where
  device_error : Text → ReadError
  short_read : ℕ → ℕ → ReadError
  outside_block : Text → ReadError
  unsupported_encoding : ReadError

from_device : {A : Type 0} → Result Text A → Result ReadError A
from_device (ok a) = ok a
from_device (err e) = err (device_error e)

-- uint16 subtraction
abbrev pub sub16 : ℕ → ℕ → ℕ
sub16 a b = (a + 2 ^ 16 - b) % 2 ^ 16

-- xs[i] = v; the loops below stay in range.
set : List ℕ → ℕ → ℕ → List ℕ
set [] i v = []
set (x ∷ xs) zero v = v ∷ xs
set (x ∷ xs) (suc i) v = x ∷ set xs i v

get : List ℕ → ℕ → ℕ
get [] i = 0
get (x ∷ xs) zero = x
get (x ∷ xs) (suc i) = get xs i

-- xs[i], xs[j] = xs[j], xs[i]
swap : ℕ → ℕ → List ℕ → List ℕ
swap i j xs = set (set xs i (get xs j)) j (get xs i)

-- for index := 0; index < len(ordered); index += 2, with the rounds left as fuel
swap_bytes : ℕ → ℕ → List ℕ → List ℕ
swap_bytes zero index xs = xs
swap_bytes (suc rounds) index xs =
    let rest = swap_bytes rounds (index + 2) (swap index (index + 1) xs) in
    if ltb index (length xs) then rest else xs

-- for left, right := 0, len(ordered)-2; left < right; left, right = left+2, right-2
swap_words : ℕ → ℕ → ℕ → List ℕ → List ℕ
swap_words zero left right xs = xs
swap_words (suc rounds) left right xs =
    let swapped = swap (left + 1) (right + 1) (swap left right xs) in
    let rest = swap_words rounds (left + 2) (right - 2) swapped in
    if ltb left right then rest else xs

abbrev is_little : ByteOrder → Bool
is_little little = true
is_little _ = false

-- Both loops make fewer rounds than there are bytes.
unfoldable pub reorder : List ℕ → ByteOrder → ByteOrder → List ℕ
unfolding swap_bytes swap_words swap set get
reorder raw byte_order word_order =
    let ordered = if is_little byte_order then swap_bytes (length raw) 0 raw else raw in
    if is_little word_order && ltb 2 (length ordered)
    then swap_words (length ordered) 0 (length ordered - 2) ordered
    else ordered

-- binary.BigEndian on a slice of just the width that is read
unfoldable pub big_endian : ℕ → List ℕ → ℕ
big_endian acc [] = acc
big_endian acc (b ∷ bs) = big_endian (acc * 256 + b) bs

-- int64(int16(n)) for width 16, int64(int32(n)) for width 32
unfoldable pub signed : ℕ → ℕ → ℤ
signed width n = if ltb n (2 ^ (width - 1)) then pos n else negsuc (2 ^ width - n - 1)

-- The `switch point.Encoding` of decodeRegisters.
decode_ordered : Encoding → ℕ → Result ReadError Value
decode_ordered int16 n = ok (Value.int64 (signed 16 n))
decode_ordered uint16 n = ok (Value.int64 (pos n))
decode_ordered int32 n = ok (Value.int64 (signed 32 n))
decode_ordered uint32 n = ok (Value.int64 (pos n))
decode_ordered float32 n = ok (Value.float64 (widen n))
decode_ordered float64 n = ok (Value.float64 n)
decode_ordered _ n = err unsupported_encoding

unfoldable pub decode_registers : List ℕ → Point → Result ReadError Value
unfolding decode_ordered
decode_registers raw p = do
  fail_if (not (length raw == register_count p.encoding * 2))
      (short_read (length raw) (register_count p.encoding * 2))
  decode_ordered p.encoding (big_endian 0 (reorder raw p.byte_order p.word_order))

read_bit : Text → Option Bool → Result ReadError Value
read_bit subject none = err (outside_block subject)
read_bit subject (some b) = ok (Value.bool b)

-- The loop of decodeBits; an index that is out of range has no element.
bit_values : ℕ → List Bool → List PollPoint → Result ReadError (List Value)
bit_values address bits [] = ok []
bit_values address bits (q ∷ qs) = do
  value ← read_bit q.subject (get_elem? bits (sub16 q.point.address address))
  values ← bit_values address bits qs
  ok (value ∷ values)

decode_bits : PollGroup → List Bool → Result ReadError (List Value)
decode_bits g bits = do
  fail_if (not (length bits == g.quantity)) (short_read (length bits) g.quantity)
  bit_values g.address bits g.points

-- The loop over the points of a block of registers.
register_values : ℕ → List ℕ → List PollPoint → Result ReadError (List Value)
register_values address raw [] = ok []
register_values address raw (q ∷ qs) = do
  let offset : ℕ = sub16 q.point.address address * 2
  let count : ℕ = register_count q.point.encoding * 2
  fail_if (ltb (length raw) (offset + count)) (outside_block q.subject)
  value ← decode_registers (take count (drop offset raw)) q.point
  values ← register_values address raw qs
  ok (value ∷ values)

-- What readGroup does with a register table.
read_registers : DeviceReader → PollGroup → RegType → Result ReadError (List Value)
read_registers reader g table = do
  raw ← from_device (reader.read_raw_bytes g.address (u16 (g.quantity * 2)) table)
  fail_if (not (length raw == g.quantity * 2)) (short_read (length raw) (g.quantity * 2))
  register_values g.address raw g.points

read_bits : PollGroup → Result Text (List Bool) → Result ReadError (List Value)
read_bits g answer = do bits ← from_device answer; decode_bits g bits

-- The `switch group.register` of readGroup.
read_table : Register → DeviceReader → PollGroup → Result ReadError (List Value)
read_table coil reader g = read_bits g (reader.read_coils g.address g.quantity)
read_table discrete_input reader g = read_bits g (reader.read_discrete_inputs g.address g.quantity)
read_table input reader g = read_registers reader g input_register
read_table _ reader g = read_registers reader g holding_register

unfoldable pub read_group : DeviceReader → PollGroup → Result ReadError (List Value)
unfolding read_table read_registers read_bits register_values decode_bits bit_values read_bit
    from_device
read_group reader g = read_table g.register reader g

-- `values[0]`: readGroup returns a value for its one point.
first_value : List Value → Result ReadError Value
first_value (v ∷ _) = ok v
first_value [] = err (outside_block (codes ""))

-- The group of one point.
abbrev pub single : Point → PollGroup
single p = record {
  register = p.register;
  address = p.address;
  quantity = register_count p.encoding;
  points = record { subject = codes ""; point = p; publish_on_change = false } ∷ [];
}

pub read_value : DeviceReader → Point → Result ReadError Value
unfolding first_value
read_value reader p = do values ← read_group reader (single p); first_value values
