-- ===== src/Modbus/Reader/Memory.antt =====
-- Reading a group in one request gives what reading its points one by one gives, where the device
-- answers from a memory that does not change meanwhile.
pub mod Window
use Window.{window, length-window, get_elem?-window, take-drop-window}
use go_scada.Base.{
  ℕ, zero, suc, ◌+◌, ◌-◌, ◌*◌, ◌%◌, ◌^◌, ◌≤◌, ◌<◌, ◌≡◌, refl, sym, ap, ◌∙◌, Text, Bool, true, false,
  List, [], ◌∷◌, Option, some, Result, ok, err, ◌>>=◌, ◌>>◌, fail_if, arith, All, Any, inl, inr,
  length, take, drop, get_elem?, not, ◌==◌, ltb, Any-All, Any_const, subst, ==_iff,
}
use go_scada.Value.{Value}
use go_scada.Modbus.Config.{
  Register, coil, discrete_input, input, holding, other_register, Point, register_count,
}
use go_scada.Modbus.Config.Points.{IsPollable}
use go_scada.Modbus.Group.{PollPoint, PollGroup, u16, point_end, max_quantity, group_points}
use go_scada.Modbus.Group.Merge.{
  Inside, group_end, IsPacked, register_count_bounds, max_quantity_bounds,
}
use go_scada.Modbus.Group.Registers.{IsRequest, group_points-IsRequest}
use go_scada.Modbus.Reader.{
  RegType, holding_register, input_register, DeviceReader, ReadError, sub16, decode_registers,
  bit_values, register_values, read_bits, read_registers, read_table, read_group, read_value,
  single, decode_bits, read_bit, from_device, first_value,
}

-- The tables of a device; a register's bytes stand at twice its address, the high byte first.
pub record DeviceMemory : Type 0 where
  pub coils : ℕ → Bool
  pub discrete_inputs : ℕ → Bool
  pub bytes : RegType → ℕ → ℕ

-- The reader answers each request that the protocol allows from the memory.
pub record Answers (reader : DeviceReader) (m : DeviceMemory) : Type 0 where
  pub coils_lem :
      (a q : ℕ) → 0 < q → q ≤ 2000 → a + q ≤ 65536 → reader.read_coils a q ≡ ok (window m.coils a q)
  pub discrete_inputs_lem :
      (a q : ℕ)
      → 0 < q
      → q ≤ 2000
      → a + q ≤ 65536
      → reader.read_discrete_inputs a q ≡ ok (window m.discrete_inputs a q)
  pub bytes_lem :
      (a q : ℕ) (t : RegType)
      → 0 < q
      → q ≤ 125
      → a + q ≤ 65536
      → reader.read_raw_bytes a (q * 2) t ≡ ok (window (m.bytes t) (a * 2) (q * 2))

-- The values of points one by one, up to the first error.
unfoldable pub each :
    (PollPoint → Result ReadError Value) → List PollPoint → Result ReadError (List Value)
each f [] = ok []
each f (q ∷ qs) = do value ← f q; values ← each f qs; ok (value ∷ values)

-- A point's value, straight from the memory.
unfoldable pub value_at : DeviceMemory → Register → Point → Result ReadError Value
value_at m coil p = ok (Value.bool (m.coils p.address))
value_at m discrete_input p = ok (Value.bool (m.discrete_inputs p.address))
value_at m input p =
    decode_registers
      (window (m.bytes input_register) (p.address * 2) (register_count p.encoding * 2)) p
value_at m _ p =
    decode_registers
      (window (m.bytes holding_register) (p.address * 2) (register_count p.encoding * 2)) p

-- Where a point of a block stands in it.
inside16 :
    (q : PollPoint) (a n : ℕ)
    → a + n ≤ 65536
    → Inside a (a + n) q
    → (sub16 q.point.address a < n)
      × (a + sub16 q.point.address a ≡ q.point.address)
      × (sub16 q.point.address a + register_count q.point.encoding ≤ n)
unfolding point_end
inside16 q a n small h = omega (arith, register_count_bounds q.point.encoding)

bit_values-window :
    (f : ℕ → Bool) (a n : ℕ) (qs : List PollPoint)
    → a + n ≤ 65536
    → All (Inside a (a + n)) qs
    → bit_values a (window f a n) qs ≡ each (λ q. ok (Value.bool (f q.point.address))) qs
unfolding bit_values each read_bit
bit_values-window f a n [] small h = refl
bit_values-window f a n (q ∷ qs) small h =
    let count = register_count_bounds q.point.encoding in
    rw
      (get_elem?-window f a n (sub16 q.point.address a) q.point.address (inside16 q a n small h.0).0
        (inside16 q a n small h.0).1)
      (rw (bit_values-window f a n qs small h.1))

register_values-window :
    (f : ℕ → ℕ) (a n : ℕ) (qs : List PollPoint)
    → a + n ≤ 65536
    → All (Inside a (a + n)) qs
    → register_values a (window f (a * 2) (n * 2)) qs
      ≡ each
          (λ q.
            decode_registers
              (window f (q.point.address * 2) (register_count q.point.encoding * 2))
              q.point)
          qs
unfolding register_values each
register_values-window f a n [] small h = refl
register_values-window f a n (q ∷ qs) small h =
    let (low, at, high) = inside16 q a n small h.0 in
    let fits : ltb (length (window f (a * 2) (n * 2)))
          (sub16 q.point.address a * 2 + register_count q.point.encoding * 2)
        ≡ false =
      rw length-window (ground arith) in
    rw
      (
        fits,
        take-drop-window f (a * 2) (n * 2) (sub16 q.point.address a * 2)
            (register_count q.point.encoding * 2) (q.point.address * 2) (omega arith) (omega arith),
      )
      (rw (register_values-window f a n qs small h.1))

quantity_pos : (r : Register) (g : PollGroup) → IsPacked r g → 0 < g.quantity
unfolding point_end
quantity_pos r g h = Any_const g.points (
    Any-All (λ q. q.point.address ≡ g.address) (Inside g.address (group_end g))
      (λ q. 0 < g.quantity) g.points
      (λ q at i. omega (arith, register_count_bounds q.point.encoding)) h.starts h.inside)

-- A point whose registers lie below 65536.
abbrev pub InRange : PollPoint → Type 0
InRange q = point_end q.point ≤ 65536

group_end-le :
    (r : Register) (g : PollGroup) → IsPacked r g → All InRange g.points → group_end g ≤ 65536
group_end-le r g h low = Any_const g.points (
    Any-All (λ q. point_end q.point ≡ group_end g) InRange (λ q. group_end g ≤ 65536) g.points
      (λ q at i. omega arith) h.ends low)

first_value-each :
    (r : Result ReadError Value)
    → (do values ← (do value ← r; values ← ok []; ok (value ∷ values)); first_value values) ≡ r
unfolding first_value
first_value-each (ok v) = refl
first_value-each (err e) = refl

each-congr :
    (f g : PollPoint → Result ReadError Value) (qs : List PollPoint)
    → All (λ q. f q ≡ g q) qs
    → each f qs ≡ each g qs
unfolding each
each-congr f g [] h = refl
each-congr f g (q ∷ qs) h = rw (h.0, each-congr f g qs h.1)

module _ (reader : DeviceReader) (m : DeviceMemory) (answers : Answers reader m) where
  read_bits-window :
      (f : ℕ → Bool) (g : PollGroup)
      → group_end g ≤ 65536
      → All (Inside g.address (group_end g)) g.points
      → read_bits g (ok (window f g.address g.quantity))
        ≡ each (λ q. ok (Value.bool (f q.point.address))) g.points
  unfolding read_bits from_device decode_bits
  read_bits-window f g small h =
      let same : (length (window f g.address g.quantity) == g.quantity) ≡ true =
        rw length-window (ground arith) in
      rw same (bit_values-window f g.address g.quantity g.points small h)

  read_registers-window :
      (t : RegType) (g : PollGroup)
      → group_end g ≤ 65536
      → 0 < g.quantity
      → g.quantity ≤ 125
      → All (Inside g.address (group_end g)) g.points
      → read_registers reader g t
        ≡ each
            (λ q.
              decode_registers
                (window (m.bytes t) (q.point.address * 2) (register_count q.point.encoding * 2))
                q.point)
            g.points
  unfolding read_registers from_device
  read_registers-window t g small low high h =
      let exact : u16 (g.quantity * 2) ≡ g.quantity * 2 = omega arith in
      let same : (length (window (m.bytes t) (g.address * 2) (g.quantity * 2)) == g.quantity * 2)
          ≡ true =
        rw length-window (ground arith) in
      rw exact (
        rw (answers.bytes_lem g.address g.quantity t low high small)
          (rw same (register_values-window (m.bytes t) g.address g.quantity g.points small h)))

  read_table-value_at :
      (r : Register) (g : PollGroup)
      → IsPacked r g
      → group_end g ≤ 65536
      → read_table r reader g ≡ each (λ q. value_at m r q.point) g.points
  unfolding read_table value_at max_quantity
  read_table-value_at coil g h small =
      rw (answers.coils_lem g.address g.quantity (quantity_pos coil g h) h.bounded small)
        (read_bits-window m.coils g small h.inside)
  read_table-value_at discrete_input g h small =
      rw
        (answers.discrete_inputs_lem g.address g.quantity (quantity_pos discrete_input g h)
          h.bounded small)
        (read_bits-window m.discrete_inputs g small h.inside)
  read_table-value_at input g h small =
      read_registers-window input_register g small (quantity_pos input g h) h.bounded h.inside
  read_table-value_at holding g h small =
      read_registers-window holding_register g small (quantity_pos holding g h) h.bounded h.inside
  read_table-value_at (other_register s) g h small =
      read_registers-window holding_register g small (quantity_pos (other_register s) g h) h.bounded
        h.inside

  single-IsPacked : (p : Point) → IsPacked p.register (single p)
  unfolding point_end
  single-IsPacked p =
      ground (arith, register_count_bounds p.encoding, max_quantity_bounds p.register)

  pub read_value-value_at :
      (p : Point) → point_end p ≤ 65536 → read_value reader p ≡ value_at m p.register p
  unfolding read_value read_group point_end each
  read_value-value_at p h =
      rw (read_table-value_at p.register (single p) (single-IsPacked p) h)
        (first_value-each (value_at m p.register p))

  value_each :
      (r : Register) (qs : List PollPoint)
      → All (λ q. q.point.register ≡ r) qs
      → All InRange qs
      → All (λ q. value_at m r q.point ≡ read_value reader q.point) qs
  value_each r [] same low = tt
  value_each r (q ∷ qs) same low = (
    subst (λ s. value_at m s q.point ≡ read_value reader q.point) same.0
        (sym (read_value-value_at q.point low.0)),
    value_each r qs same.1 low.1,
  )

  -- Reading a request of points whose registers lie below 65536 gives what reading the points one by
  -- one gives, errors included, if the device answers from a memory that does not change.
  pub read_group-each :
      (g : PollGroup)
      → IsRequest g
      → All InRange g.points
      → read_group reader g ≡ each (λ q. read_value reader q.point) g.points
  unfolding read_group
  read_group-each g h low =
      read_table-value_at g.register g h.packed (group_end-le g.register g h.packed low)
      ∙ each-congr _ _ g.points (value_each g.register g.points h.registers low)
