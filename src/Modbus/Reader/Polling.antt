-- ===== src/Modbus/Reader/Polling.antt =====
-- One polling round over the groups of groupPoints: every point gets its value, of its type.
use go_scada.Base.{
  ℕ, ◌*◌, ◌≤◌, ◌≡◌, refl, sym, ◌∙◌, List, [], ◌∷◌, ok, arith, All, Text, ◌≢◌, subst, length, ◌==◌,
  true, Bool,
}
use go_scada.Address.{ValueType}
use go_scada.Value.{Value}
use go_scada.Modbus.Config.{
  Register, coil, discrete_input, input, holding, other_register, Encoding, Point, register_count,
  value_type_for_encoding,
}
use go_scada.Modbus.Config.Points.{IsPollable, Fits}
use go_scada.Modbus.Group.{PollPoint, PollGroup, group_points, point_end}
use go_scada.Modbus.Group.Registers.{IsRequest, group_points-IsRequest}
use go_scada.Modbus.Group.Kept.{group_points-All}
use go_scada.Modbus.Reader.{
  DeviceReader, decode_ordered, decode_registers, read_group, read_value, big_endian, reorder,
  input_register, holding_register,
}
use go_scada.Modbus.Reader.Memory.Window.{window, length-window}
use go_scada.Modbus.Reader.Memory.{
  DeviceMemory, Answers, each, value_at, InRange, read_group-each, read_value-value_at,
}

-- The type assertion of publishValue.
abbrev pub HasType : ValueType → Value → Type 0
HasType ValueType.bool (Value.bool b) = Unit
HasType ValueType.int64 (Value.int64 n) = Unit
HasType ValueType.float64 (Value.float64 n) = Unit
HasType ValueType.string (Value.string s) = Unit
HasType _ _ = ⊥

decode_ordered-HasType :
    (e : Encoding) (n : ℕ)
    → e ≢ Encoding.bool
    → ((name : Text) → e ≢ Encoding.other_encoding name)
    → (v : Value) × (decode_ordered e n ≡ ok v) × HasType (value_type_for_encoding e) v
unfolding decode_ordered value_type_for_encoding
decode_ordered-HasType Encoding.bool n h k = absurd (h refl)
decode_ordered-HasType (Encoding.other_encoding name) n h k = absurd (k name refl)
decode_ordered-HasType Encoding.int16 n h k = (_, refl, tt)
decode_ordered-HasType Encoding.uint16 n h k = (_, refl, tt)
decode_ordered-HasType Encoding.int32 n h k = (_, refl, tt)
decode_ordered-HasType Encoding.uint32 n h k = (_, refl, tt)
decode_ordered-HasType Encoding.float32 n h k = (_, refl, tt)
decode_ordered-HasType Encoding.float64 n h k = (_, refl, tt)

-- The bytes of a point's registers decode to a value of its type.
decode_window-HasType :
    (f : ℕ → ℕ) (p : Point)
    → p.encoding ≢ Encoding.bool
    → ((name : Text) → p.encoding ≢ Encoding.other_encoding name)
    → (v : Value) × (decode_registers (window f (p.address * 2) (register_count p.encoding * 2)) p
        ≡ ok v)
      × HasType (value_type_for_encoding p.encoding) v
unfolding decode_registers
decode_window-HasType f p h k =
    let n = big_endian 0 (
      reorder (window f (p.address * 2) (register_count p.encoding * 2)) p.byte_order
        p.word_order) in
    let (v, decoded, typed) = decode_ordered-HasType p.encoding n h k in
    let same : (length (window f (p.address * 2) (register_count p.encoding * 2))
          == register_count p.encoding * 2)
        ≡ true =
      rw length-window (ground arith) in
    (v, rw same decoded, typed)

bit-HasType :
    (b : Bool) (e : Encoding)
    → e ≡ Encoding.bool
    → HasType (value_type_for_encoding e) (Value.bool b)
unfolding value_type_for_encoding
bit-HasType b e h = rw h tt

value_at-HasType :
    (m : DeviceMemory) (r : Register) (p : Point)
    → Fits r p.encoding
    → (v : Value) × (value_at m r p ≡ ok v) × HasType (value_type_for_encoding p.encoding) v
unfolding value_at
value_at-HasType m coil p h = (_, refl, bit-HasType (m.coils p.address) p.encoding h)
value_at-HasType m discrete_input p h =
    (_, refl, bit-HasType (m.discrete_inputs p.address) p.encoding h)
value_at-HasType m input p h = decode_window-HasType (m.bytes input_register) p h.0 h.1
value_at-HasType m holding p h = decode_window-HasType (m.bytes holding_register) p h.0 h.1
value_at-HasType m (other_register s) p h = absurd h

module _ (reader : DeviceReader) where
  -- The values, one for each point: what reading it alone gives, and of its type.
  abbrev pub Polled : List PollPoint → List Value → Type 0
  Polled [] [] = Unit
  Polled (q ∷ qs) (v ∷ vs) =
      (read_value reader q.point ≡ ok v) × HasType q.point.value_type v × Polled qs vs
  Polled _ _ = ⊥

module _ (reader : DeviceReader) (m : DeviceMemory) (answers : Answers reader m) where
  each-Polled :
      (qs : List PollPoint)
      → All (λ q. IsPollable q.point) qs
      → (vs : List Value) × (each (λ q. read_value reader q.point) qs ≡ ok vs) × Polled reader qs vs
  unfolding each
  each-Polled [] h = ([], refl, tt)
  each-Polled (q ∷ qs) h =
      let low : point_end q.point ≤ 65536 = unfold point_end in h.0.in_range in
      let (v, at, typed) = value_at-HasType m q.point.register q.point h.0.fits in
      let (vs, rest, polled) = each-Polled qs h.1 in
      let read = read_value-value_at reader m answers q.point low ∙ at in
      (v ∷ vs, rw (read, rest), (read, subst (λ t. HasType t v) (sym h.0.typed) typed, polled))

  pollable_low : (qs : List PollPoint) → All (λ q. IsPollable q.point) qs → All InRange qs
  unfolding point_end
  pollable_low [] h = tt
  pollable_low (q ∷ qs) h = (h.0.in_range, pollable_low qs h.1)

  groups-Polled :
      (gs : List PollGroup)
      → All IsRequest gs
      → All (λ g. All (λ q. IsPollable q.point) g.points) gs
      → All (λ g. (vs : List Value) × (read_group reader g ≡ ok vs) × Polled reader g.points vs) gs
  groups-Polled [] h k = tt
  groups-Polled (g ∷ gs) h k =
      let (vs, read, polled) = each-Polled g.points k.0 in
      (
        (vs, read_group-each reader m answers g h.0 (pollable_low g.points k.0) ∙ read, polled),
        groups-Polled gs h.1 k.1,
      )

  -- For points that ParsePoint accepts, every group of groupPoints is read without an error from a
  -- device that answers from a memory, and gives one value for each of its points: the value that
  -- reading the point alone gives, of the point's value type.
  pub group_points-Polled :
      (ps : List PollPoint)
      → All (λ q. IsPollable q.point) ps
      → All
          (λ g. (vs : List Value) × (read_group reader g ≡ ok vs) × Polled reader g.points vs)
          (group_points ps)
  group_points-Polled ps h =
      groups-Polled (group_points ps) (group_points-IsRequest ps)
        (group_points-All (λ q. IsPollable q.point) ps h)
