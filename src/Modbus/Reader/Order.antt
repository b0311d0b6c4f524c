-- ===== src/Modbus/Reader/Order.antt =====
-- The byte and word orders of modbus/reader.go: what a device writes in an order is read back.
use go_scada.Base.{ℕ, zero, suc, ◌+◌, ◌*◌, ◌/◌, ◌%◌, ◌^◌, ◌<◌, ◌≡◌, List, [], ◌∷◌, pos, negsuc}
use go_scada.Value.{Value}
use go_scada.Modbus.Config.{
  Encoding, int16, uint16, int32, uint32, float64, ByteOrder, register_count,
}
use go_scada.Modbus.Reader.{reorder}

-- A value's bytes, the highest first: what the device holds before any reordering.
pub be_bytes : ℕ → ℕ → List ℕ
be_bytes zero n = []
be_bytes (suc k) n = n / 256 ^ k % 256 ∷ be_bytes k n

-- `n` is the pattern of the value in the encoding's width, in two's complement where it is signed.
abbrev pub Pattern : Encoding → Value → ℕ → Type 0
Pattern int16 (Value.int64 (pos k)) n = (n ≡ k) × (k < 2 ^ 15)
Pattern int16 (Value.int64 (negsuc k)) n = (n + k + 1 ≡ 2 ^ 16) × (k < 2 ^ 15)
Pattern uint16 (Value.int64 (pos k)) n = (n ≡ k) × (k < 2 ^ 16)
Pattern int32 (Value.int64 (pos k)) n = (n ≡ k) × (k < 2 ^ 31)
Pattern int32 (Value.int64 (negsuc k)) n = (n + k + 1 ≡ 2 ^ 32) × (k < 2 ^ 31)
Pattern uint32 (Value.int64 (pos k)) n = (n ≡ k) × (k < 2 ^ 32)
Pattern float64 (Value.float64 b) n = (n ≡ b) × (b < 2 ^ 64)
Pattern _ _ n = ⊥

module _ (bo wo : ByteOrder) where
  -- What `n` is stored as under an encoding, in the orders of the connection.
  abbrev pub stored : Encoding → ℕ → List ℕ
  stored e n = reorder (be_bytes (register_count e * 2) n) bo wo
