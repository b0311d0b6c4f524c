-- ===== src/Value.antt =====
-- The values that travel on the stream: Go's `any` holding a bool, int64, float64 or string.
use go_scada.Base.{ℕ, Text, Bool, true, false, ℤ, ◌==ℤ◌, text_eq, not}
use go_scada.Float.{float_eq}

pub data Value : Type 0 where
  bool : Bool → Value
  int64 : ℤ → Value
  float64 : ℕ → Value  -- the bit pattern
  string : Text → Value

same_bool : Bool → Bool → Bool
same_bool true b = b
same_bool false b = not b

-- `==` on two values of type any.
unfoldable pub value_eq : Value → Value → Bool
unfolding same_bool
value_eq (bool a) (bool b) = same_bool a b
value_eq (int64 a) (int64 b) = a ==ℤ b
value_eq (float64 a) (float64 b) = float_eq a b
value_eq (string a) (string b) = text_eq a b
value_eq _ _ = false
