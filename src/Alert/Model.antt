-- ===== src/Alert/Model.antt =====
-- alert/model.go: configurations, runtime states and evaluations.
use go_scada.Base.{ℕ, Text, Bool, false, ℤ, pos, List, Option, codes, []}

abbrev pub current_version : ℤ
current_version = pos 1

abbrev pub properties_prefix : Text
properties_prefix = codes "AlertProperties."

abbrev pub config_suffix : Text
config_suffix = codes ".alert_config"

abbrev pub alert_suffix : Text
alert_suffix = codes ".alert"

-- Go's string types with their constants; `other` is any other string.
pub data AlertType : Type 0 where
  binary value summary : AlertType
  other : Text → AlertType

pub data ValueType : Type 0 where
  int64 float64 : ValueType
  other_type : Text → ValueType

pub record Properties : Type 0 where
  pub version : ℤ
  pub color : Text
  pub abbreviation : Text
  pub short_sign : Text
  pub priority : ℤ
  pub requires_acknowledgement : Bool

pub record Mapping : Type 0 where
  pub property : Text
  pub text : Text

pub record BinaryConfig : Type 0 where
  pub bad_value : Bool
  pub when_true : Mapping
  pub when_false : Mapping

-- A bound is the text of a JSON number; `none` is an unbounded end.
pub record Interval : Type 0 where
  pub lower : Option Text
  pub upper : Option Text
  pub active : Bool
  pub property : Text
  pub text : Text

pub record ValueConfig : Type 0 where
  pub value_type : ValueType
  pub intervals : List Interval

pub record SummaryConfig : Type 0 where
  pub members : List Text

pub record Config : Type 0 where
  pub version : ℤ
  pub enabled : Bool
  pub kind : AlertType
  pub binary : Option BinaryConfig
  pub value : Option ValueConfig
  pub summary : Option SummaryConfig

pub record Presentation : Type 0 where
  pub property : Text
  pub color : Text
  pub abbreviation : Text
  pub short_sign : Text
  pub priority : ℤ
  pub requires_acknowledgement : Bool

abbrev pub no_presentation : Presentation
no_presentation = record {
  property = [];
  color = [];
  abbreviation = [];
  short_sign = [];
  priority = pos 0;
  requires_acknowledgement = false;
}

-- time.Time as an instant and the offset of its zone from UTC.
pub record Time : Type 0 where
  pub instant : ℕ
  pub offset : ℤ

pub record State : Type 0 where
  pub version : ℤ
  pub active : Bool
  pub pending : Bool
  pub presentation : Presentation
  pub text : Text
  pub acknowledged : Bool
  pub came_time : Option Time
  pub went_time : Option Time
  pub ack_time : Option Time
  pub dominant : Text
  pub members : List Text
  pub episode_id : Text

pub record Evaluation : Type 0 where
  pub active : Bool
  pub pending : Bool
  pub acknowledged : Bool
  pub presentation : Presentation
  pub text : Text
  pub dominant : Text
  pub members : List Text
