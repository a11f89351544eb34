-- ===== src/Linktap.antt =====
-- daemon/src/linktap.rs: the readings of a gateway's status payload, in litres, and the record of
-- linktap_runtime.rs that a report is. A payload is a record of what its JSON accessors return.
use dock_neighbor_hub.Shared.{
  String, List, Bool, false, not, ◌&&◌, ◌||◌, Option, none, some, trim, take_chars, str_eq, is_some,
  if◌then◌else◌,
}
use dock_neighbor_hub.Float.{Float64}

-- The canonical sixteen characters of a device id.
unfoldable pub normalize_dev_id : String → String
normalize_dev_id id = take_chars 16 (trim id)

pub data VolUnit : Type 0 where
  gal litre : VolUnit

pub record Gateway : Type 0 where
  pub host : String
  pub gw_id : String

-- `linktap_runtime::Report`.
pub record Report : Type 0 where
  pub device : String
  pub event : String
  pub params : List (String × String)
  pub token : Option String

-- The shapes of a JSON value that a flag is read from; a number carries its `as_f64`.
pub data Flag (V : Type 0) : Type 0 where
  boolean : Bool → Flag V
  number : Option V → Flag V
  text : String → Flag V
  other : Flag V

-- A status payload: each field with the accessor that the code reads it by, `none` where that fails.
pub record Status (V : Type 0) : Type 0 where
  pub is_watering : Option (Flag V)
  pub is_flm_plugin : Option Bool
  pub volume : Option V
  pub speed : Option V
  pub remain_duration : Option V
  pub battery : Option V
  pub signal : Option V
  pub is_rf_linked : Option (Flag V)
  pub is_broken : Option (Flag V)
  pub is_leak : Option (Flag V)
  pub is_clog : Option (Flag V)
  pub is_cutoff : Option (Flag V)

module _ {V : Type 0} ⦃f : Float64 V⦄ where
  -- `LITRES_PER_GALLON`.
  abbrev pub litres_per_gallon : V
  litres_per_gallon = f.lit 3785411784 9

  unfoldable pub to_litres : VolUnit → V → V
  to_litres gal raw = f.mul_f raw litres_per_gallon
  to_litres litre raw = raw

  unfoldable pub from_litres : VolUnit → V → V
  from_litres gal litres = f.div_f litres litres_per_gallon
  from_litres litre litres = litres

  unfoldable pub coerce_watering : Flag V → Bool
  coerce_watering (boolean b) = b
  coerce_watering (number none) = false
  coerce_watering (number (some x)) = not (f.le_f x (f.lit 0 0) && f.le_f (f.lit 0 0) x)
  coerce_watering (text s) = str_eq s "true" || str_eq s "1"
  coerce_watering other = false

  -- `watering_from_status`, on the payload's first `dev_stat` entry.
  unfoldable pub watering_from_status : Status V → Option Bool
  watering_from_status data_ = elim data_.is_watering [
    | none ↦ none
    | some v ↦ some (coerce_watering v)
  ]

  unfoldable pub reports_volume : Status V → Bool
  reports_volume data_ = elim data_.is_flm_plugin [ some b ↦ b | none ↦ is_some data_.volume ]

  unfoldable pub cycle_volume_litres : Status V → VolUnit → V
  unfolding to_litres
  cycle_volume_litres data_ unit = elim data_.volume [
    | none ↦ f.lit 0 0
    | some raw ↦
        if not (f.is_finite raw) || f.le_f raw (f.lit 0 0) || f.lt_f (f.lit 100000 0) raw
        then f.lit 0 0
        else to_litres unit raw
  ]

  unfoldable pub flow_rate_litres_per_min : Status V → VolUnit → V
  unfolding to_litres
  flow_rate_litres_per_min data_ unit = elim data_.speed [
    | none ↦ f.lit 0 0
    | some s ↦ if f.is_finite s && f.lt_f (f.lit 0 0) s then to_litres unit s else f.lit 0 0
  ]
