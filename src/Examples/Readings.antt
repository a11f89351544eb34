-- ===== src/Examples/Readings.antt =====
-- A humidity sensor, a shore-power meter and an NMEA feed, with the numbers of Examples/Valves.
use dock_neighbor_hub.Shared.{
  ℕ, ◌*◌, ◌≡◌, refl, true, false, Option, none, some, List, [], ◌∷◌, String, str_eq, has_prefix,
  to_ascii_lowercase,
}
use dock_neighbor_hub.Spool.{ShellyCall}
use dock_neighbor_hub.Store.{GpsConfig, default_gps}
use dock_neighbor_hub.Api.{Outcome, fine, failed}
use dock_neighbor_hub.Readings.{fresh_gate, reading_kind}
use dock_neighbor_hub.Readings.Due.{shelly_reading_due, value_of, gate_key}
use dock_neighbor_hub.Readings.Told.{Move, delivered, at_start, after, last_told, moved-told}
use dock_neighbor_hub.Readings.Shore.{shore_reports, turns, sides, shore_reports-turns}
use dock_neighbor_hub.Sources.{default_state}
use dock_neighbor_hub.Sources.Quiet.{passes, expected, passes-quiet}
use dock_neighbor_hub.Examples.Valves.{billionths, litre}

abbrev parse : String → Option ℕ
parse s = elim (str_eq s "70") [ true ↦ some (70 * litre) | false ↦ none ]

abbrev humid : ShellyCall
humid = record {
  vid = "v";
  event = "humidity.change";
  device = "s1";
  k = "";
  extras = ("rh", "70") ∷ [];
}

-- A keyframe told 60 percent.
abbrev keyframe : List (Move ℕ)
keyframe = delivered "s1|rh" (60 * litre) ∷ []

humid_value : value_of parse humid ≡ some (70 * litre)
unfolding value_of has_prefix to_ascii_lowercase
humid_value = refl

humid_told : last_told parse (gate_key humid) keyframe at_start none ≡ some (60 * litre)
unfolding last_told gate_key reading_kind has_prefix to_ascii_lowercase
humid_told = refl

moved-told_example :
    (shelly_reading_due parse 5000 false (after parse keyframe at_start) humid).1 ≡ true
unfolding reading_kind has_prefix to_ascii_lowercase
moved-told_example =
    moved-told parse keyframe 5000 false humid (70 * litre) (60 * litre) (5 * litre) humid_value
      refl humid_told refl refl

-- A sag to 95 V tells nothing on either side.
abbrev volts : List ℕ
volts = 120 * litre ∷ 95 * litre ∷ 40 * litre ∷ 95 * litre ∷ 110 * litre ∷ []

shore_reports-turns_example : shore_reports fresh_gate volts ≡ turns true (sides volts)
shore_reports-turns_example = shore_reports-turns volts fresh_gate

lost_and_back : turns true (sides volts) ≡ false ∷ true ∷ []
unfolding sides
lost_and_back = refl

abbrev feed : GpsConfig
feed = record default_gps { kind = "nmea"; host = "10.0.0.5"; dev_id = "brv_gps_1"; enabled = true }

abbrev answers : List (Outcome ℕ)
answers = fine 1 ∷ failed "timed out" ∷ failed "timed out" ∷ fine 2 ∷ []

passes-quiet_example : passes feed default_state answers ≡ expected 0 answers
passes-quiet_example = passes-quiet feed answers refl

one_line_each_way :
    expected 0 answers ≡ (false, none) ∷ (true, some 5) ∷ (false, some 10) ∷ (true, none) ∷ []
one_line_each_way = refl
