-- ===== src/Examples/Markers.antt =====
-- The marker of an update from 0.3.50 to 0.3.51.
use dock_neighbor_hub.Shared.{◌≡◌, refl, some, arith, codes, is_whitespace}
use dock_neighbor_hub.Probation.{Probation, pos, write_marker, parse_marker}
use dock_neighbor_hub.Probation.Digits.{IsPlain}
use dock_neighbor_hub.Probation.Markers.{parse_marker-write_marker}

abbrev on_trial : Probation
on_trial = record { from = codes "0.3.50"; to = codes "0.3.51"; deadline_ms = pos 1790000000000 }

versions-IsPlain : IsPlain (codes "0.3.50") × IsPlain (codes "0.3.51")
unfolding is_whitespace
versions-IsPlain = (refl, refl)

parse_marker-write_marker_example : parse_marker (write_marker on_trial) ≡ some on_trial
parse_marker-write_marker_example =
    parse_marker-write_marker on_trial versions-IsPlain.0 versions-IsPlain.1 refl refl refl
      (omega arith)
