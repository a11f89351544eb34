-- ===== src/Cadence/Watch.antt =====
-- daemon/src/cadence.rs: what an armed watch does to the keyframe, its interval and the fix in it.
use dock_neighbor_hub.Shared.{
  ℕ, ◌*◌, Bool, false, not, ◌||◌, Option, none, some, is_some, ltb, if◌then◌else◌,
}
use dock_neighbor_hub.Geofence.{Geofence, Watch, heartbeat_secs, heartbeat_inside_secs}
use dock_neighbor_hub.Cadence.{checkin_secs, checkin_zone_secs, checkin_anchor_secs}

abbrev max_keyframe_fix_age_ms : ℕ
max_keyframe_fix_age_ms = 60 * 60 * 1000

abbrev anchor_heartbeat_secs : Bool → ℕ
anchor_heartbeat_secs breaching = if breaching then heartbeat_secs else heartbeat_inside_secs

module _ {V : Type 0} where
  abbrev checkin_interval_secs : Option (Watch V) → ℕ
  checkin_interval_secs none = checkin_secs
  checkin_interval_secs (some w) =
      if is_some w.anchor
      then checkin_anchor_secs
      else if is_some w.zone
      then checkin_zone_secs
      else checkin_secs

  -- An age below zero, of a clock that was set back, is no older than zero.
  abbrev keyframe_carries_fix : Geofence V → Bool → ℕ → Bool
  keyframe_carries_fix g leased fix_age_ms =
      if ltb max_keyframe_fix_age_ms fix_age_ms
      then false
      else leased || (not g.anchor_armed || g.underway)
