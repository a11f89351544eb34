-- ===== src/Geofence/Reply.antt =====
-- daemon/src/geofence.rs: the flat anchor object of a worker's reply. A JSON value is what the reader
-- tells apart in it: a number as `f64`, a text, or anything else.
use dock_neighbor_hub.Shared.{
  ℕ, not, ◌&&◌, Option, none, some, String, List, if◌then◌else◌, lookup, is_some, map_or, ◌==◌,
  trim,
}
use dock_neighbor_hub.Float.{Float64}
use dock_neighbor_hub.Geofence.{
  Geo, Circle, Zone, AnchorReply, disarm, arm, default_zone_streak, heartbeat_secs,
  armed_sample_secs,
}

pub data Json (V : Type 0) : Type 0 where
  number : V → Json V
  text : String → Json V
  other : Json V

pub data Body (V : Type 0) : Type 0 where
  object : List (String × Json V) → Body V
  no_object : Body V

module _ {V : Type 0} (f : Float64 V) (geo : Geo V) where
  -- `filter(|v| v.is_finite())`.
  unfoldable pub finite : Option V → Option V
  finite none = none
  finite (some v) = if f.is_finite v then some v else none

  unfoldable pub num_of : Option (Json V) → Option V
  unfolding finite
  num_of none = none
  num_of (some (number n)) = finite (some n)
  num_of (some (text s)) = finite (geo.of_text (trim s))
  num_of (some other) = none

  unfoldable pub num : List (String × Json V) → String → Option V
  unfolding num_of
  num o k = num_of (lookup k o)

  unfoldable pub circle_of : Option V → Option V → Option V → Option V → Option (Circle V)
  circle_of (some lat) (some lon) (some r) warn =
      if f.lt_f (f.lit 0 0) r
      then some (record {
        lat = lat;
        lon = lon;
        radius_m = r;
        warn_m = f.max_f (map_or warn (f.lit 0 0) (λ w. w)) (f.lit 0 0);
      })
      else none
  circle_of none lon r warn = none
  circle_of (some lat) none r warn = none
  circle_of (some lat) (some lon) none warn = none

  unfoldable pub zone_of : Option V → Option V → Option V → Option V → Option (Zone V)
  zone_of (some lat) (some lon) (some r) streak =
      if f.lt_f (f.lit 0 0) r
      then some (record {
        lat = lat;
        lon = lon;
        radius_m = r;
        streak = map_or streak default_zone_streak (λ s. geo.as_u32 (f.max_f s (f.lit 1 0)));
      })
      else none
  zone_of none lon r streak = none
  zone_of (some lat) none r streak = none
  zone_of (some lat) (some lon) none streak = none

  unfoldable pub watch_of : List (String × Json V) → ℕ → Option (AnchorReply V)
  unfolding circle_of zone_of
  watch_of o sig =
      let anchor = circle_of (num o "lat") (num o "lon") (num o "radiusM") (num o "warnM") in
      let zone = zone_of (num o "zoneCy") (num o "zoneCx") (num o "zoneR") (num o "zoneStreak") in
      if not (is_some anchor) && not (is_some zone)
      then none
      else some (
          arm (record {
            sig = sig;
            anchor = anchor;
            zone = zone;
            hb_secs =
                map_or (num o "hbSec") heartbeat_secs (λ s. geo.as_u64 (f.max_f s (f.lit 10 0)));
            sample_secs =
                map_or (num o "sampleSec") armed_sample_secs
                  (λ s. geo.as_u64 (f.max_f s (f.lit 5 0)));
          }))

  unfoldable pub signed_reply : List (String × Json V) → Option V → Option (AnchorReply V)
  unfolding watch_of
  signed_reply o none = none
  signed_reply o (some sig) =
      if f.lt_f sig (f.lit 0 0)
      then none
      else if geo.as_u64 sig == 0
      then some disarm
      else watch_of o (geo.as_u64 sig)

  unfoldable pub parse_anchor_object : Body V → Option (AnchorReply V)
  unfolding num signed_reply
  parse_anchor_object no_object = none
  parse_anchor_object (object o) = signed_reply o (num o "sig")
