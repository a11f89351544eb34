-- ===== src/Geofence.antt =====
-- daemon/src/geofence.rs: the anchor watch, the security zone and the trip detection of a GPS device.
-- This file has the data, the thresholds and the tests on one sample.
pub mod Reply
pub mod Observe
pub mod Heartbeats
pub mod Runs
pub mod Alarms
pub mod Replies
pub mod Sends
pub mod Trips
use dock_neighbor_hub.Shared.{
  ℕ, ◌*◌, ◌+◌, max, min, Bool, true, false, ◌||◌, Option, none, some, String, List, if◌then◌else◌,
  is_some_and, ltb,
}
use dock_neighbor_hub.Float.{Float64}

-- What else the geofence needs of `f64`: the functions of the standard library, the casts to
-- integers, and the printing and reading of numbers.
pub record Geo (V : Type 0) : Type 0 where
  pub pi : V
  pub sin_f : V → V
  pub cos_f : V → V
  pub sqrt_f : V → V
  pub atan2_f : V → V → V
  pub min_f : V → V → V
  pub as_u64 : V → ℕ
  pub as_u32 : V → ℕ
  pub rounded : V → String
  pub fixed1 : V → String
  pub fixed6 : V → String
  pub of_text : String → Option V

abbrev pub armed_sample_secs : ℕ
armed_sample_secs = 30

abbrev pub heartbeat_secs : ℕ
heartbeat_secs = 60

abbrev pub heartbeat_inside_secs : ℕ
heartbeat_inside_secs = 300

-- `ANCHOR_STREAK`.
abbrev pub anchor_needed : ℕ
anchor_needed = 2

abbrev pub default_zone_streak : ℕ
default_zone_streak = 3

abbrev pub underway_enter_streak : ℕ
underway_enter_streak = 2

abbrev pub underway_exit_ms : ℕ
underway_exit_ms = 5 * 60000

abbrev pub underway_send_secs : ℕ
underway_send_secs = 300

abbrev pub unreliable_min_sats : ℕ
unreliable_min_sats = 4

pub record Circle (V : Type 0) : Type 0 where
  pub lat : V
  pub lon : V
  pub radius_m : V
  pub warn_m : V

pub record Zone (V : Type 0) : Type 0 where
  pub lat : V
  pub lon : V
  pub radius_m : V
  pub streak : ℕ

pub record Watch (V : Type 0) : Type 0 where
  pub sig : ℕ
  pub anchor : Option (Circle V)
  pub zone : Option (Zone V)
  pub hb_secs : ℕ
  pub sample_secs : ℕ

pub data AnchorReply (V : Type 0) : Type 0 where
  disarm : AnchorReply V
  arm : Watch V → AnchorReply V

pub record Sample (V : Type 0) : Type 0 where
  pub lat : V
  pub lon : V
  pub acc : Option V
  pub hdop : Option V
  pub sats : Option ℕ
  pub sog_kn : Option V
  pub fix_age_s : V

pub record Observed (V : Type 0) : Type 0 where
  pub sample : Sample V
  pub at_ms : ℕ
  pub inside : Option Bool
  pub dist_from_center_m : Option V
  pub unreliable : Bool

-- An event with its parameters.
abbrev pub Event : Type 0
Event = String × List (String × String)

pub record Decision : Type 0 where
  pub send_position : Bool
  pub events : List Event
  pub underway_changed : Option Bool

pub record Geofence (V : Type 0) : Type 0 where
  pub sig : ℕ
  pub anchor_armed : Bool
  pub last_sent : Option (V × V)
  pub anchor_streak : ℕ
  pub warn_streak : ℕ
  pub zone_streak : ℕ
  pub anchor_alerted : Bool
  pub warn_alerted : Bool
  pub zone_alerted : Bool
  pub final_fix_owed : Bool
  pub underway : Bool
  pub enter_streak : ℕ
  pub slow_since : Option (ℕ × V × V)
  pub underway_sent_ms : Option ℕ
  pub last : Option (Observed V)

-- `Geofence::default()`.
abbrev pub fresh_geofence : {V : Type 0} → Geofence V
fresh_geofence = record {
  sig = 0;
  anchor_armed = false;
  last_sent = none;
  anchor_streak = 0;
  warn_streak = 0;
  zone_streak = 0;
  anchor_alerted = false;
  warn_alerted = false;
  zone_alerted = false;
  final_fix_owed = false;
  underway = false;
  enter_streak = 0;
  slow_since = none;
  underway_sent_ms = none;
  last = none;
}

module _ {V : Type 0} (f : Float64 V) (geo : Geo V) where
  unfoldable pub distance_m : V → V → V → V → V
  distance_m lat1 lon1 lat2 lon2 =
      let r = f.div_f geo.pi (f.lit 180 0) in
      let two = f.lit 2 0 in
      let one = f.lit 1 0 in
      let dla = f.mul_f (f.sub_f lat2 lat1) r in
      let dlo = f.mul_f (f.sub_f lon2 lon1) r in
      let sa = geo.sin_f (f.div_f dla two) in
      let sb = geo.sin_f (f.div_f dlo two) in
      let across = f.mul_f (geo.cos_f (f.mul_f lat1 r)) (geo.cos_f (f.mul_f lat2 r)) in
      let a = geo.min_f (f.add_f (f.mul_f sa sa) (f.mul_f (f.mul_f across sb) sb)) one in
      f.mul_f (f.mul_f two (f.lit 6371000 0))
        (geo.atan2_f (geo.sqrt_f a) (geo.sqrt_f (f.sub_f one a)))

module _ {V : Type 0} (f : Float64 V) where
  unfoldable pub deadband_m : V → V
  deadband_m configured =
      if f.is_finite configured then f.max_f configured (f.lit 25 0) else f.lit 50 0

  unfoldable pub unreliable : Sample V → ℕ → Bool
  unreliable s sample_secs =
      is_some_and s.hdop (λ h. f.lt_f (f.lit 5 0) h)
      || (is_some_and s.sats (λ n. ltb n unreliable_min_sats)
          || f.lt_f (f.mul_f (f.lit 3 0) (f.lit sample_secs 0)) s.fix_age_s)

-- How often a source is sampled.
unfoldable pub sample_secs_of : Bool → Bool → Bool → Bool → ℕ → ℕ
sample_secs_of fast leased lan_live nmea idle_secs =
    if lan_live
    then (if nmea then 1 else 10)
    else if leased
    then (if nmea then 10 else 30)
    else if fast
    then min armed_sample_secs (max idle_secs 1)
    else idle_secs
