-- ===== src/Examples/Geofences.antt =====
-- A boat at anchor that drags and one that comes to rest. The stand-in for the functions of `f64`
-- keeps the plane flat: a degree is far outside every circle here.
use dock_neighbor_hub.Shared.{
  ℕ, ◌-◌, ◌/◌, ◌≡◌, min, refl, true, false, not, ◌&&◌, ◌||◌, none, some, List, [], ◌∷◌, arith, leb,
  ◌==◌, decimal, is_some,
}
use dock_neighbor_hub.Examples.Valves.{billionths}
use dock_neighbor_hub.Geofence.{
  Geo, Circle, Watch, Sample, unreliable, distance_m, underway_exit_ms, anchor_needed,
}
use dock_neighbor_hub.Geofence.Observe.{
  observe, track_due, sync_watch, interval_of, watch_sig, mark_sent, wants_fast_sampling,
  anchor_step, drag_step, warn_step, zone_step, trip_step, enter_step, exit_step, calm_step,
  send_step, routine_send, ring_step, slack, away, beyond, within, ring_params, place, moving, slow,
}
use dock_neighbor_hub.Geofence.Reply.{number, Body, object}
use dock_neighbor_hub.Geofence.Runs.{Fix, after, run}
use dock_neighbor_hub.Geofence.Alarms.{alarms, observe-alarms_at_second}
use dock_neighbor_hub.Geofence.Sends.{observe-sends_armed}
use dock_neighbor_hub.Geofence.Trips.{Resting, observe-ends_rested}
use dock_neighbor_hub.Geofence.Replies.{held_of, observe-unreliable}

abbrev flat : Geo ℕ
flat = record {
  pi = billionths.lit 180 0;
  sin_f = λ a. a;
  cos_f = λ a. 0;
  sqrt_f = λ a. a;
  atan2_f = λ a b. a;
  min_f = min;
  as_u64 = λ a. a / 1000000000;
  as_u32 = λ a. a / 1000000000;
  rounded = λ a. decimal (a / 1000000000);
  fixed1 = λ a. decimal (a / 1000000000);
  fixed6 = λ a. decimal (a / 1000000000);
  of_text = λ s. none;
}

abbrev circle : Circle ℕ
circle = record { lat = 0; lon = 0; radius_m = billionths.lit 50 0; warn_m = 0 }

abbrev anchored : Watch ℕ
anchored = record { sig = 7; anchor = some circle; zone = none; hb_secs = 60; sample_secs = 30 }

abbrev sample_at : ℕ → ℕ → Sample ℕ
sample_at lat sats = record {
  lat = lat;
  lon = 0;
  acc = none;
  hdop = none;
  sats = some sats;
  sog_kn = none;
  fix_age_s = 0;
}

abbrev fix_at : ℕ → ℕ → Fix ℕ
fix_at lat at = record { sample = sample_at lat 9; at = at; leased = false; marked = some (0, 0) }

abbrev degree : ℕ
degree = 1000000000

abbrev drag : List (Fix ℕ)
drag = fix_at degree 60000 ∷ fix_at 0 30000 ∷ []

-- The second sample outside is the alarm.
drag-alarms :
    alarms
      (observe billionths flat
        (some anchored)
        (sample_at degree 9)
        90000
        false
        (after billionths flat (some anchored) drag)).1.events
    ≡ true
unfolding observe after mark_sent sync_watch interval_of wants_fast_sampling anchor_step drag_step
    warn_step zone_step trip_step enter_step exit_step calm_step send_step routine_send ring_step
    slack away beyond within ring_params place moving slow unreliable distance_m
drag-alarms = refl

observe-alarms_at_second_example :
    alarms
      (observe billionths flat
        (some anchored)
        (sample_at degree 9)
        90000
        false
        (after billionths flat (some anchored) drag)).1.events
    ≡ (not (unreliable billionths (sample_at degree 9) 30)
        && run billionths flat anchored circle (fix_at degree 90000 ∷ drag) == 2)
observe-alarms_at_second_example =
    observe-alarms_at_second billionths flat anchored circle (fix_at degree 90000) drag refl
      (omega arith)

observe-sends_armed_example :
    (let g = after billionths flat (some anchored) drag in
      let d = (observe billionths flat (some anchored) (sample_at degree 9) 90000 false g).1 in
      d.send_position ≡ (
        false
        || (is_some d.underway_changed
            || ((g.underway && track_due billionths flat g.underway_sent_ms 90000)
                || leb anchor_needed
                    (run billionths flat anchored circle (fix_at degree 90000 ∷ drag))))))
observe-sends_armed_example =
    observe-sends_armed billionths flat anchored circle (fix_at degree 90000) drag refl
      (omega arith)

-- Two samples a degree from the position last sent begin a trip; then the boat lies still.
abbrev trip : List (Fix ℕ)
trip = fix_at degree 120000 ∷ fix_at degree 90000 ∷ fix_at degree 60000 ∷ fix_at 0 30000 ∷ []

trip_ends :
    (observe billionths flat
      (some anchored)
      (sample_at degree 9)
      420000
      false
      (after billionths flat (some anchored) trip)).1.underway_changed
    ≡ some false
unfolding observe after mark_sent sync_watch interval_of wants_fast_sampling anchor_step drag_step
    warn_step zone_step trip_step enter_step exit_step calm_step send_step routine_send ring_step
    slack away beyond within ring_params place moving slow unreliable distance_m
trip_ends = refl

observe-ends_rested_example :
    (t : ℕ) × (la : ℕ) × (lo : ℕ) × Resting billionths flat 30 (fix_at degree 420000 ∷ trip) t la lo
    × (leb underway_exit_ms (420000 - t) ≡ true)
observe-ends_rested_example =
    observe-ends_rested billionths flat (some anchored) (fix_at degree 420000) trip trip_ends

few_satellites :
    ((watch_sig (some anchored) == (after billionths flat (some anchored) drag).sig) ≡ true)
    × (unreliable billionths (sample_at degree 3) (
          interval_of
            (some anchored)
            (sync_watch (some anchored) (after billionths flat (some anchored) drag)))
        ≡ true)
unfolding observe after mark_sent sync_watch interval_of wants_fast_sampling anchor_step drag_step
    warn_step zone_step trip_step enter_step exit_step calm_step send_step routine_send ring_step
    slack away beyond within ring_params place moving slow unreliable distance_m
few_satellites = (refl, refl)

observe-unreliable_example :
    (let r =
        observe billionths flat
          (some anchored)
          (sample_at degree 3)
          90000
          false
          (after billionths flat (some anchored) drag) in
      (held_of r.0 ≡ held_of (after billionths flat (some anchored) drag))
      × (r.1.events ≡ [])
      × (r.1.underway_changed ≡ none))
observe-unreliable_example =
    observe-unreliable billionths flat (some anchored) (sample_at degree 3) 90000 false
      (after billionths flat (some anchored) drag) few_satellites.0 few_satellites.1

abbrev armed_body : Body ℕ
armed_body = object (
    ("sig", number (billionths.lit 7 0))
    ∷ ("lat", number 0)
    ∷ ("lon", number 0)
    ∷ ("radiusM", number (billionths.lit 50 0))
    ∷ [])
