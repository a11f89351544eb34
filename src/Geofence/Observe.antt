-- ===== src/Geofence/Observe.antt =====
-- daemon/src/geofence.rs: `Geofence` and its step on one sample. `observe` is composed of the parts
-- its body has: the watch adopted, the rings, the trip, and whether the position is sent.
use dock_neighbor_hub.Shared.{
  ℕ, ◌+◌, ◌-◌, ◌*◌, Bool, true, false, not, ◌&&◌, ◌||◌, Option, none, some, String, List, [], ◌∷◌,
  ◌++◌, if◌then◌else◌, is_some, is_some_and, map_or, leb, ◌==◌, u32,
}
use dock_neighbor_hub.Float.{Float64}
use dock_neighbor_hub.Geofence.{
  Geo, Circle, Zone, Watch, Sample, Event, Decision, Geofence, distance_m, unreliable,
  anchor_needed, armed_sample_secs, underway_enter_streak, underway_exit_ms, underway_send_secs,
}

abbrev pub anchor_event : String
anchor_event = "anchor.motion"

abbrev pub warn_event : String
warn_event = "anchor.warn.motion"

abbrev pub zone_event : String
zone_event = "zone.motion"

abbrev pub watch_sig : {V : Type 0} → Option (Watch V) → ℕ
watch_sig none = 0
watch_sig (some w) = w.sig

abbrev pub has_anchor : {V : Type 0} → Option (Watch V) → Bool
has_anchor none = false
has_anchor (some w) = is_some w.anchor

abbrev pub anchor_of : {V : Type 0} → Option (Watch V) → Option (Circle V)
anchor_of none = none
anchor_of (some w) = w.anchor

abbrev pub zone_in : {V : Type 0} → Option (Watch V) → Option (Zone V)
zone_in none = none
zone_in (some w) = w.zone

module _ {V : Type 0} where
  unfoldable pub armed : Geofence V → Bool
  armed g = not (g.sig == 0)

  unfoldable pub anchor_breaching : Geofence V → Bool
  anchor_breaching g = g.anchor_armed && leb anchor_needed g.anchor_streak

  unfoldable pub wants_fast_sampling : Geofence V → Bool
  wants_fast_sampling g = g.anchor_armed || g.underway

  unfoldable pub mark_sent : V → V → Geofence V → Geofence V
  mark_sent lat lon g = record g { last_sent = some (lat, lon) }

  unfoldable pub sync_watch : Option (Watch V) → Geofence V → Geofence V
  sync_watch watch g =
      if watch_sig watch == g.sig then record g { anchor_armed = has_anchor watch } else record g {
        anchor_armed = has_anchor watch;
        final_fix_owed = g.final_fix_owed || (not (g.sig == 0) && watch_sig watch == 0);
        sig = watch_sig watch;
        anchor_streak = 0;
        warn_streak = 0;
        zone_streak = 0;
        anchor_alerted = false;
        warn_alerted = false;
        zone_alerted = false;
      }

  unfoldable pub interval_of : Option (Watch V) → Geofence V → ℕ
  unfolding wants_fast_sampling
  interval_of watch g =
      if wants_fast_sampling g then map_or watch armed_sample_secs (λ w. w.sample_secs) else 60

-- One ring on one reliable sample, whether it lies outside given: the streak, the latch and whether
-- the alarm is raised now.
unfoldable pub ring_step : ℕ → Bool → ℕ → Bool → ℕ × Bool × Bool
ring_step needed false streak alerted = (0, false, false)
ring_step needed true streak alerted =
    if leb needed (u32 (streak + 1)) && not alerted
    then (u32 (streak + 1), true, true)
    else (u32 (streak + 1), alerted, false)

abbrev pub raised : Bool → Event → List Event
raised true e = e ∷ []
raised false e = []

module _ {V : Type 0} (f : Float64 V) (geo : Geo V) where
  -- `s.acc.unwrap_or(0.0).max(0.0)`.
  unfoldable pub slack : Sample V → V
  slack s = f.max_f (map_or s.acc (f.lit 0 0) (λ a. a)) (f.lit 0 0)

  unfoldable pub ring_params : V → V → Sample V → List (String × String)
  ring_params dist limit s =
      ("dist", geo.rounded dist)
      ∷ ("limit", geo.rounded limit)
      ∷ ("lat", geo.fixed6 s.lat)
      ∷ ("lon", geo.fixed6 s.lon)
      ∷ []

  unfoldable pub away : Circle V → Sample V → V
  away a s = distance_m f geo a.lat a.lon s.lat s.lon

  -- `dist > limit`.
  unfoldable pub beyond : V → V → V → Bool
  beyond dist radius acc = f.lt_f (f.add_f radius acc) dist

  unfoldable pub within : V → V → V → Bool
  within dist radius acc = f.le_f dist (f.add_f radius acc)

  unfoldable pub warn_step : Circle V → Sample V → Geofence V → Geofence V × List Event
  unfolding slack away beyond within ring_params ring_step
  warn_step a s g =
      let dist = away a s in
      let r =
        ring_step anchor_needed (beyond dist a.warn_m (slack s)) g.warn_streak g.warn_alerted in
      if f.lt_f (f.lit 0 0) a.warn_m && within dist a.radius_m (slack s)
      then (
        record g { warn_streak = r.0; warn_alerted = r.1 },
        raised r.2 (warn_event, ring_params dist a.warn_m s),
      )
      else (g, [])

  unfoldable pub drag_step : Circle V → Sample V → Geofence V → Geofence V × List Event
  unfolding slack away beyond ring_params ring_step
  drag_step a s g =
      let dist = away a s in
      let r =
        ring_step anchor_needed (beyond dist a.radius_m (slack s)) g.anchor_streak
          g.anchor_alerted in
      (
        record g { anchor_streak = r.0; anchor_alerted = r.1 },
        raised r.2 (anchor_event, ring_params dist a.radius_m s),
      )

  unfoldable pub anchor_step :
      Option (Circle V) → Bool → Sample V → Geofence V → Geofence V × List Event
  unfolding drag_step warn_step
  anchor_step none bad s g = (g, [])
  anchor_step (some a) true s g = (g, [])
  anchor_step (some a) false s g =
      let dragged = drag_step a s g in
      let warned = warn_step a s dragged.0 in (warned.0, dragged.1 ++ warned.1)

  unfoldable pub zone_step :
      Option (Zone V) → Bool → Sample V → Geofence V → Geofence V × List Event
  unfolding slack beyond ring_params ring_step
  zone_step none bad s g = (g, [])
  zone_step (some z) true s g = (g, [])
  zone_step (some z) false s g =
      let dist = distance_m f geo z.lat z.lon s.lat s.lon in
      let r = ring_step z.streak (beyond dist z.radius_m (slack s)) g.zone_streak g.zone_alerted in
      (
        record g { zone_streak = r.0; zone_alerted = r.1 },
        raised r.2 (zone_event, ring_params dist z.radius_m s),
      )

  -- Whether the sample lies inside, and how far from the center: the anchor's circle, else the zone.
  unfoldable pub place : Option (Circle V) → Option (Zone V) → Sample V → Option (Bool × V)
  unfolding away within slack
  place (some a) z s = some (within (away a s) a.radius_m (slack s), away a s)
  place none (some z) s =
      let dist = distance_m f geo z.lat z.lon s.lat s.lon in
      some (within dist z.radius_m (slack s), dist)
  place none none s = none

  abbrev pub far_from : Option (V × V) → Sample V → V → Bool
  far_from none s m = false
  far_from (some p) s m = f.le_f m (distance_m f geo p.0 p.1 s.lat s.lon)

  unfoldable pub moving : Option (V × V) → Sample V → Bool
  moving last_sent s =
      is_some_and s.sog_kn (λ v. f.le_f (f.lit 15 1) v) || far_from last_sent s (f.lit 50 0)

  unfoldable pub slow : Sample V → Bool
  slow s = map_or s.sog_kn true (λ v. f.lt_f v (f.lit 5 1))

  abbrev pub near : V → V → Sample V → Bool
  near la lo s = f.lt_f (distance_m f geo la lo s.lat s.lon) (f.lit 25 0)

  unfoldable pub enter_step : Sample V → Geofence V → Geofence V × Option Bool
  unfolding moving
  enter_step s g =
      let n = if moving g.last_sent s then u32 (g.enter_streak + 1) else 0 in
      if leb underway_enter_streak n
      then (record g { underway = true; enter_streak = 0; slow_since = none }, some true)
      else (record g { enter_streak = n }, none)

  unfoldable pub calm_step :
      Option (ℕ × V × V) → Sample V → ℕ → Geofence V → Geofence V × Option Bool
  calm_step none s now_ms g = (record g { slow_since = some (now_ms, s.lat, s.lon) }, none)
  calm_step (some (t, la, lo)) s now_ms g =
      if near la lo s
      then (if leb underway_exit_ms (now_ms - t)
          then (record g { underway = false; slow_since = none }, some false)
          else (g, none))
      else (record g { slow_since = some (now_ms, s.lat, s.lon) }, none)

  unfoldable pub exit_step : Sample V → ℕ → Geofence V → Geofence V × Option Bool
  unfolding slow calm_step
  exit_step s now_ms g =
      if slow s then calm_step g.slow_since s now_ms g else (record g { slow_since = none }, none)

  unfoldable pub trip_step : Bool → Sample V → ℕ → Geofence V → Geofence V × Option Bool
  unfolding enter_step exit_step
  trip_step true s now_ms g = (record g { enter_streak = 0; slow_since = none }, none)
  trip_step false s now_ms g = if g.underway then exit_step s now_ms g else enter_step s g

  abbrev pub track_due : Option ℕ → ℕ → Bool
  track_due none now_ms = true
  track_due (some t) now_ms = leb (underway_send_secs * 1000) (now_ms - t)

  abbrev pub drifted : Option (V × V) → Sample V → V → Bool
  drifted none s acc = true
  drifted (some p) s acc =
      let moved = distance_m f geo p.0 p.1 s.lat s.lon in
      f.le_f (f.lit 50 0) moved && f.lt_f (f.mul_f (f.lit 2 0) acc) moved

  -- The send where nobody watches, no fix is owed and no trip began or ended.
  unfoldable pub routine_send : Sample V → ℕ → Bool → Geofence V → Geofence V × Bool
  unfolding slack
  routine_send s now_ms breach g =
      if g.underway
      then (if track_due g.underway_sent_ms now_ms
          then (record g { underway_sent_ms = some now_ms }, true)
          else (g, g.anchor_armed && breach))
      else if g.anchor_armed
      then (g, breach)
      else (g, drifted g.last_sent s (slack s))

  unfoldable pub send_step :
      Bool → Option Bool → Sample V → ℕ → Bool → Geofence V → Geofence V × Bool
  unfolding routine_send
  send_step leased changed s now_ms breach g =
      if leased
      then (g, true)
      else if g.final_fix_owed
      then (record g { final_fix_owed = false }, true)
      else if is_some changed
      then (record g { underway_sent_ms = if g.underway then some now_ms else none }, true)
      else routine_send s now_ms breach g

  unfoldable pub observe :
      Option (Watch V) → Sample V → ℕ → Bool → Geofence V → Geofence V × Decision
  unfolding sync_watch anchor_step zone_step trip_step send_step interval_of place
  observe watch s now_ms leased g =
      let synced = sync_watch watch g in
      let bad = unreliable f s (interval_of watch synced) in
      let a = anchor_step (anchor_of watch) bad s synced in
      let breach = has_anchor watch && leb anchor_needed a.0.anchor_streak in
      let z = zone_step (zone_in watch) bad s a.0 in
      let t = trip_step bad s now_ms z.0 in
      let sent = send_step leased t.1 s now_ms breach t.0 in
      let at = place (anchor_of watch) (zone_in watch) s in
      (
        record (sent.0) {
          last = some (record {
            sample = s;
            at_ms = now_ms;
            inside = map_or at none (λ p. some p.0);
            dist_from_center_m = map_or at none (λ p. some p.1);
            unreliable = bad;
          });
        },
        record { send_position = sent.1; events = a.1 ++ z.1; underway_changed = t.1 },
      )
