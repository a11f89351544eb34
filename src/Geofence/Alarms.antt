-- ===== src/Geofence/Alarms.antt =====
-- The anchor alarm over the history of a GPS device's samples.
use dock_neighbor_hub.Shared.{
  String, ◌||◌, ℕ, ◌<◌, ◌∙◌, ap, ◌≡◌, refl, Bool, true, false, not, ◌&&◌, Option, none, some, List,
  [], ◌∷◌, ◌++◌, ◌==◌, leb, arith, length, any, str_eq,
}
use dock_neighbor_hub.Float.{Float64}
use dock_neighbor_hub.Geofence.{
  Geo, Circle, Zone, Watch, Sample, Event, Geofence, unreliable, anchor_needed,
}
use dock_neighbor_hub.Geofence.Observe.{
  observe, sync_watch, ring_step, drag_step, warn_step, anchor_step, zone_step, interval_of, away,
  slack, beyond, raised, ring_params, anchor_event, warn_event, zone_event, anchor_of, zone_in,
}
use dock_neighbor_hub.Geofence.Runs.{
  Fix, after, run, run_short, after-run, sync_watch-interval, sync_watch-ring,
}

-- Whether an alarm of the anchor is among the events.
abbrev pub alarms : List Event → Bool
alarms es = any (λ e. str_eq e.0 anchor_event) es

module _ {V : Type 0} (f : Float64 V) (geo : Geo V) where
  alarms_append : (es ds : List Event) → alarms (es ++ ds) ≡ (alarms es || alarms ds)
  alarms_append [] ds = refl
  alarms_append (e ∷ es) ds = ground (arith, alarms_append es ds)

  raised_other :
      (b : Bool) (p q : List (String × String))
      → (alarms (raised b (warn_event, p)) ≡ false) × (alarms (raised b (zone_event, q)) ≡ false)
  raised_other true p q = (refl, refl)
  raised_other false p q = (refl, refl)

  raised_own : (b : Bool) (p : List (String × String)) → alarms (raised b (anchor_event, p)) ≡ b
  raised_own true p = refl
  raised_own false p = refl

  warn_step-alarms :
      (a : Circle V) (s : Sample V) (g : Geofence V) → alarms (warn_step f geo a s g).1 ≡ false
  unfolding warn_step
  warn_step-alarms a s g = grind (arith, raised_other)

  zone_step-alarms :
      (z : Option (Zone V)) (bad : Bool) (s : Sample V) (g : Geofence V)
      → alarms (zone_step f geo z bad s g).1 ≡ false
  unfolding zone_step
  zone_step-alarms none bad s g = refl
  zone_step-alarms (some z) true s g = refl
  zone_step-alarms (some z) false s g = grind (arith, raised_other)

  anchor_step-alarms :
      (o : Option (Circle V)) (a : Circle V) (bad : Bool) (s : Sample V) (g : Geofence V)
      → o ≡ some a
      → alarms (anchor_step f geo o bad s g).1 ≡ (
          not bad
          && (ring_step anchor_needed
              (beyond f geo (away f geo a s) a.radius_m (slack f geo s))
              g.anchor_streak
              g.anchor_alerted).2)
  unfolding anchor_step drag_step
  anchor_step-alarms o a true s g e = rw e refl
  anchor_step-alarms o a false s g e = rw e (
      let d = drag_step f geo a s g in
      let r =
        ring_step anchor_needed (beyond f geo (away f geo a s) a.radius_m (slack f geo s))
          g.anchor_streak g.anchor_alerted in
      ground (
        arith,
        alarms_append d.1 (warn_step f geo a s d.0).1,
        warn_step-alarms a s d.0,
        raised_own r.2 (ring_params f geo (away f geo a s) a.radius_m s),
      ))

  observe-alarms :
      (o : Option (Watch V)) (s : Sample V) (now : ℕ) (l : Bool) (g : Geofence V)
      → (let synced = sync_watch o g in
          alarms (observe f geo o s now l g).1.events
          ≡ alarms
              (anchor_step f geo (anchor_of o) (unreliable f s (interval_of o synced)) s synced).1)
  unfolding observe
  observe-alarms o s now l g =
      let synced = sync_watch o g in
      let bad = unreliable f s (interval_of o synced) in
      let a = anchor_step f geo (anchor_of o) bad s synced in
      let z = zone_step f geo (zone_in o) bad s a.0 in
      let e = alarms_append a.1 z.1 in
      let n = zone_step-alarms (zone_in o) bad s a.0 in ground (arith, e, n)

  -- Under an armed anchor watch the drag alarm is raised at a sample exactly when the sample is
  -- reliable and the second of a run of reliable samples outside the circle: never at the first, and
  -- once for a run however long, for histories of fewer than 2 ^ 32 samples.
  pub observe-alarms_at_second :
      (w : Watch V) (a : Circle V) (x : Fix V) (h : List (Fix V))
      → w.anchor ≡ some a
      → length (x ∷ h) < 4294967296
      → alarms (observe f geo (some w) x.sample x.at x.leased (after f geo (some w) h)).1.events
        ≡ (not (unreliable f x.sample w.sample_secs) && run f geo w a (x ∷ h) == 2)
  unfolding run ring_step
  observe-alarms_at_second w a x h e b =
      let g = after f geo (some w) h in
      let synced = sync_watch (some w) g in
      let ih = after-run f geo w a h e (omega (arith, b)) in
      let o = observe-alarms (some w) x.sample x.at x.leased g in
      let i = sync_watch-interval f geo w a g e in
      let y = sync_watch-ring f geo w g ih.2 in
      let y1 : synced.anchor_streak ≡ run f geo w a h = ap (λ t. t.1) y ∙ ih.0 in
      let y2 : synced.anchor_alerted ≡ leb anchor_needed (run f geo w a h) =
        ap (λ t. t.2) y ∙ ih.1 in
      let r =
        anchor_step-alarms w.anchor a (unreliable f x.sample w.sample_secs) x.sample synced e in
      rw (o, i, r, y1, y2) (ground (arith, run_short f geo w a h))
