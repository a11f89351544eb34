-- ===== src/Geofence/Runs.antt =====
-- The rings over the history of a GPS device's samples.
use dock_neighbor_hub.Shared.{
  ℕ, ◌<◌, ◌≤◌, ◌⊎◌, ◌∙◌, ap, ◌≡◌, refl, Bool, true, false, not, ◌&&◌, Option, none, some, List, [],
  ◌∷◌, leb, if◌then◌else◌, arith, length, keep, inr,
}
use dock_neighbor_hub.Float.{Float64}
use dock_neighbor_hub.Geofence.{
  Geo, Circle, Zone, Watch, Sample, Geofence, unreliable, fresh_geofence, anchor_needed,
}
use dock_neighbor_hub.Geofence.Observe.{
  observe, mark_sent, sync_watch, ring_step, drag_step, warn_step, anchor_step, zone_step,
  trip_step, enter_step, exit_step, calm_step, send_step, routine_send, interval_of,
  wants_fast_sampling, away, slack, beyond, anchor_of, zone_in, has_anchor,
}

-- A sample with when it was taken, whether a member was watching, and the position that was then
-- recorded as having reached the cloud, if any.
pub record Fix (V : Type 0) : Type 0 where
  pub sample : Sample V
  pub at : ℕ
  pub leased : Bool
  pub marked : Option (V × V)

-- The samples up to the first that fails the test.
abbrev pub take_while {ℓ} : {A : Type ℓ} → (A → Bool) → List A → List A
take_while p [] = []
take_while p (x ∷ xs) = if p x then x ∷ take_while p xs else []

-- What of a device the alarm ring reads.
abbrev pub ring_of : {V : Type 0} → Geofence V → ℕ × ℕ × Bool
ring_of g = (g.sig, g.anchor_streak, g.anchor_alerted)

module _ {V : Type 0} (f : Float64 V) (geo : Geo V) where
  abbrev pub marking : Option (V × V) → Geofence V → Geofence V
  marking none g = g
  marking (some p) g = mark_sent p.0 p.1 g

  -- The device after a history under one watch, newest sample first.
  unfoldable pub after : Option (Watch V) → List (Fix V) → Geofence V
  after o [] = fresh_geofence
  after o (x ∷ h) = marking x.marked (observe f geo o x.sample x.at x.leased (after o h)).0

  pub marking-ring : (m : Option (V × V)) (g : Geofence V) → ring_of (marking m g) ≡ ring_of g
  unfolding mark_sent
  marking-ring none g = refl
  marking-ring (some p) g = refl

  pub warn_step-ring :
      (a : Circle V) (s : Sample V) (g : Geofence V) → ring_of (warn_step f geo a s g).0 ≡ ring_of g
  unfolding warn_step
  warn_step-ring a s g = ground arith

  pub zone_step-ring :
      (z : Option (Zone V)) (bad : Bool) (s : Sample V) (g : Geofence V)
      → ring_of (zone_step f geo z bad s g).0 ≡ ring_of g
  unfolding zone_step
  zone_step-ring z bad s g = ground arith

  pub trip_step-ring :
      (bad : Bool) (s : Sample V) (now : ℕ) (g : Geofence V)
      → ring_of (trip_step f geo bad s now g).0 ≡ ring_of g
  unfolding trip_step enter_step exit_step calm_step
  trip_step-ring bad s now g = ground arith

  pub send_step-ring :
      (leased : Bool) (c : Option Bool) (s : Sample V) (now : ℕ) (breach : Bool) (g : Geofence V)
      → ring_of (send_step f geo leased c s now breach g).0 ≡ ring_of g
  unfolding send_step routine_send
  send_step-ring leased c s now breach g = ground arith

  -- The current run: the reliable samples outside the circle since the last one inside.
  unfoldable pub run : Watch V → Circle V → List (Fix V) → ℕ
  run w a h = length (
      take_while (λ x. beyond f geo (away f geo a x.sample) a.radius_m (slack f geo x.sample))
        (keep (λ x. not (unreliable f x.sample w.sample_secs)) h))

  take_while_short : (p : Fix V → Bool) (h : List (Fix V)) → length (take_while p h) ≤ length h
  take_while_short p [] = omega arith
  take_while_short p (x ∷ h) = ground (arith, take_while_short p h)

  keep_short : (p : Fix V → Bool) (h : List (Fix V)) → length (keep p h) ≤ length h
  keep_short p [] = omega arith
  keep_short p (x ∷ h) = ground (arith, keep_short p h)

  pub run_short : (w : Watch V) (a : Circle V) (h : List (Fix V)) → run w a h ≤ length h
  unfolding run
  run_short w a h = omega (
    arith,
    take_while_short (λ x. beyond f geo (away f geo a x.sample) a.radius_m (slack f geo x.sample))
        (keep (λ x. not (unreliable f x.sample w.sample_secs)) h),
    keep_short (λ x. not (unreliable f x.sample w.sample_secs)) h,
  )

  -- One sample on the alarm ring, once the watch is adopted.
  anchor_step-ring :
      (o : Option (Circle V)) (a : Circle V) (bad : Bool) (s : Sample V) (g : Geofence V)
      → o ≡ some a
      → ring_of (anchor_step f geo o bad s g).0 ≡ (
          if bad
          then ring_of g
          else (let r =
                ring_step anchor_needed
                  (beyond f geo (away f geo a s) a.radius_m (slack f geo s))
                  g.anchor_streak
                  g.anchor_alerted in
              (g.sig, r.0, r.1)))
  unfolding anchor_step drag_step
  anchor_step-ring o a true s g e = rw e refl
  anchor_step-ring o a false s g e = rw e (warn_step-ring a s (drag_step f geo a s g).0)

  pub sync_watch-ring :
      (w : Watch V) (g : Geofence V)
      → (g.sig ≡ w.sig) ⊎ (ring_of g ≡ (0, 0, false))
      → ring_of (sync_watch (some w) g) ≡ (w.sig, g.anchor_streak, g.anchor_alerted)
  unfolding sync_watch
  sync_watch-ring w g h = ground arith

  pub observe-ring :
      (o : Option (Watch V)) (s : Sample V) (now : ℕ) (l : Bool) (g : Geofence V)
      → (let synced = sync_watch o g in
          ring_of (observe f geo o s now l g).0
          ≡ ring_of
              (anchor_step f geo (anchor_of o) (unreliable f s (interval_of o synced)) s synced).0)
  unfolding observe
  observe-ring o s now l g =
      let synced = sync_watch o g in
      let bad = unreliable f s (interval_of o synced) in
      let a = (anchor_step f geo (anchor_of o) bad s synced).0 in
      let z = (zone_step f geo (zone_in o) bad s a).0 in
      let t = trip_step f geo bad s now z in
      let breach = has_anchor o && leb anchor_needed a.anchor_streak in
      send_step-ring l t.1 s now breach t.0
      ∙ trip_step-ring bad s now z
      ∙ zone_step-ring (zone_in o) bad s a

  pub sync_watch-interval :
      (w : Watch V) (a : Circle V) (g : Geofence V)
      → w.anchor ≡ some a
      → interval_of (some w) (sync_watch (some w) g) ≡ w.sample_secs
  unfolding sync_watch interval_of wants_fast_sampling
  sync_watch-interval w a g e = ground arith

  -- One sample of an armed device on its alarm ring.
  armed-ring :
      (w : Watch V) (a : Circle V) (x : Fix V) (g : Geofence V)
      → w.anchor ≡ some a
      → (g.sig ≡ w.sig) ⊎ (ring_of g ≡ (0, 0, false))
      → ring_of (observe f geo (some w) x.sample x.at x.leased g).0 ≡ (
          if unreliable f x.sample w.sample_secs
          then (w.sig, g.anchor_streak, g.anchor_alerted)
          else (let r =
                ring_step anchor_needed
                  (beyond f geo (away f geo a x.sample) a.radius_m (slack f geo x.sample))
                  g.anchor_streak
                  g.anchor_alerted in
              (w.sig, r.0, r.1)))
  armed-ring w a x g e h =
      let synced = sync_watch (some w) g in
      let i = sync_watch-interval w a g e in
      let o = observe-ring (some w) x.sample x.at x.leased g in
      let y = sync_watch-ring w g h in
      let r = anchor_step-ring w.anchor a (unreliable f x.sample w.sample_secs) x.sample synced e in
      let y0 : synced.sig ≡ w.sig = ap (λ t. t.0) y in
      let y1 : synced.anchor_streak ≡ g.anchor_streak = ap (λ t. t.1) y in
      let y2 : synced.anchor_alerted ≡ g.anchor_alerted = ap (λ t. t.2) y in
      rw (o, i, r, y0, y1, y2) refl

  -- After a history of samples under an armed anchor watch the alarm ring holds the length of the
  -- current run of reliable samples outside the circle, and its latch is set exactly from the second
  -- of them on, for histories of fewer than 2 ^ 32 samples.
  pub after-run :
      (w : Watch V) (a : Circle V) (h : List (Fix V))
      → w.anchor ≡ some a
      → length h < 4294967296
      → ((after (some w) h).anchor_streak ≡ run w a h)
        × ((after (some w) h).anchor_alerted ≡ leb anchor_needed (run w a h))
        × (((after (some w) h).sig ≡ w.sig) ⊎ (ring_of (after (some w) h) ≡ (0, 0, false)))
  unfolding after run ring_step
  after-run w a [] e b = (refl, refl, inr refl)
  after-run w a (x ∷ h) e b =
      let ih = after-run w a h e (omega (arith, b)) in
      let m =
        marking-ring x.marked
          (observe f geo (some w) x.sample x.at x.leased (after (some w) h)).0 in
      let r = m ∙ armed-ring w a x (after (some w) h) e ih.2 in
      let r0 = ap (λ t. t.0) r in
      let r1 = ap (λ t. t.1) r in
      let r2 = ap (λ t. t.2) r in
      let i0 = ih.0 in let i1 = ih.1 in ground (arith, r0, r1, r2, i0, i1, run_short w a h)
