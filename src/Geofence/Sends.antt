-- ===== src/Geofence/Sends.antt =====
-- Which positions of an anchored boat leave for the cloud.
use dock_neighbor_hub.Shared.{
  ℕ, ◌≡◌, ◌∙◌, ◌<◌, ap, sym, ◌⊎◌, refl, Bool, true, false, ◌||◌, ◌&&◌, Option, none, some, List, [],
  ◌∷◌, leb, arith, is_some, length,
}
use dock_neighbor_hub.Float.{Float64}
use dock_neighbor_hub.Geofence.{
  Geo, Circle, Zone, Watch, Sample, Geofence, unreliable, anchor_needed,
}
use dock_neighbor_hub.Geofence.Observe.{
  observe, sync_watch, drag_step, warn_step, anchor_step, zone_step, trip_step, enter_step,
  exit_step, mark_sent, calm_step, send_step, routine_send, interval_of, anchor_of, zone_in,
  has_anchor, track_due,
}
use dock_neighbor_hub.Geofence.Runs.{
  Fix, after, marking, run, after-run, ring_of, observe-ring, marking-ring,
}

-- What of a device the decision to send reads.
abbrev pub send_of : {V : Type 0} → Geofence V → Bool × Bool × Bool × Option ℕ
send_of g = (g.anchor_armed, g.final_fix_owed, g.underway, g.underway_sent_ms)

module _ {V : Type 0} (f : Float64 V) (geo : Geo V) where
  anchor_step-send :
      (o : Option (Circle V)) (bad : Bool) (s : Sample V) (g : Geofence V)
      → send_of (anchor_step f geo o bad s g).0 ≡ send_of g
  unfolding anchor_step drag_step warn_step
  anchor_step-send o bad s g = ground arith

  zone_step-send :
      (z : Option (Zone V)) (bad : Bool) (s : Sample V) (g : Geofence V)
      → send_of (zone_step f geo z bad s g).0 ≡ send_of g
  unfolding zone_step
  zone_step-send z bad s g = ground arith

  trip_step-send :
      (bad : Bool) (s : Sample V) (now : ℕ) (g : Geofence V)
      → (let t = trip_step f geo bad s now g in
          (t.0.anchor_armed ≡ g.anchor_armed)
          × (t.0.final_fix_owed ≡ g.final_fix_owed)
          × (t.0.underway_sent_ms ≡ g.underway_sent_ms)
          × ((is_some t.1 ≡ true) ⊎ (t.0.underway ≡ g.underway)))
  unfolding trip_step enter_step exit_step calm_step
  trip_step-send bad s now g = ground arith

  send_step-send :
      (l : Bool) (c : Option Bool) (s : Sample V) (now : ℕ) (breach : Bool) (g : Geofence V)
      → g.anchor_armed ≡ true
      → (send_step f geo l c s now breach g).1 ≡ (
          l
          || (g.final_fix_owed
              || (is_some c || ((g.underway && track_due f geo g.underway_sent_ms now) || breach))))
  unfolding send_step routine_send
  send_step-send l c s now breach g e = ground (arith, e)

  sync_watch-send :
      (o : Option (Watch V)) (g : Geofence V)
      → ((sync_watch o g).anchor_armed ≡ has_anchor o)
        × ((sync_watch o g).underway ≡ g.underway)
        × ((sync_watch o g).underway_sent_ms ≡ g.underway_sent_ms)
  unfolding sync_watch
  sync_watch-send o g = ground arith

  send_step-owes_none :
      (l : Bool) (c : Option Bool) (s : Sample V) (now : ℕ) (breach : Bool) (g : Geofence V)
      → g.final_fix_owed ≡ false
      → (send_step f geo l c s now breach g).0.final_fix_owed ≡ false
  unfolding send_step routine_send
  send_step-owes_none l c s now breach g e = ground (arith, e)

  sync_watch-owes_none :
      (w : Watch V) (g : Geofence V)
      → (g.sig ≡ w.sig) ⊎ (ring_of g ≡ (0, 0, false))
      → g.final_fix_owed ≡ false
      → (sync_watch (some w) g).final_fix_owed ≡ false
  unfolding sync_watch
  sync_watch-owes_none w g h e = ground (arith, h, e)

  -- The device once its rings have seen the sample, and the trip after them.
  abbrev bad_at : Option (Watch V) → Sample V → Geofence V → Bool
  bad_at o s g = unreliable f s (interval_of o (sync_watch o g))

  abbrev circled : Option (Watch V) → Sample V → Geofence V → Geofence V
  circled o s g = (anchor_step f geo (anchor_of o) (bad_at o s g) s (sync_watch o g)).0

  abbrev ringed : Option (Watch V) → Sample V → Geofence V → Geofence V
  ringed o s g = (zone_step f geo (zone_in o) (bad_at o s g) s (circled o s g)).0

  abbrev tripped : Option (Watch V) → Sample V → ℕ → Geofence V → Geofence V × Option Bool
  tripped o s now g = trip_step f geo (bad_at o s g) s now (ringed o s g)

  ringed-send :
      (o : Option (Watch V)) (s : Sample V) (g : Geofence V)
      → send_of (ringed o s g) ≡ send_of (sync_watch o g)
  ringed-send o s g =
      zone_step-send (zone_in o) (bad_at o s g) s (circled o s g)
      ∙ anchor_step-send (anchor_of o) (bad_at o s g) s (sync_watch o g)

  tripped-owes_none :
      (w : Watch V) (s : Sample V) (now : ℕ) (g : Geofence V)
      → (g.sig ≡ w.sig) ⊎ (ring_of g ≡ (0, 0, false))
      → g.final_fix_owed ≡ false
      → (tripped (some w) s now g).0.final_fix_owed ≡ false
  tripped-owes_none w s now g h e =
      (trip_step-send (bad_at (some w) s g) s now (ringed (some w) s g)).1
      ∙ ap (λ t. t.1) (ringed-send (some w) s g)
      ∙ sync_watch-owes_none w g h e

  marking-owes :
      (m : Option (V × V)) (g : Geofence V) → (marking f geo m g).final_fix_owed ≡ g.final_fix_owed
  unfolding mark_sent
  marking-owes none g = refl
  marking-owes (some p) g = refl

  after_owes_none :
      (w : Watch V) (a : Circle V) (h : List (Fix V))
      → w.anchor ≡ some a
      → length h < 4294967296
      → (after f geo (some w) h).final_fix_owed ≡ false
  unfolding after observe mark_sent
  after_owes_none w a [] e b = refl
  after_owes_none w a (x ∷ h) e b =
      let g = after f geo (some w) h in
      let b' : length h < 4294967296 = omega (arith, b) in
      let own =
        tripped-owes_none w x.sample x.at g (after-run f geo w a h e b').2
          (after_owes_none w a h e b') in
      let t = tripped (some w) x.sample x.at g in
      let breach =
        has_anchor (some w) && leb anchor_needed (circled (some w) x.sample g).anchor_streak in
      let s = send_step-owes_none x.leased t.1 x.sample x.at breach t.0 own in
      let m = marking-owes x.marked (observe f geo (some w) x.sample x.at x.leased g).0 in m ∙ s

  circled-breach :
      (w : Watch V) (a : Circle V) (x : Fix V) (h : List (Fix V))
      → w.anchor ≡ some a
      → length (x ∷ h) < 4294967296
      → (circled (some w) x.sample (after f geo (some w) h)).anchor_streak ≡ run f geo w a (x ∷ h)
  unfolding after
  circled-breach w a x h e b =
      let g = after f geo (some w) h in
      let o = (observe f geo (some w) x.sample x.at x.leased g).0 in
      ap (λ t. t.1) (sym (observe-ring f geo (some w) x.sample x.at x.leased g))
      ∙ ap (λ t. t.1) (sym (marking-ring f geo x.marked o))
      ∙ (after-run f geo w a (x ∷ h) e b).0

  -- For a device that since its start has only been under one watch, with an anchor, a position
  -- leaves for the cloud exactly when a member is watching, a trip begins or ends at the sample, the
  -- voyage track is due, or at least two reliable samples in a row lie outside the circle, over any
  -- such history of fewer than 2 ^ 32 samples. A device that was disarmed and armed again may owe a
  -- final fix besides, and is not meant here.
  pub observe-sends_armed :
      (w : Watch V) (a : Circle V) (x : Fix V) (h : List (Fix V))
      → w.anchor ≡ some a
      → length (x ∷ h) < 4294967296
      → (let g = after f geo (some w) h in
          let d = (observe f geo (some w) x.sample x.at x.leased g).1 in
          d.send_position ≡ (
            x.leased
            || (is_some d.underway_changed
                || ((g.underway && track_due f geo g.underway_sent_ms x.at)
                    || leb anchor_needed (run f geo w a (x ∷ h))))))
  unfolding observe
  observe-sends_armed w a x h e b =
      let g = after f geo (some w) h in
      let b' : length h < 4294967296 = omega (arith, b) in
      let y = sync_watch-send (some w) g in
      let r = ringed-send (some w) x.sample g in
      let t = tripped (some w) x.sample x.at g in
      let k =
        trip_step-send (bad_at (some w) x.sample g) x.sample x.at (ringed (some w) x.sample g) in
      let own =
        tripped-owes_none w x.sample x.at g (after-run f geo w a h e b').2
          (after_owes_none w a h e b') in
      let streak = circled-breach w a x h e b in
      let breach =
        has_anchor (some w) && leb anchor_needed (circled (some w) x.sample g).anchor_streak in
      let has : has_anchor (some w) ≡ true = ap is_some e in
      let armed = k.0 ∙ ap (λ q. q.0) r ∙ y.0 ∙ has in
      let way = ap (λ q. q.2) r ∙ y.1 in
      let sent = k.2 ∙ ap (λ q. q.3) r ∙ y.2 in
      let s = send_step-send x.leased t.1 x.sample x.at breach t.0 armed in
      let on = k.3 in ground (arith, s, own, streak, has, way, sent, on)
