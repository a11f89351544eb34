-- ===== src/Geofence/Trips.antt =====
-- When a trip ends, over the history of a GPS device's samples.
use dock_neighbor_hub.Shared.{
  ℕ, ◌-◌, ◌≡◌, ◌∙◌, ap, sym, subst, ◌⊎◌, inl, inr, refl, Bool, true, false, ◌&&◌, Option, none,
  some, List, [], ◌∷◌, leb, arith, map_or,
}
use dock_neighbor_hub.Float.{Float64}
use dock_neighbor_hub.Geofence.{
  Geo, Circle, Zone, Watch, Sample, Geofence, unreliable, underway_exit_ms, armed_sample_secs,
  anchor_needed,
}
use dock_neighbor_hub.Geofence.Observe.{
  observe, sync_watch, drag_step, warn_step, anchor_step, zone_step, trip_step, enter_step,
  exit_step, mark_sent, calm_step, send_step, routine_send, interval_of, wants_fast_sampling, slow,
  near, anchor_of, zone_in, has_anchor,
}
use dock_neighbor_hub.Geofence.Runs.{Fix, after, marking}

abbrev pub Slow : Type 0 → Type 0
Slow V = Option (ℕ × V × V)

-- What of a device the end of a trip reads.
abbrev pub trip_of : {V : Type 0} → Geofence V → Bool × Slow V
trip_of g = (g.underway, g.slow_since)

module _ {V : Type 0} (f : Float64 V) (geo : Geo V) where
  -- A boat that lies still: a reliable slow sample opened the rest at its instant and its place, and
  -- every sample since was reliable, slow and within 25 m of that place.
  pub data Resting : ℕ → List (Fix V) → ℕ → V → V → Type 0 where
    opened :
        {secs : ℕ} (x : Fix V) (h : List (Fix V))
        → unreliable f x.sample secs ≡ false
        → slow f geo x.sample ≡ true
        → Resting secs (x ∷ h) x.at x.sample.lat x.sample.lon
    stayed :
        {secs : ℕ} (x : Fix V) (h : List (Fix V)) (t : ℕ) (la lo : V)
        → unreliable f x.sample secs ≡ false
        → slow f geo x.sample ≡ true
        → near f geo la lo x.sample ≡ true
        → Resting secs h t la lo
        → Resting secs (x ∷ h) t la lo

  pub sync_watch-trip :
      (o : Option (Watch V)) (g : Geofence V) → trip_of (sync_watch o g) ≡ trip_of g
  unfolding sync_watch
  sync_watch-trip o g = ground arith

  pub anchor_step-trip :
      (o : Option (Circle V)) (bad : Bool) (s : Sample V) (g : Geofence V)
      → trip_of (anchor_step f geo o bad s g).0 ≡ trip_of g
  unfolding anchor_step drag_step warn_step
  anchor_step-trip o bad s g = ground arith

  pub zone_step-trip :
      (z : Option (Zone V)) (bad : Bool) (s : Sample V) (g : Geofence V)
      → trip_of (zone_step f geo z bad s g).0 ≡ trip_of g
  unfolding zone_step
  zone_step-trip z bad s g = ground arith

  pub send_step-trip :
      (leased : Bool) (c : Option Bool) (s : Sample V) (now : ℕ) (breach : Bool) (g : Geofence V)
      → trip_of (send_step f geo leased c s now breach g).0 ≡ trip_of g
  unfolding send_step routine_send
  send_step-trip leased c s now breach g = ground arith

  marking-trip : (m : Option (V × V)) (g : Geofence V) → trip_of (marking f geo m g) ≡ trip_of g
  unfolding mark_sent
  marking-trip none g = refl
  marking-trip (some p) g = refl

  calm_step_ends :
      (o : Slow V) (s : Sample V) (now : ℕ) (g : Geofence V)
      → (calm_step f geo o s now g).1 ≡ some false
      → (t : ℕ) × (la : V) × (lo : V) × (o ≡ some (t, la, lo))
        × (near f geo la lo s ≡ true)
        × (leb underway_exit_ms (now - t) ≡ true)
  unfolding calm_step
  calm_step_ends none s now g h = ground (arith, h)
  calm_step_ends (some (t, la, lo)) s now g h =
      (t, la, lo, refl, ground (arith, h), ground (arith, h))

  trip_step_ends :
      (bad : Bool) (s : Sample V) (now : ℕ) (g : Geofence V)
      → (trip_step f geo bad s now g).1 ≡ some false
      → (bad ≡ false)
        × (slow f geo s ≡ true)
        × ((calm_step f geo g.slow_since s now g).1 ≡ some false)
  unfolding trip_step enter_step exit_step
  trip_step_ends bad s now g h = ground (arith, h)

  abbrev opening : Sample V → ℕ → Slow V
  opening s now = some (now, s.lat, s.lon)

  calm_step_rests :
      (o : Slow V) (s : Sample V) (now : ℕ) (g : Geofence V) (t : ℕ) (la lo : V)
      → g.slow_since ≡ o
      → (calm_step f geo o s now g).0.slow_since ≡ some (t, la, lo)
      → (opening s now ≡ some (t, la, lo)) ⊎ ((o ≡ some (t, la, lo)) × (near f geo la lo s ≡ true))
  unfolding calm_step
  calm_step_rests none s now g t la lo e h = inl h
  calm_step_rests (some (u, ua, uo)) s now g t la lo e h = ground (arith, e, h)

  trip_step_rests :
      (bad : Bool) (s : Sample V) (now : ℕ) (g : Geofence V) (t : ℕ) (la lo : V)
      → (g.underway ≡ true) ⊎ (g.slow_since ≡ none)
      → (trip_step f geo bad s now g).0.slow_since ≡ some (t, la, lo)
      → (bad ≡ false)
        × (slow f geo s ≡ true)
        × (g.underway ≡ true)
        × ((calm_step f geo g.slow_since s now g).0.slow_since ≡ some (t, la, lo))
  unfolding trip_step enter_step exit_step
  trip_step_rests bad s now g t la lo u h = ground (arith, u, h)

  trip_step_still :
      (bad : Bool) (s : Sample V) (now : ℕ) (g : Geofence V)
      → (g.underway ≡ true) ⊎ (g.slow_since ≡ none)
      → (let r = (trip_step f geo bad s now g).0 in (r.underway ≡ true) ⊎ (r.slow_since ≡ none))
  unfolding trip_step enter_step exit_step calm_step
  trip_step_still bad s now g u = ground (arith, u)

  -- The interval that counts while under way.
  abbrev pub trip_secs : Option (Watch V) → ℕ
  trip_secs o = map_or o armed_sample_secs (λ w. w.sample_secs)

  abbrev bad_at : Option (Watch V) → Sample V → Geofence V → Bool
  bad_at o s g = unreliable f s (interval_of o (sync_watch o g))

  -- The device once its rings have seen the sample.
  abbrev ringed : Option (Watch V) → Sample V → Geofence V → Geofence V
  ringed o s g =
      let bad = bad_at o s g in
      (zone_step f geo (zone_in o) bad s
        (anchor_step f geo (anchor_of o) bad s (sync_watch o g)).0).0

  ringed-trip :
      (o : Option (Watch V)) (s : Sample V) (g : Geofence V) → trip_of (ringed o s g) ≡ trip_of g
  ringed-trip o s g =
      let synced = sync_watch o g in
      let bad = bad_at o s g in
      zone_step-trip (zone_in o) bad s (anchor_step f geo (anchor_of o) bad s synced).0
      ∙ anchor_step-trip (anchor_of o) bad s synced
      ∙ sync_watch-trip o g

  observe-trip :
      (o : Option (Watch V)) (s : Sample V) (now : ℕ) (l : Bool) (g : Geofence V)
      → trip_of (observe f geo o s now l g).0
        ≡ trip_of (trip_step f geo (bad_at o s g) s now (ringed o s g)).0
  unfolding observe
  observe-trip o s now l g =
      let a = (anchor_step f geo (anchor_of o) (bad_at o s g) s (sync_watch o g)).0 in
      let t = trip_step f geo (bad_at o s g) s now (ringed o s g) in
      send_step-trip l t.1 s now (has_anchor o && leb anchor_needed a.anchor_streak) t.0

  observe-changed :
      (o : Option (Watch V)) (s : Sample V) (now : ℕ) (l : Bool) (g : Geofence V)
      → (observe f geo o s now l g).1.underway_changed
        ≡ (trip_step f geo (bad_at o s g) s now (ringed o s g)).1
  unfolding observe
  observe-changed o s now l g = refl

  bad_at_underway :
      (o : Option (Watch V)) (s : Sample V) (g : Geofence V)
      → g.underway ≡ true
      → bad_at o s g ≡ unreliable f s (trip_secs o)
  unfolding interval_of wants_fast_sampling
  bad_at_underway o s g u = let e = ap (λ t. t.0) (sync_watch-trip o g) ∙ u in ground (arith, e)

  after_still :
      (o : Option (Watch V)) (h : List (Fix V))
      → (let g = after f geo o h in (g.underway ≡ true) ⊎ (g.slow_since ≡ none))
  unfolding after
  after_still o [] = inr refl
  after_still o (x ∷ h) =
      let g = after f geo o h in
      let r = ringed-trip o x.sample g in
      let still = trip_step_still (bad_at o x.sample g) x.sample x.at (ringed o x.sample g) in
      let ih = after_still o h in
      let e =
        marking-trip x.marked (observe f geo o x.sample x.at x.leased g).0
        ∙ observe-trip o x.sample x.at x.leased g in
      let r0 = ap (λ t. t.0) r in
      let r1 = ap (λ t. t.1) r in
      let e0 = ap (λ t. t.0) e in
      let e1 = ap (λ t. t.1) e in ground (arith, r0, r1, e0, e1, ih, still)

  abbrev Rests : Option (Watch V) → Fix V → List (Fix V) → Slow V → Type 0
  Rests o x h none = Unit {0}
  Rests o x h (some p) = Resting (trip_secs o) (x ∷ h) p.0 p.1 p.2

  -- Where the rings leave the rest of the device as it was.
  ringed_rest :
      (o : Option (Watch V)) (s : Sample V) (g : Geofence V)
      → (ringed o s g).slow_since ≡ g.slow_since
  ringed_rest o s g = ap (λ t. t.1) (ringed-trip o s g)

  rest_grows :
      (o : Option (Watch V)) (x : Fix V) (h : List (Fix V)) (t : ℕ) (la lo : V)
      → (let g = after f geo o h in
          (g.underway ≡ true)
          → (bad_at o x.sample g ≡ false)
          → (slow f geo x.sample ≡ true)
          → (opening x.sample x.at ≡ some (t, la, lo))
            ⊎ (Resting (trip_secs o) h t la lo × (near f geo la lo x.sample ≡ true))
          → Resting (trip_secs o) (x ∷ h) t la lo)
  rest_grows o x h t la lo u b w (inr p) =
      stayed x h t la lo (sym (bad_at_underway o x.sample (after f geo o h) u) ∙ b) w p.1 p.0
  rest_grows o x h t la lo u b w (inl e) =
      let p = opened x h (sym (bad_at_underway o x.sample (after f geo o h) u) ∙ b) w in
      subst (λ q. Rests o x h q) e p

  ringed_still :
      (o : Option (Watch V)) (s : Sample V) (h : List (Fix V))
      → (let r = ringed o s (after f geo o h) in (r.underway ≡ true) ⊎ (r.slow_since ≡ none))
  ringed_still o s h =
      let e0 = ap (λ t. t.0) (ringed-trip o s (after f geo o h)) in
      let e1 = ringed_rest o s (after f geo o h) in
      let ih = after_still o h in ground (arith, e0, e1, ih)

  ringed_underway :
      (o : Option (Watch V)) (s : Sample V) (g : Geofence V)
      → (ringed o s g).underway ≡ true
      → g.underway ≡ true
  ringed_underway o s g u = sym (ap (λ t. t.0) (ringed-trip o s g)) ∙ u

  pub after_rests :
      (o : Option (Watch V)) (h : List (Fix V)) (t : ℕ) (la lo : V)
      → (after f geo o h).slow_since ≡ some (t, la, lo)
      → Resting (trip_secs o) h t la lo
  unfolding after
  after_rests o [] t la lo e = ground (arith, e)
  after_rests o (x ∷ h) t la lo e =
      let g = after f geo o h in
      let r = ringed o x.sample g in
      let back =
        ap (λ q. q.1)
          (marking-trip x.marked (observe f geo o x.sample x.at x.leased g).0
            ∙ observe-trip o x.sample x.at x.leased g) in
      let q =
        trip_step_rests (bad_at o x.sample g) x.sample x.at r t la lo (ringed_still o x.sample h)
          (sym back ∙ e) in
      let grown = rest_grows o x h t la lo (ringed_underway o x.sample g q.2) q.0 q.1 in
      elim (calm_step_rests r.slow_since x.sample x.at r t la lo refl q.3) [
        | inl p ↦ grown (inl p)
        | inr p ↦ grown (inr (after_rests o h t la lo (sym (ringed_rest o x.sample g) ∙ p.0), p.1))
      ]

  -- After any history under one watch a trip ends at a sample only after the boat lay still for five minutes or more: a sample that
  -- long ago opened the rest, and all since, this one included, were reliable, slow and within 25 m.
  pub observe-ends_rested :
      (o : Option (Watch V)) (x : Fix V) (h : List (Fix V))
      → (observe f geo o x.sample x.at x.leased (after f geo o h)).1.underway_changed ≡ some false
      → (t : ℕ) × (la : V) × (lo : V) × Resting (trip_secs o) (x ∷ h) t la lo
        × (leb underway_exit_ms (x.at - t) ≡ true)
  observe-ends_rested o x h e =
      let g = after f geo o h in
      let r = ringed o x.sample g in
      let q =
        trip_step_ends (bad_at o x.sample g) x.sample x.at r
          (sym (observe-changed o x.sample x.at x.leased g) ∙ e) in
      let c = calm_step_ends r.slow_since x.sample x.at r q.2 in
      let past = after_rests o h c.0 c.1 c.2 (sym (ringed_rest o x.sample g) ∙ c.3) in
      let slow = sym (ringed_rest o x.sample g) ∙ c.3 in
      let still = after_still o h in
      let u : g.underway ≡ true = ground (arith, slow, still) in
      (c.0, c.1, c.2, rest_grows o x h c.0 c.1 c.2 u q.0 q.1 (inr (past, c.4)), c.5)
