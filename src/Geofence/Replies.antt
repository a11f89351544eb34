-- ===== src/Geofence/Replies.antt =====
-- What the reader makes of a worker's anchor object, and what an unreliable sample changes.
use dock_neighbor_hub.Shared.{
  ℕ, ◌≡◌, ◌∙◌, refl, Bool, true, false, ◌&&◌, ◌||◌, Option, none, some, String, List, [], arith,
  is_some, leb, ◌==◌, ◌↔◌,
}
use dock_neighbor_hub.Float.{Float64}
use dock_neighbor_hub.Geofence.{
  Geo, Circle, Zone, Watch, disarm, Sample, Geofence, unreliable, anchor_needed,
}
use dock_neighbor_hub.Geofence.Reply.{
  Json, object, num, watch_of, signed_reply, parse_anchor_object,
}
use dock_neighbor_hub.Geofence.Observe.{
  observe, sync_watch, watch_sig, anchor_step, zone_step, trip_step, send_step, routine_send,
  interval_of, anchor_of, zone_in, has_anchor,
}

-- What the rings and the trip of a device hold.
abbrev pub held_of : {V : Type 0} → Geofence V → (ℕ × ℕ × ℕ) × (Bool × Bool × Bool) × Bool
held_of g = (
  (g.anchor_streak, g.warn_streak, g.zone_streak),
  (g.anchor_alerted, g.warn_alerted, g.zone_alerted),
  g.underway,
)

module _ {V : Type 0} (f : Float64 V) (geo : Geo V) where
  signed_reply_disarms :
      (o : List (String × Json V)) (q : Option V)
      → (signed_reply f geo o q ≡ some disarm)
        ↔ ((v : V) × (q ≡ some v) × (f.lt_f v (f.lit 0 0) ≡ false) × (geo.as_u64 v ≡ 0))
  unfolding signed_reply watch_of
  signed_reply_disarms o none = (λ h. ground (arith, h), λ p. ground (arith, p.1))
  signed_reply_disarms o (some v) =
      (λ h. (v, refl, ground (arith, h), ground (arith, h)), λ p. ground (arith, p))

  -- The hub stands down exactly when the signature of the object reads as a number that is not
  -- negative and is zero once its fraction is dropped; an object without one never disarms.
  pub parse_anchor_object-disarms :
      (o : List (String × Json V))
      → (parse_anchor_object f geo (object o) ≡ some disarm) ↔ (
          (v : V) × (num f geo o "sig" ≡ some v)
          × (f.lt_f v (f.lit 0 0) ≡ false)
          × (geo.as_u64 v ≡ 0))
  unfolding parse_anchor_object
  parse_anchor_object-disarms o = signed_reply_disarms o (num f geo o "sig")

  -- A watch that can be armed: a signature, something to watch, and rings of positive radius.
  abbrev pub IsArmable : Watch V → Type 0
  IsArmable w =
      ((w.sig == 0) ≡ false)
      × ((is_some w.anchor || is_some w.zone) ≡ true)
      × ((c : Circle V) → w.anchor ≡ some c → f.lt_f (f.lit 0 0) c.radius_m ≡ true)
      × ((z : Zone V) → w.zone ≡ some z → f.lt_f (f.lit 0 0) z.radius_m ≡ true)

  anchor_step-bad :
      (o : Option (Circle V)) (s : Sample V) (g : Geofence V)
      → anchor_step f geo o true s g ≡ (g, [])
  unfolding anchor_step
  anchor_step-bad none s g = refl
  anchor_step-bad (some a) s g = refl

  zone_step-bad :
      (o : Option (Zone V)) (s : Sample V) (g : Geofence V) → zone_step f geo o true s g ≡ (g, [])
  unfolding zone_step
  zone_step-bad none s g = refl
  zone_step-bad (some z) s g = refl

  send_step-held :
      (l : Bool) (c : Option Bool) (s : Sample V) (now : ℕ) (breach : Bool) (g : Geofence V)
      → held_of (send_step f geo l c s now breach g).0 ≡ held_of g
  unfolding send_step routine_send
  send_step-held l c s now breach g = ground arith

  sync_watch-held :
      (o : Option (Watch V)) (g : Geofence V)
      → (watch_sig o == g.sig) ≡ true
      → held_of (sync_watch o g) ≡ held_of g
  unfolding sync_watch
  sync_watch-held o g e = ground (arith, e)

  -- An unreliable sample under the watch that a device already runs moves no streak and no latch,
  -- raises no alarm, and neither begins nor ends a trip.
  pub observe-unreliable :
      (o : Option (Watch V)) (s : Sample V) (now : ℕ) (l : Bool) (g : Geofence V)
      → (watch_sig o == g.sig) ≡ true
      → unreliable f s (interval_of o (sync_watch o g)) ≡ true
      → (let r = observe f geo o s now l g in
          (held_of r.0 ≡ held_of g) × (r.1.events ≡ []) × (r.1.underway_changed ≡ none))
  unfolding observe trip_step
  observe-unreliable o s now l g e b =
      rw
        (
          b,
          anchor_step-bad (anchor_of o) s (sync_watch o g),
          zone_step-bad (zone_in o) s (sync_watch o g),
        )
        (
          send_step-held l none s now
                (has_anchor o && leb anchor_needed (sync_watch o g).anchor_streak)
                (record (sync_watch o g) { enter_streak = 0; slow_since = none })
              ∙ sync_watch-held o g e,
          refl,
          refl,
        )
