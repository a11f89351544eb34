-- ===== src/LinktapRuntime/Rearm.antt =====
-- The volume cutoff after a close that was given up.
use dock_neighbor_hub.Shared.{ℕ, ◌≡◌, refl, true, false, none, some, String, arith, lookup}
use dock_neighbor_hub.Float.{Float64, Float64Laws}
use dock_neighbor_hub.Linktap.{Status, normalize_dev_id}
use dock_neighbor_hub.Cycle.{Running, running, stop, volume_cap, zero_f}
use dock_neighbor_hub.Cycle.Caps.{step-cuts_at_cap}
use dock_neighbor_hub.LinktapRuntime.{
  Print, Runtime, Track, profile_for, observation_of, put, unmark, note_stop_abandoned, observe,
  observe_track,
}
use dock_neighbor_hub.LinktapRuntime.Reopens.{note_stop_abandoned_at, lookup-put}

module _ {V : Type 0} ⦃f : Float64 V⦄ where
  -- What is left where the mark was released.
  freed_at :
      (rt : Runtime V) (dev_id : String) (t : Track V) (cur : Running V)
      → lookup (normalize_dev_id dev_id) rt.tracks ≡ some t
      → t.state ≡ running cur
      → (note_stop_abandoned rt dev_id).1 ≡ true
      → ((note_stop_abandoned rt dev_id).0
          ≡ put rt
              (normalize_dev_id dev_id)
              (record t { state = running (record cur { stop_issued = none }) }))
        × (f.le_f cur.volume_cap_l zero_f ≡ false)
  unfolding unmark
  freed_at rt dev_id t cur found runs released =
      ground (arith, note_stop_abandoned_at rt dev_id t found)

module _ {V : Type 0} ⦃f : Float64 V⦄ (laws : Float64Laws V f) where
  -- Where giving up a close released the mark of a run with a finite cap, the next payload that shows
  -- the valve open at or past that cap makes the hub stop it for volume.
  pub note_stop_abandoned-rearms :
      (print : Print V) (rt : Runtime V) (dev_id : String) (t : Track V) (cur : Running V)
      (data_ : Status V) (at : ℕ)
      → lookup (normalize_dev_id dev_id) rt.tracks ≡ some t
      → t.state ≡ running cur
      → (note_stop_abandoned rt dev_id).1 ≡ true
      → f.is_finite cur.volume_cap_l ≡ true
      → (observation_of print data_ rt.unit at).watering ≡ true
      → f.lt_f zero_f (observation_of print data_ rt.unit at).volume_l ≡ true
      → f.le_f cur.volume_cap_l (observation_of print data_ rt.unit at).volume_l ≡ true
      → (observe print (note_stop_abandoned rt dev_id).0 dev_id data_ at).1 ≡ stop volume_cap
  unfolding observe observe_track unmark put
  note_stop_abandoned-rearms print rt dev_id t cur data_ at found runs released fin wet seen past =
      let id = normalize_dev_id dev_id in
      let (left, capped) = freed_at rt dev_id t cur found runs released in
      let freed : Running V = record cur { stop_issued = none } in
      let back : Track V = record t { state = running freed } in
      let obs = observation_of print data_ rt.unit at in
      rw (left, lookup-put rt id back)
        (step-cuts_at_cap laws freed obs (profile_for (put rt id back) id) fin
          (laws.lt_of_not_le cur.volume_cap_l zero_f fin (laws.lit_finite 0 (omega arith)) capped)
          seen past wet refl)
