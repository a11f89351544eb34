-- ===== src/LinktapRuntime/Reopens.antt =====
-- When a watched valve is owed a reopen, over the payloads of one run.
use dock_neighbor_hub.Shared.{
  ℕ, ◌≡◌, ◌≢◌, ◌⊎◌, inl, inr, refl, sym, ap, ◌∙◌, Bool, true, false, Option, none, some, String,
  List, [], ◌∷◌, if◌then◌else◌, Bool-cases, Option-cases, arith, lookup, lookup-insert, str_eq_self,
}
use dock_neighbor_hub.Float.{Float64}
use dock_neighbor_hub.Linktap.{Status, normalize_dev_id, reports_volume}
use dock_neighbor_hub.Cycle.{
  EndReason, Profile, Running, State, Observation, timer, washdown, idle, running, metered,
  cutoff_due, close_reason, should_hand_over, should_resume_normal, should_auto_restart,
}
use dock_neighbor_hub.Cycle.Machine.{step-Stepped, ended_with, no_timer-NeverReopens}
use dock_neighbor_hub.LinktapRuntime.{
  Print, Runtime, Track, PendingOpen, profile_for, observation_of, put, mark, unmark, note_stop,
  note_stop_abandoned, take_pending_open, hand_over, account, advance, observe, observe_track,
}

module _ {V : Type 0} where
  -- A run on its way shut for a reason other than its timer, or an idle valve, with no reopen owed.
  abbrev pub StopHolds : Track V → Type 0
  StopHolds t =
      (t.pending_open ≡ none)
      × ((t.state ≡ idle)
          ⊎ ((cur : Running V) × (r : EndReason) × (t.state ≡ running cur)
              × (cur.stop_issued ≡ some r)
              × (r ≢ timer)))

  abbrev pub is_idle : State V → Bool
  is_idle idle = true
  is_idle (running r) = false

  State-cases : (s : State V) → (s ≡ idle) ⊎ ((cur : Running V) × (s ≡ running cur))
  State-cases idle = inl refl
  State-cases (running cur) = inr (cur, refl)

module _ {V : Type 0} ⦃f : Float64 V⦄ where
  advance-StopHolds :
      (profile : Profile V) (obs : Observation V) (meters : Bool) (t : Track V)
      → is_idle t.state ≡ false
      → StopHolds t
      → StopHolds (advance profile obs meters t)
  unfolding advance account hand_over should_hand_over should_resume_normal should_auto_restart
      metered cutoff_due close_reason
  advance-StopHolds profile obs meters t runs (p, inl i) = absurd (ground arith)
  advance-StopHolds profile obs meters t runs (p, inr (cur, r, s, issued, n)) =
      elim (step-Stepped cur obs profile) [
        | inl (_, due, e) ↦ absurd (ground arith)
        | inr (inl (_, _, e)) ↦
            rw (s, e) ((ground arith), inr (metered cur obs, r, (ground arith), (ground arith), n))
        | inr (inr (_, e)) ↦
            let never = no_timer-NeverReopens r n (ended_with cur obs) (ground arith) in
            rw (s, e, never.1, never.0 profile.auto_restart) (p, inl refl)
      ]

  -- Whether the valve has no run on it, and the reopen it is owed.
  abbrev pub is_over : Runtime V → String → Bool
  is_over rt dev_id = elim (lookup (normalize_dev_id dev_id) rt.tracks) [
    | none ↦ true
    | some t ↦ is_idle t.state
  ]

  abbrev pub owed : Runtime V → String → Option (PendingOpen V)
  owed rt dev_id = (take_pending_open rt dev_id).1

  -- The payloads of one run of the valve, up to the one that ends it.
  pub watch_run : Print V → Runtime V → String → List (Status V × ℕ) → Runtime V
  watch_run print rt dev_id [] = rt
  watch_run print rt dev_id ((data_, at) ∷ later) =
      if is_over rt dev_id
      then rt
      else watch_run print (observe print rt dev_id data_ at).0 dev_id later

  Stays : Runtime V → String → Type 0
  Stays rt dev_id =
      (t : Track V) × (lookup (normalize_dev_id dev_id) rt.tracks ≡ some t) × StopHolds t

  pub lookup-put :
      (rt : Runtime V) (id : String) (t : Track V) → lookup id (put rt id t).tracks ≡ some t
  unfolding put
  lookup-put rt id t = rw (lookup-insert id id t rt.tracks, str_eq_self id) refl

  observe-Stays :
      (print : Print V) (rt : Runtime V) (dev_id : String) (data_ : Status V) (at : ℕ)
      → is_over rt dev_id ≡ false
      → Stays rt dev_id
      → Stays (observe print rt dev_id data_ at).0 dev_id
  unfolding Stays observe observe_track
  observe-Stays print rt dev_id data_ at runs (t, found, holds) =
      let id = normalize_dev_id dev_id in
      let obs = observation_of print data_ rt.unit at in
      let next =
        advance-StopHolds (profile_for rt id) obs (reports_volume data_) t (ground arith) holds in
      rw (found) (_, lookup-put rt id _, next)

  watch_run-Stays :
      (print : Print V) (rt : Runtime V) (dev_id : String) (os : List (Status V × ℕ))
      → Stays rt dev_id
      → Stays (watch_run print rt dev_id os) dev_id
  unfolding watch_run
  watch_run-Stays print rt dev_id [] s = s
  watch_run-Stays print rt dev_id ((data_, at) ∷ later) s = elim (Bool-cases (is_over rt dev_id)) [
    | inl over ↦ rw over s
    | inr runs ↦ rw runs (
        watch_run-Stays print (observe print rt dev_id data_ at).0 dev_id later
          (observe-Stays print rt dev_id data_ at runs s))
  ]

  Stays-owed : (rt : Runtime V) (dev_id : String) → Stays rt dev_id → owed rt dev_id ≡ none
  unfolding Stays take_pending_open
  Stays-owed rt dev_id (t, found, holds) = ground arith

  -- The track of a valve that runs.
  running_track :
      (rt : Runtime V) (dev_id : String)
      → is_over rt dev_id ≡ false
      → (t : Track V) × (cur : Running V) × (lookup (normalize_dev_id dev_id) rt.tracks ≡ some t)
        × (t.state ≡ running cur)
  running_track rt dev_id runs = elim (Option-cases (lookup (normalize_dev_id dev_id) rt.tracks)) [
    | inl e ↦ absurd (ground (arith, e))
    | inr (t, e) ↦ elim (State-cases t.state) [
      | inl i ↦ absurd (ground (arith, e, i))
      | inr (cur, c) ↦ (t, cur, e, c)
    ]
  ]

  note_stop_at :
      (rt : Runtime V) (dev_id : String) (r : EndReason) (t : Track V)
      → lookup (normalize_dev_id dev_id) rt.tracks ≡ some t
      → note_stop rt dev_id r
        ≡ put rt (normalize_dev_id dev_id) (record t { state = mark r t.state })
  unfolding note_stop
  note_stop_at rt dev_id r t found = ground arith

  owed_at :
      (rt : Runtime V) (dev_id : String) (t : Track V)
      → lookup (normalize_dev_id dev_id) rt.tracks ≡ some t
      → owed rt dev_id ≡ t.pending_open
  unfolding take_pending_open
  owed_at rt dev_id t found = ground arith

  note_stop-Stays :
      (rt : Runtime V) (dev_id : String) (r : EndReason)
      → is_over rt dev_id ≡ false
      → owed rt dev_id ≡ none
      → r ≢ timer
      → Stays (note_stop rt dev_id r) dev_id
  unfolding Stays mark
  note_stop-Stays rt dev_id r runs none_owed n =
      let (t, cur, found, at) = running_track rt dev_id runs in
      let id = normalize_dev_id dev_id in
      let marked : Track V = record t { state = mark r t.state } in
      rw (note_stop_at rt dev_id r t found) (
        marked,
        lookup-put rt id marked,
        (
          sym (owed_at rt dev_id t found) ∙ none_owed,
          inr (record cur { stop_issued = some r }, r, ap (mark r) at, refl, n),
        ),
      )

  -- A valve that runs, with no reopen owed, and is stopped for a reason other than its timer is
  -- owed no reopen at any moment up to the end of that run, whatever its payloads say.
  pub note_stop-owed :
      (print : Print V) (rt : Runtime V) (dev_id : String) (r : EndReason)
      (os : List (Status V × ℕ))
      → is_over rt dev_id ≡ false
      → owed rt dev_id ≡ none
      → r ≢ timer
      → owed (watch_run print (note_stop rt dev_id r) dev_id os) dev_id ≡ none
  note_stop-owed print rt dev_id r os runs none_owed n =
      Stays-owed (watch_run print (note_stop rt dev_id r) dev_id os) dev_id (
        watch_run-Stays print (note_stop rt dev_id r) dev_id os
          (note_stop-Stays rt dev_id r runs none_owed n))

  pub note_stop_abandoned_at :
      (rt : Runtime V) (dev_id : String) (t : Track V)
      → lookup (normalize_dev_id dev_id) rt.tracks ≡ some t
      → note_stop_abandoned rt dev_id ≡ (
        put rt (normalize_dev_id dev_id) (record t { state = (unmark t.state).0 }),
        (unmark t.state).1,
      )
  unfolding note_stop_abandoned
  note_stop_abandoned_at rt dev_id t found = ground arith

  -- A washdown that keeps its mark when its close is given up.
  abandoned-Stays :
      (rt : Runtime V) (dev_id : String) (r : EndReason) (t : Track V) (cur : Running V)
      → lookup (normalize_dev_id dev_id) rt.tracks ≡ some t
      → t.state ≡ running cur
      → t.pending_open ≡ none
      → cur.mode ≡ washdown
      → r ≢ timer
      → Stays (note_stop_abandoned (note_stop rt dev_id r) dev_id).0 dev_id
  unfolding Stays unmark mark
  abandoned-Stays rt dev_id r t cur found at owes wash n =
      let id = normalize_dev_id dev_id in
      let marked : Track V = record t { state = mark r t.state } in
      let kept : Track V = record marked { state = (unmark marked.state).0 } in
      rw
        (
          note_stop_at rt dev_id r t found,
          note_stop_abandoned_at (put rt id marked) dev_id marked (lookup-put rt id marked),
        )
        (
          kept,
          lookup-put (put rt id marked) id kept,
          (owes, inr (record cur { stop_issued = some r }, r, ground arith, refl, n)),
        )

  -- A washdown that the hub tried to stop for a reason other than its timer, and whose close it then
  -- gave up, is owed no reopen at any moment up to the end of that run: giving up keeps the mark.
  pub note_stop_abandoned-washdown :
      (print : Print V) (rt : Runtime V) (dev_id : String) (r : EndReason) (t : Track V)
      (cur : Running V) (os : List (Status V × ℕ))
      → lookup (normalize_dev_id dev_id) rt.tracks ≡ some t
      → t.state ≡ running cur
      → t.pending_open ≡ none
      → cur.mode ≡ washdown
      → r ≢ timer
      → owed
          (watch_run print (note_stop_abandoned (note_stop rt dev_id r) dev_id).0 dev_id os)
          dev_id
        ≡ none
  note_stop_abandoned-washdown print rt dev_id r t cur os found at owes wash n =
      let given_up = (note_stop_abandoned (note_stop rt dev_id r) dev_id).0 in
      Stays-owed (watch_run print given_up dev_id os) dev_id (
        watch_run-Stays print given_up dev_id os
          (abandoned-Stays rt dev_id r t cur found at owes wash n))
