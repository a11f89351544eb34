-- ===== src/Cycle/Machine.antt =====
-- One cycle of a valve, from the state in which it runs to the observation that ends it.
use dock_neighbor_hub.Shared.{
  ℕ, ◌+◌, ◌≤◌, ◌<◌, ◌≡◌, ◌≢◌, ◌⊎◌, refl, inl, inr, Bool, true, false, List, [], ◌∷◌, Option, none,
  some, arith, is_some, Bool-cases,
}
use dock_neighbor_hub.Float.{Float64}
use dock_neighbor_hub.Cycle.{
  EndReason, Profile, Running, Ended, Observation, Action, StepResult, timer, volume_cap, idle,
  running, no_action, stop, metered, cutoff_due, close_reason, step_running, step,
  should_resume_normal, should_auto_restart,
}

abbrev pub count : Bool → ℕ
count true = 1
count false = 0

abbrev pub is_stop : Action → Bool
is_stop (stop r) = true
is_stop no_action = false

module _ {V : Type 0} ⦃f : Float64 V⦄ (profile : Profile V) where
  -- The steps of one cycle, up to the one that ends it.
  unfoldable pub cycle_steps : Running V → List (Observation V) → List (StepResult V)
  cycle_steps cur [] = []
  cycle_steps cur (o ∷ os) =
      let r = step (running cur) o profile in
      r ∷ elim r.state [ idle ↦ [] | running next ↦ cycle_steps next os ]

module _ {V : Type 0} where
  abbrev pub stops : List (StepResult V) → ℕ
  stops [] = 0
  stops (r ∷ rs) = count (is_stop r.action) + stops rs

  abbrev OnEnd : (Ended V → Type 0) → Option (Ended V) → Type 0
  OnEnd P none = Unit {0}
  OnEnd P (some e) = P e

  -- Every end among the steps has the property.
  abbrev pub EveryEnd : (Ended V → Type 0) → List (StepResult V) → Type 0
  EveryEnd P [] = Unit {0}
  EveryEnd P (r ∷ rs) = OnEnd P r.ended × EveryEnd P rs

  OnEnd-mono :
      {P Q : Ended V → Type 0} (o : Option (Ended V))
      → ((e : Ended V) → P e → Q e)
      → OnEnd P o
      → OnEnd Q o
  OnEnd-mono none m h = tt
  OnEnd-mono (some e) m h = m e h

  EveryEnd-mono :
      {P Q : Ended V → Type 0} (rs : List (StepResult V))
      → ((e : Ended V) → P e → Q e)
      → EveryEnd P rs
      → EveryEnd Q rs
  EveryEnd-mono [] m h = tt
  EveryEnd-mono {P} {Q} (r ∷ rs) m h =
      (OnEnd-mono {P = P} {Q = Q} r.ended m h.0, EveryEnd-mono {P = P} {Q = Q} rs m h.1)

module _ {V : Type 0} ⦃f : Float64 V⦄ where
  abbrev pub cut_result : Running V → Observation V → StepResult V
  cut_result cur o = record {
    state = running (record (metered cur o) { stop_issued = some volume_cap });
    action = stop volume_cap;
    ended = none;
  }

  abbrev pub run_result : Running V → Observation V → StepResult V
  run_result cur o = record { state = running (metered cur o); action = no_action; ended = none }

  abbrev pub ended_with : Running V → Observation V → Ended V
  ended_with cur o = record {
    mode = cur.mode;
    ended_at = o.at;
    reason = close_reason (metered cur o) o;
    volume_l = (metered cur o).volume_l;
    provenance = cur.provenance;
    resume_normal = cur.resume_normal;
  }

  abbrev pub end_result : Running V → Observation V → StepResult V
  end_result cur o = record { state = idle; action = no_action; ended = some (ended_with cur o) }

  -- A step of a running cycle cuts it, lets it run, or sees it ended.
  abbrev pub Stepped : Running V → Observation V → StepResult V → Type 0
  Stepped cur o r =
      ((o.watering ≡ true) × (cutoff_due (metered cur o) o ≡ true) × (r ≡ cut_result cur o))
      ⊎ (((o.watering ≡ true) × (cutoff_due (metered cur o) o ≡ false) × (r ≡ run_result cur o))
          ⊎ ((o.watering ≡ false) × (r ≡ end_result cur o)))

  pub step-Stepped :
      (cur : Running V) (o : Observation V) (profile : Profile V)
      → Stepped cur o (step (running cur) o profile)
  unfolding step step_running
  step-Stepped cur o profile = elim (Bool-cases o.watering) [
    | inr dry ↦ inr (inr (dry, rw dry))
    | inl wet ↦ elim (Bool-cases (cutoff_due (metered cur o) o)) [
      | inl due ↦ inl (wet, due, rw (wet, due))
      | inr not_due ↦ inr (inl (wet, not_due, rw (wet, not_due)))
    ]
  ]

module _ {V : Type 0} where
  -- A cycle that ended for no timer opens nothing: neither a restart nor a resumed run.
  abbrev pub NeverReopens : Ended V → Type 0
  NeverReopens e =
      ((auto : Bool) → should_auto_restart e auto ≡ false) × (should_resume_normal e ≡ false)

  pub no_timer-NeverReopens :
      (r : EndReason) → r ≢ timer → (e : Ended V) → e.reason ≡ r → NeverReopens e
  unfolding should_auto_restart should_resume_normal
  no_timer-NeverReopens r n e h = ((λ auto. ground arith), ground arith)

module _ {V : Type 0} ⦃f : Float64 V⦄ (profile : Profile V) where
  -- Over the observations of one cycle, with no close given up in between, the cutoff asks for a stop
  -- at most once, and not at all once a stop is issued.
  pub cycle_steps-stops :
      (cur : Running V) (os : List (Observation V))
      → stops (cycle_steps profile cur os) + count (is_some cur.stop_issued) ≤ 1
  unfolding cycle_steps metered cutoff_due
  cycle_steps-stops cur [] = ground arith
  cycle_steps-stops cur (o ∷ os) = elim (step-Stepped cur o profile) [
    | inl (_, due, e) ↦ rw e (
        ground (
          arith,
          due,
          cycle_steps-stops (record (metered cur o) { stop_issued = some volume_cap }) os,
        ))
    | inr (inl (_, _, e)) ↦ rw e (omega (arith, cycle_steps-stops (metered cur o) os))
    | inr (inr (_, e)) ↦ rw e (ground arith)
  ]

  -- A cycle with a stop issued for some reason ends, if it ends, for that reason.
  marked-EveryEnd :
      (cur : Running V) (os : List (Observation V)) (r : EndReason)
      → cur.stop_issued ≡ some r
      → EveryEnd (λ e. e.reason ≡ r) (cycle_steps profile cur os)
  unfolding cycle_steps metered cutoff_due close_reason
  marked-EveryEnd cur [] r h = tt
  marked-EveryEnd cur (o ∷ os) r h = elim (step-Stepped cur o profile) [
    | inl (_, due, e) ↦ absurd (ground arith)
    | inr (inl (_, _, e)) ↦ rw e (tt, marked-EveryEnd (metered cur o) os r h)
    | inr (inr (_, e)) ↦ rw e (ground arith)
  ]

  -- A cycle that is stopped, by the volume cutoff among these observations or for a reason other
  -- than the timer before them, never reopens the valve when it ends.
  pub stopped-NeverReopens :
      (cur : Running V) (os : List (Observation V))
      → (0 < stops (cycle_steps profile cur os))
        ⊎ ((r : EndReason) × (cur.stop_issued ≡ some r) × (r ≢ timer))
      → EveryEnd NeverReopens (cycle_steps profile cur os)
  unfolding cycle_steps metered
  stopped-NeverReopens cur os (inr (r, h, n)) =
      EveryEnd-mono {P = λ e. e.reason ≡ r} {Q = NeverReopens} (cycle_steps profile cur os)
        (no_timer-NeverReopens r n) (marked-EveryEnd cur os r h)
  stopped-NeverReopens cur [] (inl h) = tt
  stopped-NeverReopens cur (o ∷ os) (inl h) = elim (step-Stepped cur o profile) [
    | inl (_, _, e) ↦ rw e (
      tt,
      stopped-NeverReopens (record (metered cur o) { stop_issued = some volume_cap }) os
          (inr (volume_cap, refl, λ x. cc)),
    )
    | inr (inl (_, _, e)) ↦ rw e (tt, stopped-NeverReopens (metered cur o) os (inl (rest e h)))
    | inr (inr (_, e)) ↦ absurd (none_left e h)
  ]
    where
      rest :
          step (running cur) o profile ≡ run_result cur o
          → 0 < stops (cycle_steps profile cur (o ∷ os))
          → 0 < stops (cycle_steps profile (metered cur o) os)
      rest e h' = omega (arith, rw e at h')

      none_left :
          step (running cur) o profile ≡ end_result cur o
          → 0 < stops (cycle_steps profile cur (o ∷ os))
          → ⊥
      none_left e h' = omega (arith, rw e at h')
