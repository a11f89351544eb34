-- ===== src/Cycle/Caps.antt =====
-- The volume caps: which runs have one, and when a run is cut for volume.
use dock_neighbor_hub.Shared.{
  ℕ, ◌≡◌, ◌↔◌, ap, refl, inl, inr, Bool, true, false, List, [], ◌∷◌, none, arith,
}
use dock_neighbor_hub.Float.{Float64, Float64Laws}
use dock_neighbor_hub.Cycle.{
  Mode, Profile, Running, State, Observation, StartResult, washdown, volume_cap, idle, running,
  stop, ok, err, is_washdown, zero_f, stop_latency_mins, start_hub_cycle, adopt_cycle,
  cutoff_trigger_l, metered, cutoff_due, step_running, step,
}
use dock_neighbor_hub.Cycle.Machine.{stops, cycle_steps, step-Stepped}

module _ {V : Type 0} ⦃f : Float64 V⦄ where
  -- The owner's rule: a washdown has no cap and every other run has one.
  abbrev pub IsRuled : Running V → Type 0
  IsRuled run =
      (is_washdown run.mode ≡ true → f.lt_f zero_f run.volume_cap_l ≡ false)
      × (is_washdown run.mode ≡ false → f.le_f run.volume_cap_l zero_f ≡ false)

  abbrev pub StateRuled : State V → Type 0
  StateRuled idle = Unit {0}
  StateRuled (running run) = IsRuled run

  started_ruled :
      (at : ℕ) (mode : Mode) (duration_secs : ℕ) (limit : V) (resume : Bool) (s : State V)
      → start_hub_cycle at mode duration_secs limit resume ≡ ok s
      → StateRuled s
  unfolding start_hub_cycle
  started_ruled at mode duration_secs limit resume idle h = tt
  started_ruled at mode duration_secs limit resume (running run) h = ground arith

  abbrev pub is_started : StartResult V → Bool
  is_started (ok s) = true
  is_started (err e) = false

  -- What the hub starts keeps the rule; it starts exactly when the mode and the cap agree with it.
  pub start_hub_cycle-IsRuled :
      (at : ℕ) (mode : Mode) (duration_secs : ℕ) (limit : V) (resume : Bool)
      → ((s : State V) → start_hub_cycle at mode duration_secs limit resume ≡ ok s → StateRuled s)
        × (is_started (start_hub_cycle at mode duration_secs limit resume) ≡ true
            ↔ (is_washdown mode ≡ true → f.lt_f zero_f limit ≡ false)
              × (is_washdown mode ≡ false → f.le_f limit zero_f ≡ false))
  unfolding start_hub_cycle
  start_hub_cycle-IsRuled at mode duration_secs limit resume =
      ((started_ruled at mode duration_secs limit resume), ground arith)

  -- Every observation keeps the rule, where the profile's own cap is above zero.
  pub step-StateRuled :
      (s : State V) (o : Observation V) (profile : Profile V)
      → f.le_f profile.volume_cap_l zero_f ≡ false
      → StateRuled s
      → StateRuled (step s o profile).state
  unfolding step adopt_cycle
  step-StateRuled idle o profile p r = ground arith
  step-StateRuled (running cur) o profile p r = elim (step-Stepped cur o profile) [
    | inl (_, _, e) ↦ rw (ap (λ r. r.state) e) r
    | inr (inl (_, _, e)) ↦ rw (ap (λ r. r.state) e) r
    | inr (inr (_, e)) ↦ rw (ap (λ r. r.state) e) tt
  ]

  -- A washdown that keeps the rule is never cut for volume.
  pub washdown_uncut :
      (profile : Profile V) (cur : Running V) (os : List (Observation V))
      → cur.mode ≡ washdown
      → IsRuled cur
      → stops (cycle_steps profile cur os) ≡ 0
  unfolding cycle_steps metered cutoff_due
  washdown_uncut profile cur [] w r = refl
  washdown_uncut profile cur (o ∷ os) w r = elim (step-Stepped cur o profile) [
    | inl (_, due, e) ↦ absurd (ground (arith, r.0 (rw w)))
    | inr (inl (_, _, e)) ↦ rw e (omega (arith, washdown_uncut profile (metered cur o) os w r))
    | inr (inr (_, e)) ↦ rw e refl
  ]

module _ {V : Type 0} ⦃f : Float64 V⦄ (laws : Float64Laws V f) where
  cutoff_trigger_l-le :
      (limit speed : V)
      → f.is_finite limit ≡ true
      → f.lt_f zero_f limit ≡ true
      → f.le_f (cutoff_trigger_l limit speed) limit ≡ true
  unfolding cutoff_trigger_l
  cutoff_trigger_l-le limit speed fin pos =
      let lead = f.mul_f speed stop_latency_mins in
      ground (
        arith,
        laws.le_of_lt zero_f limit pos,
        laws.le_refl_finite limit fin,
        laws.lit_finite 0 (omega arith),
        laws.lt_of_not_le speed zero_f,
        laws.mul_positive speed stop_latency_mins,
        laws.div_positive 8 60 (omega arith) (omega arith) (omega arith),
        laws.sub_le limit lead,
        laws.max_le (f.sub_f limit lead) zero_f limit,
      )

  -- A run with a finite cap above zero that is seen watering at a volume at or past it is cut, whatever the reported flow,
  -- unless a stop is already issued.
  pub step-cuts_at_cap :
      (cur : Running V) (o : Observation V) (profile : Profile V)
      → f.is_finite cur.volume_cap_l ≡ true
      → f.lt_f zero_f cur.volume_cap_l ≡ true
      → f.lt_f zero_f o.volume_l ≡ true
      → f.le_f cur.volume_cap_l o.volume_l ≡ true
      → o.watering ≡ true
      → cur.stop_issued ≡ none
      → (step (running cur) o profile).action ≡ stop volume_cap
  unfolding step step_running metered cutoff_due
  step-cuts_at_cap cur o profile fin pos seen past wet unmarked =
      let trigger = cutoff_trigger_l cur.volume_cap_l o.speed_lpm in
      ground (
        arith,
        cutoff_trigger_l-le cur.volume_cap_l o.speed_lpm fin pos,
        laws.le_trans_f trigger cur.volume_cap_l o.volume_l,
      )
