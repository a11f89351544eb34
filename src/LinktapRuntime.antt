-- ===== src/LinktapRuntime.antt =====
-- daemon/src/linktap_runtime.rs: the valves that a hub watches. Each observation of a status payload
-- steps the cycle machine, keeps the ledger and decides a reopen, which the caller performs.
pub mod Cutoffs
pub mod Reopens
pub mod Rearm
pub mod Hints
use dock_neighbor_hub.Shared.{
  ℕ, ◌+◌, ◌-◌, ◌/◌, ◌<>◌, max, min, Bool, true, false, not, ◌&&◌, ◌||◌, Option, none, some, String,
  List, [], ◌∷◌, ◌++◌, if◌then◌else◌, is_some, any, leb, lookup, insert, decimal, is_empty,
}
use dock_neighbor_hub.Float.{Float64}
use dock_neighbor_hub.Linktap.{
  Flag, Status, Report, Gateway, VolUnit, coerce_watering, reports_volume, cycle_volume_litres,
  flow_rate_litres_per_min, normalize_dev_id,
}
use dock_neighbor_hub.Cycle.{
  Mode, EndReason, Profile, Running, State, Ended, Observation, Action, StepResult, StartResult,
  Provenance, hub, adopted, idle, running, no_action, ok, err, mode_str, reason_str, is_washdown,
  is_hub, start_hub_cycle, step, should_hand_over, should_resume_normal, should_auto_restart,
  handover_lead_secs,
}
use dock_neighbor_hub.Ledger.{Ledger, apply_to_ledger}

-- `PendingOpen::why`.
pub data Why : Type 0 where
  washdown_handover washdown_resume auto_restarted : Why

pub record PendingOpen (V : Type 0) : Type 0 where
  pub duration_secs : ℕ
  pub volume_cap_l : V
  pub why : Why

pub record WireProfile (V : Type 0) : Type 0 where
  pub duration_secs : Option ℕ
  pub volume_cap_l : Option V
  pub auto_restart : Option Bool

pub record Track (V : Type 0) : Type 0 where
  pub state : State V
  pub ledger : Option (Ledger V)
  pub profile : Option (WireProfile V)
  pub meters : Option Bool
  pub pending_open : Option (PendingOpen V)
  pub last_measurement : Option (List (String × String))

pub record Runtime (V : Type 0) : Type 0 where
  pub gateway : Gateway
  pub unit : VolUnit
  pub default_profile : Profile V
  pub tracks : List (String × Track V)

-- How the numbers of a payload are cast and printed: `as u64`, `{:.2}` and `round() as i64`.
pub record Print (V : Type 0) : Type 0 where
  pub as_u64 : V → ℕ
  pub fixed2 : V → String
  pub rounded : V → String

-- `opt.unwrap_or(d)`.
abbrev pub unwrap_or {ℓ} : {A : Type ℓ} → Option A → A → A
unwrap_or none d = d
unwrap_or (some a) d = a

abbrev pub and_then {ℓ κ} : {A : Type ℓ} {B : Type κ} → Option A → (A → Option B) → Option B
and_then none k = none
and_then (some a) k = k a

-- A Boolean as the wire has it.
abbrev pub bit : Bool → String
bit true = "1"
bit false = "0"

-- One parameter, where its value is there.
abbrev pub param_of : String → Option String → List (String × String)
param_of k none = []
param_of k (some v) = (k, v) ∷ []

-- The sooner of two instants, where there is one.
abbrev pub sooner_of : Option ℕ → Option ℕ → Option ℕ
sooner_of soonest none = soonest
sooner_of none (some u) = some u
sooner_of (some s) (some u) = some (min s u)

module _ {V : Type 0} where
  new_track : Track V
  new_track = record {
    state = idle;
    ledger = none;
    profile = none;
    meters = none;
    pending_open = none;
    last_measurement = none;
  }

  new_tracks : List String → List (String × Track V) → List (String × Track V)
  unfolding new_track
  new_tracks [] tracks = tracks
  new_tracks (raw ∷ ids) tracks =
      let id = normalize_dev_id raw in
      new_tracks ids (if is_empty id then tracks else insert id new_track tracks)

  unfoldable pub new : Gateway → List String → Profile V → Runtime V
  unfolding new_tracks
  new gateway dev_ids default_profile = record {
    gateway = gateway;
    unit = VolUnit.gal;
    default_profile = default_profile;
    tracks = new_tracks dev_ids [];
  }

  -- The wire profile's fields over the default's.
  unfoldable pub effective : Option (WireProfile V) → Profile V → Profile V
  effective wire d = record {
    duration_secs = unwrap_or (and_then wire (λ w. w.duration_secs)) d.duration_secs;
    volume_cap_l = unwrap_or (and_then wire (λ w. w.volume_cap_l)) d.volume_cap_l;
    auto_restart = unwrap_or (and_then wire (λ w. w.auto_restart)) d.auto_restart;
  }

  unfoldable pub profile_for : Runtime V → String → Profile V
  profile_for rt dev_id =
      effective (and_then (lookup dev_id rt.tracks) (λ t. t.profile)) rt.default_profile

  unfoldable pub put : Runtime V → String → Track V → Runtime V
  put rt id t = record rt { tracks = insert id t rt.tracks }

  unfoldable pub any_cycle_running : Runtime V → Bool
  any_cycle_running rt = any (λ e. elim e.1.state [ idle ↦ false | running r ↦ true ]) rt.tracks

  -- The reopen that the valve is owed, which taking clears.
  unfoldable pub take_pending_open : Runtime V → String → Runtime V × Option (PendingOpen V)
  take_pending_open rt dev_id =
      let id = normalize_dev_id dev_id in
      elim (lookup id rt.tracks) [
        | none ↦ (rt, none)
        | some t ↦ (put rt id (record t { pending_open = none }), t.pending_open)
      ]

  apply_profile : List (String × WireProfile V) → Runtime V → Runtime V
  apply_profile [] rt = rt
  apply_profile ((raw, prof) ∷ ps) rt =
      let id = normalize_dev_id raw in
      apply_profile ps (elim (lookup id rt.tracks) [
        | none ↦ rt
        | some t ↦ put rt id (record t { profile = some prof })
      ])

  unfoldable pub apply_profiles : Runtime V → List (String × WireProfile V) → Runtime V
  unfolding apply_profile
  apply_profiles rt profiles = apply_profile profiles rt

  -- A cycle that runs with a stop marked on it, and any other as it was.
  unfoldable pub mark : EndReason → State V → State V
  mark reason idle = idle
  mark reason (running r) = running (record r { stop_issued = some reason })

  unfoldable pub note_stop : Runtime V → String → EndReason → Runtime V
  note_stop rt dev_id reason =
      let id = normalize_dev_id dev_id in
      elim (lookup id rt.tracks) [
        | none ↦ rt
        | some t ↦ put rt id (record t { state = mark reason t.state })
      ]

module _ {V : Type 0} ⦃f : Float64 V⦄ where
  -- The mark of a close that was given up goes, on a capped run that is no washdown.
  unfoldable pub unmark : State V → State V × Bool
  unmark idle = (idle, false)
  unmark (running r) =
      if is_washdown r.mode || f.le_f r.volume_cap_l (f.lit 0 0) || not (is_some r.stop_issued)
      then (running r, false)
      else (running (record r { stop_issued = none }), true)

  unfoldable pub note_stop_abandoned : Runtime V → String → Runtime V × Bool
  note_stop_abandoned rt dev_id =
      let id = normalize_dev_id dev_id in
      elim (lookup id rt.tracks) [
        | none ↦ (rt, false)
        | some t ↦ let u = unmark t.state in (put rt id (record t { state = u.0 }), u.1)
      ]

  -- The run that the hub itself opened; `none` for the two refusals.
  unfoldable pub note_hub_open : Runtime V → String → ℕ → Mode → ℕ → V → Bool → Option (Runtime V)
  note_hub_open rt dev_id at mode duration_secs volume_cap_l resume_normal =
      let id = normalize_dev_id dev_id in
      elim (start_hub_cycle at mode duration_secs volume_cap_l resume_normal) [
        | err e ↦ none
        | ok s ↦ elim (lookup id rt.tracks) [
          | none ↦ none
          | some t ↦ some (put rt id (record t { state = s }))
        ]
      ]

  -- How long until the lead window of a run that is to be handed over.
  unfoldable pub until_lead : Running V → ℕ → Option ℕ
  until_lead run now_ms =
      if run.handover_issued || is_some run.stop_issued
      then none
      else if not (is_washdown run.mode) || not run.resume_normal
      then none
      else if not (is_hub run.provenance)
      then none
      else some (run.duration_secs - (now_ms - run.started_at) / 1000 - handover_lead_secs)

  abbrev pub due_of : State V → ℕ → Option ℕ
  due_of idle now_ms = none
  due_of (running run) now_ms = until_lead run now_ms

  pub soonest_of : List (String × Track V) → Option ℕ → ℕ → Option ℕ
  soonest_of [] soonest now_ms = soonest
  soonest_of ((id, t) ∷ ts) soonest now_ms =
      soonest_of ts (sooner_of soonest (due_of t.state now_ms)) now_ms

  unfoldable pub poll_hint : Runtime V → ℕ → Option ℕ
  unfolding soonest_of
  poll_hint rt now_ms = elim (soonest_of rt.tracks none now_ms) [
    | none ↦ none
    | some s ↦ some (max s 5)
  ]

module _ {V : Type 0} ⦃f : Float64 V⦄ (print : Print V) where
  -- The `Observation` that a payload is.
  unfoldable pub observation_of : Status V → VolUnit → ℕ → Observation V
  observation_of data_ unit now_ms = record {
    at = now_ms;
    watering = elim data_.is_watering [ none ↦ false | some v ↦ coerce_watering v ];
    volume_l = cycle_volume_litres data_ unit;
    remain_secs = elim data_.remain_duration [
      | none ↦ none
      | some r ↦ if f.lt_f (f.lit 0 0) r then some (print.as_u64 r) else none
    ];
    speed_lpm = flow_rate_litres_per_min data_ unit;
  }

module _ {V : Type 0} ⦃f : Float64 V⦄ where
  abbrev pub reopen : Profile V → Why → PendingOpen V
  reopen profile why = record {
    duration_secs = profile.duration_secs;
    volume_cap_l = profile.volume_cap_l;
    why = why;
  }

  -- A run inside its lead window is handed over, once.
  unfoldable pub hand_over : Profile V → Observation V → Track V → Track V
  hand_over profile obs t = elim t.state [
    | idle ↦ t
    | running run ↦
        if should_hand_over run obs.remain_secs obs.at handover_lead_secs
        then record t {
          state = running (record run { handover_issued = true });
          pending_open = some (reopen profile washdown_handover);
        }
        else t
  ]

  -- What the end of a cycle leaves: its water in the ledger and the reopen it is followed by.
  unfoldable pub account : Profile V → Option (Ended V) → Track V → Track V
  account profile none t = t
  account profile (some ended) t =
      let booked : Track V = record t { ledger = some (apply_to_ledger t.ledger ended) } in
      if should_resume_normal ended
      then record booked { pending_open = some (reopen profile washdown_resume) }
      else if should_auto_restart ended profile.auto_restart
      then record booked { pending_open = some (reopen profile auto_restarted) }
      else booked

  -- The track after an observation, before its measurement is kept.
  unfoldable pub advance : Profile V → Observation V → Bool → Track V → Track V
  advance profile obs meters t =
      let r = step t.state obs profile in
      account profile r.ended
        (hand_over profile obs (record t { meters = some meters; state = r.state }))

module _ {V : Type 0} ⦃f : Float64 V⦄ (print : Print V) where
  cycle_report : String → Ended V → Report
  cycle_report id ended = record {
    device = "lt_" <> id;
    event = "linktap.cycle.change";
    params =
        ("mode", mode_str ended.mode)
        ∷ ("reason", reason_str ended.reason)
        ∷ ("vol_l", print.fixed2 ended.volume_l)
        ∷ [];
    token = none;
  }

  flag_of : String → Option (Flag V) → List (String × String)
  flag_of k none = []
  flag_of k (some v) = (k, bit (coerce_watering v)) ∷ []

  rounded_of : String → Option V → List (String × String)
  rounded_of k none = []
  rounded_of k (some v) = (k, print.rounded v) ∷ []

  ledger_params : Option (Ledger V) → List (String × String)
  ledger_params none = []
  ledger_params (some l) = ("day", l.day) ∷ ("day_vol_l", print.fixed2 l.volume_l) ∷ []

  provenance_str : Provenance → String
  provenance_str hub = "hub"
  provenance_str adopted = "adopted"

  run_params : State V → Option ℕ → List (String × String)
  unfolding provenance_str
  run_params idle remain = []
  run_params (running run) remain =
      ("mode", mode_str run.mode)
        ∷ ("dur_s", decimal run.duration_secs)
        ∷ ("cap_l", print.fixed2 run.volume_cap_l)
        ∷ param_of "remain_s" (elim remain [ none ↦ none | some r ↦ some (decimal r) ])
      ++ (("prov", provenance_str run.provenance) ∷ [])

  measurement_params : Status V → Observation V → Bool → Track V → List (String × String)
  unfolding flag_of rounded_of ledger_params run_params
  measurement_params data_ obs meters t =
      ("watering", bit obs.watering)
        ∷ ("vol_l", print.fixed2 obs.volume_l)
        ∷ ("meters", bit meters)
        ∷ rounded_of "battery" data_.battery
      ++ rounded_of "signal" data_.signal
      ++ flag_of "rf" data_.is_rf_linked
      ++ flag_of "broken" data_.is_broken
      ++ flag_of "leak" data_.is_leak
      ++ flag_of "clog" data_.is_clog
      ++ flag_of "cutoff" data_.is_cutoff
      ++ (if obs.watering then ("flow_lpm", print.fixed2 obs.speed_lpm) ∷ [] else [])
      ++ ledger_params t.ledger
      ++ run_params t.state obs.remain_secs

  ended_reports : String → Option (Ended V) → List Report
  unfolding cycle_report
  ended_reports id none = []
  ended_reports id (some ended) = cycle_report id ended ∷ []

  -- `observe` on what the lookup of the valve gave.
  unfoldable pub observe_track :
      Runtime V → String → Status V → ℕ → Option (Track V) → Runtime V × Action × List Report
  unfolding ended_reports measurement_params
  observe_track rt id data_ now_ms none = (rt, no_action, [])
  observe_track rt id data_ now_ms (some t) =
      let profile = profile_for rt id in
      let meters = reports_volume data_ in
      let obs = observation_of print data_ rt.unit now_ms in
      let r = step t.state obs profile in
      let advanced = advance profile obs meters t in
      let params = measurement_params data_ obs meters advanced in
      let measurement : Report = record {
        device = "lt_" <> id;
        event = "linktap.measurement";
        params = params;
        token = none;
      } in
      (
        put rt id (record advanced { last_measurement = some params }),
        r.action,
        ended_reports id r.ended ++ (measurement ∷ []),
      )

  unfoldable pub observe : Runtime V → String → Status V → ℕ → Runtime V × Action × List Report
  observe rt dev_id data_ now_ms =
      let id = normalize_dev_id dev_id in observe_track rt id data_ now_ms (lookup id rt.tracks)
