-- ===== src/Cycle.antt =====
-- daemon/src/cycle.rs: the valve cycle machine. Volumes and flow rates are of an abstract `f64`.
-- Times are milliseconds since the epoch and durations seconds, as natural numbers; where the
-- source subtracts them as `i64` the sign of the difference is written out.
pub mod Machine
pub mod Caps
use dock_neighbor_hub.Shared.{
  ℕ, ◌+◌, ◌-◌, ◌*◌, ◌/◌, max, Bool, true, false, not, ◌&&◌, ◌||◌, Option, none, some, String, ltb,
  leb, if◌then◌else◌, is_some, str_eq, trim, codes, to_ascii_lowercase, codes_eq,
}
use dock_neighbor_hub.Float.{Float64}

pub data Mode : Type 0 where
  normal washdown tankfill : Mode

-- `Mode::as_str`.
unfoldable pub mode_str : Mode → String
mode_str normal = "normal"
mode_str washdown = "washdown"
mode_str tankfill = "tankfill"

unfoldable pub from_wire : String → Mode
from_wire s =
    let text = to_ascii_lowercase (codes (trim s)) in
    if codes_eq text (codes "washdown")
    then washdown
    else if codes_eq text (codes "tankfill")
    then tankfill
    else normal

pub data EndReason : Type 0 where
  timer volume_cap manual flood_shutoff unknown : EndReason

-- `EndReason::as_str`.
unfoldable pub reason_str : EndReason → String
reason_str timer = "timer"
reason_str volume_cap = "volume_cap"
reason_str manual = "manual"
reason_str flood_shutoff = "flood_shutoff"
reason_str unknown = "unknown"

pub data Provenance : Type 0 where
  hub adopted : Provenance

abbrev pub is_washdown : Mode → Bool
is_washdown washdown = true
is_washdown normal = false
is_washdown tankfill = false

abbrev pub is_normal : Mode → Bool
is_normal normal = true
is_normal washdown = false
is_normal tankfill = false

abbrev pub is_timer : EndReason → Bool
is_timer timer = true
is_timer volume_cap = false
is_timer manual = false
is_timer flood_shutoff = false
is_timer unknown = false

abbrev pub is_hub : Provenance → Bool
is_hub hub = true
is_hub adopted = false

pub record Profile (V : Type 0) : Type 0 where
  pub duration_secs : ℕ
  pub volume_cap_l : V
  pub auto_restart : Bool

pub record Running (V : Type 0) : Type 0 where
  pub mode : Mode
  pub started_at : ℕ
  pub duration_secs : ℕ
  pub volume_cap_l : V
  pub volume_l : V
  pub provenance : Provenance
  pub stop_issued : Option EndReason
  pub resume_normal : Bool
  pub handover_issued : Bool

pub data State (V : Type 0) : Type 0 where
  idle : State V
  running : Running V → State V

pub record Ended (V : Type 0) : Type 0 where
  pub mode : Mode
  pub ended_at : ℕ
  pub reason : EndReason
  pub volume_l : V
  pub provenance : Provenance
  pub resume_normal : Bool

pub record Observation (V : Type 0) : Type 0 where
  pub at : ℕ
  pub watering : Bool
  pub volume_l : V
  pub remain_secs : Option ℕ
  pub speed_lpm : V

pub data Action : Type 0 where
  no_action : Action
  stop : EndReason → Action

pub record StepResult (V : Type 0) : Type 0 where
  pub state : State V
  pub action : Action
  pub ended : Option (Ended V)

-- The two refusals of `start_hub_cycle`, in place of their messages.
pub data StartError : Type 0 where
  capped_washdown : StartError
  uncapped : Mode → StartError

pub data StartResult (V : Type 0) : Type 0 where
  ok : State V → StartResult V
  err : StartError → StartResult V

-- `remain_secs.filter(|s| *s > 0).unwrap_or(d)`.
abbrev positive_or : Option ℕ → ℕ → ℕ
positive_or none d = d
positive_or (some s) d = if ltb 0 s then s else d

-- `elapsed >= duration_secs as i64 - 60`, where the clock may have gone back.
abbrev pub near_duration : ℕ → ℕ → ℕ → Bool
near_duration started_at at duration_secs =
    if leb started_at at
    then leb duration_secs ((at - started_at) / 1000 + 60)
    else leb (duration_secs + (started_at - at) / 1000) 60

abbrev pub handover_lead_secs : ℕ
handover_lead_secs = 20

module _ {V : Type 0} ⦃f : Float64 V⦄ where
  abbrev pub zero_f : V
  zero_f = f.lit 0 0

  unfoldable pub start_hub_cycle : ℕ → Mode → ℕ → V → Bool → StartResult V
  start_hub_cycle at mode duration_secs volume_cap_l resume_normal =
      if is_washdown mode && f.lt_f zero_f volume_cap_l
      then err capped_washdown
      else if not (is_washdown mode) && f.le_f volume_cap_l zero_f
      then err (uncapped mode)
      else ok (
          running (record {
            mode = mode;
            started_at = at;
            duration_secs = max duration_secs 1;
            volume_cap_l = volume_cap_l;
            volume_l = zero_f;
            provenance = hub;
            stop_issued = none;
            resume_normal = resume_normal && is_washdown mode;
            handover_issued = false;
          }))

  unfoldable pub adopt_cycle : ℕ → Profile V → Option ℕ → Running V
  adopt_cycle at profile remain_secs = record {
    mode = normal;
    started_at = at;
    duration_secs = positive_or remain_secs profile.duration_secs;
    volume_cap_l = profile.volume_cap_l;
    volume_l = zero_f;
    provenance = adopted;
    stop_issued = none;
    resume_normal = false;
    handover_issued = false;
  }

  -- `STOP_LATENCY_SECS` over a minute.
  abbrev pub stop_latency_mins : V
  stop_latency_mins = f.div_f (f.lit 8 0) (f.lit 60 0)

  unfoldable pub cutoff_trigger_l : V → V → V
  cutoff_trigger_l cap_l speed_lpm =
      if not (f.is_finite cap_l) || f.le_f cap_l zero_f
      then zero_f
      else if not (f.is_finite speed_lpm) || f.le_f speed_lpm zero_f
      then cap_l
      else f.max_f (f.sub_f cap_l (f.mul_f speed_lpm stop_latency_mins)) zero_f

  -- The run with the volume of an observation, if it shows one.
  unfoldable pub metered : Running V → Observation V → Running V
  metered cur obs = record cur {
    volume_l = if f.lt_f zero_f obs.volume_l then obs.volume_l else cur.volume_l;
  }

  -- The cutoff's test on a metered run.
  unfoldable pub cutoff_due : Running V → Observation V → Bool
  cutoff_due next obs =
      not (is_some next.stop_issued)
      && (f.lt_f zero_f next.volume_cap_l
          && f.le_f (cutoff_trigger_l next.volume_cap_l obs.speed_lpm) next.volume_l)

  unfoldable pub close_reason : Running V → Observation V → EndReason
  close_reason next obs = elim next.stop_issued [
    | some r ↦ r
    | none ↦
        if f.lt_f zero_f next.volume_cap_l && f.le_f next.volume_cap_l next.volume_l
        then volume_cap
        else if near_duration next.started_at obs.at next.duration_secs
        then timer
        else unknown
  ]

  step_running : Running V → Observation V → StepResult V
  unfolding metered cutoff_due close_reason
  step_running cur obs =
      let next = metered cur obs in
      if obs.watering
      then if cutoff_due next obs
        then record {
          state = running (record next { stop_issued = some volume_cap });
          action = stop volume_cap;
          ended = none;
        }
        else record { state = running next; action = no_action; ended = none }
      else record {
        state = idle;
        action = no_action;
        ended = some (record {
          mode = cur.mode;
          ended_at = obs.at;
          reason = close_reason next obs;
          volume_l = next.volume_l;
          provenance = cur.provenance;
          resume_normal = cur.resume_normal;
        });
      }

  unfoldable pub step : State V → Observation V → Profile V → StepResult V
  unfolding step_running
  step idle obs profile =
      if obs.watering
      then record {
        state =
            running
              (record (adopt_cycle obs.at profile obs.remain_secs) { volume_l = obs.volume_l });
        action = no_action;
        ended = none;
      }
      else record { state = idle; action = no_action; ended = none }
  step (running cur) obs profile = step_running cur obs

-- `should_hand_over`.
unfoldable pub should_hand_over : {V : Type 0} → Running V → Option ℕ → ℕ → ℕ → Bool
should_hand_over run remain_secs now_ms lead_secs =
    if run.handover_issued || is_some run.stop_issued
    then false
    else if not (is_washdown run.mode) || not run.resume_normal
    then false
    else if not (is_hub run.provenance)
    then false
    else let left : ℕ = elim remain_secs [
      | some r ↦ r
      | none ↦ run.duration_secs - (now_ms - run.started_at) / 1000
    ] in
      leb left lead_secs

unfoldable pub should_resume_normal : {V : Type 0} → Ended V → Bool
should_resume_normal ended =
    ended.resume_normal && (is_washdown ended.mode && is_timer ended.reason)

unfoldable pub should_auto_restart : {V : Type 0} → Ended V → Bool → Bool
should_auto_restart ended auto_restart_enabled =
    auto_restart_enabled && (is_normal ended.mode && is_timer ended.reason)
