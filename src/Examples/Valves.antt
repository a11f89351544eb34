-- ===== src/Examples/Valves.antt =====
-- Concrete runs of one valve. The stand-in for `f64` counts billionths on the natural numbers.
use dock_neighbor_hub.Shared.{
  ℕ, ◌+◌, ◌-◌, ◌*◌, ◌/◌, ◌^◌, max, ◌≡◌, ◌≤◌, ◌<◌, refl, Bool, true, false, List, [], ◌∷◌, none,
  some, String, arith, lookup, leb, ltb, decimal, trim, trim_start, trim_end, is_whitespace,
  take_chars, is_some,
}
use dock_neighbor_hub.Float.{Float64, Float64Laws}
use dock_neighbor_hub.Linktap.{
  Flag, Status, VolUnit, normalize_dev_id, coerce_watering, cycle_volume_litres, to_litres,
}
use dock_neighbor_hub.Cycle.{
  Provenance, Profile, Running, Observation, normal, washdown, volume_cap, flood_shutoff, running,
  stop, step, cutoff_trigger_l,
}
use dock_neighbor_hub.Cycle.Machine.{count}
use dock_neighbor_hub.LinktapRuntime.Cutoffs.{
  CycleMove, given_up, cutoffs, releases, cutoffs-releases,
}
use dock_neighbor_hub.Ledger.{civil_from_days}
use dock_neighbor_hub.Ledger.Days.{civil_from_days-next_day}
use dock_neighbor_hub.Ledger.Days.Era.{next_day}
use dock_neighbor_hub.LinktapRuntime.{
  Print, Runtime, Track, observation_of, note_stop, note_stop_abandoned, take_pending_open, observe,
  poll_hint, until_lead, unmark,
}
use dock_neighbor_hub.LinktapRuntime.Reopens.{owed, watch_run, note_stop-owed}
use dock_neighbor_hub.LinktapRuntime.Rearm.{note_stop_abandoned-rearms}
use dock_neighbor_hub.LinktapRuntime.Hints.{poll_hint_in_time}

instance abbrev pub billionths : Float64 ℕ
billionths = record {
  lit = λ m k. m * 1000000000 / 10 ^ k;
  lt_f = ltb;
  le_f = leb;
  is_finite = λ a. true;
  add_f = λ a b. a + b;
  sub_f = λ a b. a - b;
  mul_f = λ a b. a * b / 1000000000;
  div_f = λ a b. a * 1000000000 / b;
  max_f = max;
}

billionths_laws : Float64Laws ℕ billionths
billionths_laws = record {
  le_refl_finite = λ a fin. ground arith;
  le_trans_f = λ a b c h k. ground arith;
  lit_finite = λ m small. refl;
  le_of_lt = λ a b h. ground arith;
  mul_positive = λ a b fin pos h. ground arith;
  div_positive = λ m n small pos small'. ground arith;
  sub_le = λ a b fin h. ground arith;
  max_le = λ a b c h k. ground arith;
  lt_of_not_le = λ a b fin fin' h. ground arith;
}

-- A litre.
abbrev pub litre : ℕ
litre = 1000000000

abbrev valve : String
valve = "3CC1C335004B1200"

abbrev day_profile : Profile ℕ
day_profile = record { duration_secs = 86400; volume_cap_l = 100 * litre; auto_restart = true }

abbrev capped : Running ℕ
capped = record {
  mode = normal;
  started_at = 0;
  duration_secs = 86400;
  volume_cap_l = 100 * litre;
  volume_l = 0;
  provenance = Provenance.hub;
  stop_issued = none;
  resume_normal = false;
  handover_issued = false;
}

abbrev washing : Running ℕ
washing = record {
  mode = washdown;
  started_at = 0;
  duration_secs = 600;
  volume_cap_l = 0;
  volume_l = 0;
  provenance = Provenance.hub;
  stop_issued = none;
  resume_normal = true;
  handover_issued = false;
}

abbrev poured : ℕ → Bool → Observation ℕ
poured litres watering = record {
  at = 60000;
  watering = watering;
  volume_l = litres * litre;
  remain_secs = none;
  speed_lpm = 2 * litre;
}

-- The cutoff asks, its close is given up, and it asks again.
abbrev twice : List (CycleMove ℕ)
twice =
    CycleMove.payload (poured 101 true)
    ∷ given_up
    ∷ CycleMove.payload (poured 102 true)
    ∷ CycleMove.payload (poured 103 false)
    ∷ []

cutoffs-releases_example :
    cutoffs day_profile capped twice + count (is_some capped.stop_issued)
    ≤ 1 + releases day_profile capped twice
cutoffs-releases_example = cutoffs-releases day_profile capped twice

asked_twice : (cutoffs day_profile capped twice ≡ 2) × (releases day_profile capped twice ≡ 1)
unfolding cutoffs releases step unmark cutoff_trigger_l
asked_twice = (refl, refl)

civil_from_days-next_day_example : civil_from_days (20683 + 1) ≡ next_day (civil_from_days 20683)
civil_from_days-next_day_example = civil_from_days-next_day 20683

abbrev print : Print ℕ
print = record { as_u64 = λ v. v / litre; fixed2 = decimal; rounded = decimal }

abbrev payload : ℕ → Bool → Status ℕ
payload litres watering = record {
  is_watering = some (Flag.boolean watering);
  is_flm_plugin = some true;
  volume = some (litres * litre);
  speed = none;
  remain_duration = none;
  battery = none;
  signal = none;
  is_rf_linked = none;
  is_broken = none;
  is_leak = none;
  is_clog = none;
  is_cutoff = none;
}

abbrev watched_run : Running ℕ → Track ℕ
watched_run run = record {
  state = running run;
  ledger = none;
  profile = none;
  meters = none;
  pending_open = none;
  last_measurement = none;
}

abbrev runtime : Running ℕ → Runtime ℕ
runtime run = record {
  gateway = record { host = "10.0.0.2"; gw_id = "GW02" };
  unit = VolUnit.litre;
  default_profile = day_profile;
  tracks = (valve, watched_run run) ∷ [];
}

watched :
    (run : Running ℕ)
    → lookup (normalize_dev_id valve) (runtime run).tracks ≡ some (watched_run run)
unfolding normalize_dev_id lookup trim trim_start trim_end is_whitespace take_chars
watched run = refl

abbrev payloads : List (Status ℕ × ℕ)
payloads = (payload 3 true, 60000) ∷ (payload 4 false, 120000) ∷ []

note_stop-owed_example :
    owed (watch_run print (note_stop (runtime capped) valve flood_shutoff) valve payloads) valve
    ≡ none
unfolding normalize_dev_id lookup trim trim_start trim_end is_whitespace take_chars
    take_pending_open
note_stop-owed_example =
    note_stop-owed print (runtime capped) valve flood_shutoff payloads refl refl (λ h. cc)

abbrev marked : Running ℕ
marked = record capped { stop_issued = some flood_shutoff }

note_stop_abandoned-rearms_example :
    (observe print (note_stop_abandoned (runtime marked) valve).0 valve (payload 101 true) 60000).1
    ≡ stop volume_cap
unfolding normalize_dev_id lookup trim trim_start trim_end is_whitespace take_chars
    note_stop_abandoned unmark observation_of coerce_watering cycle_volume_litres to_litres
note_stop_abandoned-rearms_example =
    note_stop_abandoned-rearms billionths_laws print (runtime marked) valve (watched_run marked)
      marked (payload 101 true) 60000 (watched marked) refl refl refl refl refl refl

poll_hint_in_time_example :
    (h : ℕ) × (poll_hint (runtime washing) 540000 ≡ some h)
    × (5 ≤ h)
    × ((540000 + h * 1000 - 0) / 1000 < 600)
unfolding lookup until_lead
poll_hint_in_time_example =
    poll_hint_in_time (runtime washing) 540000 40 valve (watched_run washing) washing refl refl refl
      (omega arith) (omega arith)
