-- ===== src/Examples/Updates.antt =====
-- A hub at three in the morning and one with an alarm, and a tray that sees its hub stop.
use dock_neighbor_hub.Shared.{◌≡◌, ◌↔◌, true, false, not, ◌||◌, [], ◌∷◌, none, some, if◌then◌else◌}
use dock_neighbor_hub.UpdateGate.{
  UpdatePolicy, UpdateConditions, ok, default_policy, may_update_known,
}
use dock_neighbor_hub.UpdateGate.Rules.{Safe, may_update_known_iff}
use dock_neighbor_hub.TrayState.{Observation, alert_eq, diagnose, is_bad, observe, recovered}
use dock_neighbor_hub.TrayState.Alerts.{watched, icon_of, is_nil, observe-alert}

abbrev at_three : UpdateConditions
at_three = record {
  armed = false;
  alarm_active = false;
  valve_closing = false;
  cycle_running = false;
  local_hour = some 3;
  offer_was_rolled_back = false;
  containerised = false;
}

may_update_known_iff_example :
    (may_update_known (some default_policy) at_three ≡ ok)
    ↔ ((q : UpdatePolicy) × (some default_policy ≡ some q) × Safe q at_three)
may_update_known_iff_example = may_update_known_iff (some default_policy) at_three

abbrev alarmed : UpdateConditions
alarmed = record at_three { alarm_active = true }

abbrev running_hub : Observation
running_hub = record {
  answering = true;
  registered = true;
  binary_present = true;
  service_present = true;
}

abbrev stopped_hub : Observation
stopped_hub = record {
  answering = false;
  registered = false;
  binary_present = true;
  service_present = true;
}

observe-alert_example : (observe (watched (running_hub ∷ [])) stopped_hub).2 ≡ (
    if is_bad (icon_of stopped_hub (running_hub ∷ []))
    then (if not (is_bad (icon_of running_hub []))
          || (is_nil [] || not (alert_eq (diagnose running_hub) (diagnose stopped_hub)))
        then some (diagnose stopped_hub)
        else none)
    else if is_bad (icon_of running_hub [])
    then some recovered
    else none)
observe-alert_example = observe-alert stopped_hub running_hub []
